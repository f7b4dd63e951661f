-- ===== src/Bringup/TfOwners.antt =====
-- src/bringup/bringup/tf_owner_audit.py: who publishes the global transform. A GID is the list of
-- its bytes, and a path is the list of its code points. A set is a list without repetitions: the
-- code sorts it, which matters only to a list of two or more. The texts of details are left out.
pub mod Sound
use go2_local_navigation.Prelude.{
  ℕ, String, Bool, true, false, not, ◌&&◌, ◌||◌, Option, none, some, List, [], ◌∷◌, ◌++◌, length,
  is_empty, ◌==◌, if◌then◌else◌,
}
use go2_local_navigation.Prelude.Text.{codes, str_eq}
use go2_local_navigation.Bringup.Metrics.{CheckResult, status_of}
use go2_local_navigation.Bringup.Mode.{
  ExecutionMode, GlobalTfOwnerContract, ModeContract, mode_contract,
}

pub record TfEndpointOwner : Type 0 where
  pub publisher_gid : List ℕ
  pub node_name : String
  pub node_namespace : String

pub record TfCallbackTransform : Type 0 where
  pub parent_frame : String
  pub child_frame : String
  pub publisher_gid : List ℕ

-- `rstrip("/")`
unfoldable pub rstrip : List ℕ → List ℕ
rstrip [] = []
rstrip (c ∷ cs) = let rest = rstrip cs in if c == 47 && is_empty rest then [] else c ∷ rest

unfoldable pub node_path : TfEndpointOwner → List ℕ
node_path e =
    if str_eq e.node_namespace "/"
    then 47 ∷ codes e.node_name
    else rstrip (codes e.node_namespace) ++ 47 ∷ codes e.node_name

unfoldable pub bytes_eq : List ℕ → List ℕ → Bool
bytes_eq [] [] = true
bytes_eq (a ∷ s) (b ∷ t) = a == b && bytes_eq s t
bytes_eq _ _ = false

-- the endpoint of a GID; the last one with that GID is the one in the dictionary
unfoldable pub endpoint_of : List ℕ → List TfEndpointOwner → Option TfEndpointOwner
endpoint_of gid [] = none
endpoint_of gid (e ∷ es) =
    let later = endpoint_of gid es in
    elim later [
      | some found ↦ some found
      | none ↦ if bytes_eq e.publisher_gid gid then some e else none
    ]

unfoldable pub is_global : TfCallbackTransform → Bool
is_global c = str_eq c.child_frame "odom"

-- `tuple(callback for callback in callbacks if test)`
unfoldable pub select :
    (TfCallbackTransform → Bool) → List TfCallbackTransform → List TfCallbackTransform
select test [] = []
select test (c ∷ cs) = let rest = select test cs in if test c then c ∷ rest else rest

abbrev pub frame_is : Option String → String → Bool
frame_is none frame = false
frame_is (some expected) frame = str_eq frame expected

abbrev pub is_expected : GlobalTfOwnerContract → TfCallbackTransform → Bool
is_expected contract c =
    frame_is contract.parent_frame c.parent_frame && frame_is contract.child_frame c.child_frame

unfoldable pub unknown_gids : List TfEndpointOwner → List TfCallbackTransform → List (List ℕ)
unknown_gids endpoints [] = []
unknown_gids endpoints (c ∷ cs) =
    let rest = unknown_gids endpoints cs in
    elim (endpoint_of c.publisher_gid endpoints) [ some e ↦ rest | none ↦ c.publisher_gid ∷ rest ]

unfoldable pub has_gid : List ℕ → List (List ℕ) → Bool
has_gid gid [] = false
has_gid gid (g ∷ gs) = bytes_eq gid g || has_gid gid gs

-- the set of the GIDs
unfoldable pub gids : List TfCallbackTransform → List (List ℕ)
gids [] = []
gids (c ∷ cs) =
    let rest = gids cs in if has_gid c.publisher_gid rest then rest else c.publisher_gid ∷ rest

abbrev pub edge_is : TfCallbackTransform → String × String → Bool
edge_is c (parent, child) = str_eq c.parent_frame parent && str_eq c.child_frame child

unfoldable pub has_edge : TfCallbackTransform → List (String × String) → Bool
has_edge c [] = false
has_edge c (e ∷ es) = edge_is c e || has_edge c es

-- the set of the edges
unfoldable pub edges : List TfCallbackTransform → List (String × String)
edges [] = []
edges (c ∷ cs) =
    let rest = edges cs in if has_edge c rest then rest else (c.parent_frame, c.child_frame) ∷ rest

unfoldable pub owner_paths : List TfEndpointOwner → List (List ℕ) → List (List ℕ)
owner_paths endpoints [] = []
owner_paths endpoints (g ∷ gs) =
    let rest = owner_paths endpoints gs in
    elim (endpoint_of g endpoints) [ some e ↦ node_path e ∷ rest | none ↦ rest ]

-- `observed_edges == expected_edge_set`
abbrev pub edges_match : GlobalTfOwnerContract → List (String × String) → Bool
edges_match contract [] = elim contract.parent_frame [ none ↦ true | some p ↦ false ]
edges_match contract ((parent, child) ∷ []) =
    frame_is contract.parent_frame parent && frame_is contract.child_frame child
edges_match contract _ = false

abbrev pub owners_match : Option String → List (List ℕ) → Bool
owners_match none paths = true
owners_match (some owner) (path ∷ []) = bytes_eq path (codes owner)
owners_match (some owner) _ = false

-- The four checks, before their results are named.
pub record Audit : Type 0 where
  pub resolved : Bool
  pub edges : Bool
  pub cardinality : Bool
  pub owners : Bool

unfoldable pub audit :
    GlobalTfOwnerContract → List TfEndpointOwner → List TfCallbackTransform → Audit
audit contract endpoints callbacks =
    let global_callbacks = select is_global callbacks in
    let owner_gids = gids (select (is_expected contract) global_callbacks) in
    record {
      resolved = is_empty (unknown_gids endpoints global_callbacks);
      edges = edges_match contract (edges global_callbacks);
      cardinality = length owner_gids == contract.owner_count;
      owners = owners_match contract.owner_node (owner_paths endpoints owner_gids);
    }

unfoldable pub audit_global_tf_owners :
    ExecutionMode → List TfEndpointOwner → List TfCallbackTransform → List CheckResult
audit_global_tf_owners mode endpoints callbacks =
    let a = audit (mode_contract mode).global_tf endpoints callbacks in
    record { check_id = "tf.global_owner_resolution"; status = status_of a.resolved }
    ∷ record { check_id = "tf.global_edge"; status = status_of a.edges }
    ∷ record { check_id = "tf.global_owner_cardinality"; status = status_of a.cardinality }
    ∷ record { check_id = "tf.global_owner_identity"; status = status_of a.owners }
    ∷ []

unfoldable pub audit_teardown_tf_owners : List TfCallbackTransform → CheckResult
audit_teardown_tf_owners callbacks = record {
  check_id = "tf.teardown_global_owner_cardinality";
  status = status_of (is_empty (gids (select is_global callbacks)));
}
