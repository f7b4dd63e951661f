-- ===== src/Bringup/TfOwners/Sound.antt =====
-- What the audit of src/bringup/bringup/tf_owner_audit.py says of the callbacks it saw.
use go2_local_navigation.Prelude.{
  ℕ, ◌≡◌, ◌∙◌, refl, sym, ap, String, Bool, true, false, ◌&&◌, none, some, List, [], ◌∷◌, All,
  length, is_empty, ◌==◌, arith, inl, inr, Bool-cases, Option-cases, if◌then◌else◌,
}
use mathlib.Core.Path.{subst}
use go2_local_navigation.Prelude.Text.{codes, str_eq_iff}
use go2_local_navigation.Bringup.Mode.{GlobalTfOwnerContract, owned_by}
use go2_local_navigation.Bringup.TfOwners.{
  TfEndpointOwner, TfCallbackTransform, node_path, bytes_eq, endpoint_of, is_global, select,
  is_expected, has_gid, gids, has_edge, edges, owner_paths, owners_match, edges_match, Audit, audit,
}

pub bytes_eq_sound : (s t : List ℕ) → bytes_eq s t ≡ true → s ≡ t
unfolding bytes_eq
bytes_eq_sound [] [] h = refl
bytes_eq_sound (a ∷ s) (b ∷ t) h =
    let (e, k) = both (a == b) (bytes_eq s t) h in
    let head : a ≡ b = ground arith in let tail = bytes_eq_sound s t k in rw (head, tail)
  where
    both : (x y : Bool) → (x && y) ≡ true → (x ≡ true) × (y ≡ true)
    both true y h = (refl, h)
    both false y h = cc
bytes_eq_sound [] (b ∷ t) h = cc
bytes_eq_sound (a ∷ s) [] h = cc

-- A GID in a set of one.
has_gid_one : (gid g : List ℕ) → has_gid gid (g ∷ []) ≡ true → gid ≡ g
unfolding has_gid
has_gid_one gid g h = bytes_eq_sound gid g (ground arith)

abbrev pub SameGid : List ℕ → List TfCallbackTransform → Type 0
SameGid g cs = All (λ (c : TfCallbackTransform). c.publisher_gid ≡ g) cs

has_gid_nil : (gid : List ℕ) (gs : List (List ℕ)) → has_gid gid gs ≡ true → is_empty gs ≡ false
unfolding has_gid
has_gid_nil gid [] h = cc
has_gid_nil gid (g ∷ gs) h = refl

gids-is_empty :
    (g : List ℕ) (cs : List TfCallbackTransform) → is_empty (gids cs) ≡ true → SameGid g cs
unfolding gids
gids-is_empty g [] h = tt
gids-is_empty g (c ∷ cs) h = elim (Bool-cases (has_gid c.publisher_gid (gids cs))) [
  | inl e ↦
      let k = subst (λ b. is_empty (if b then gids cs else c.publisher_gid ∷ gids cs) ≡ true) e h in
      absurd (cc (k, has_gid_nil c.publisher_gid (gids cs) e))
  | inr e ↦
      let k = subst (λ b. is_empty (if b then gids cs else c.publisher_gid ∷ gids cs) ≡ true) e h in
      absurd (cc k)
]

one_element {ℓ} : {A : Type ℓ} (xs : List A) → length xs ≡ 1 → (x : A) × (xs ≡ x ∷ [])
one_element [] h = absurd (omega arith)
one_element (x ∷ []) h = (x, refl)
one_element (x ∷ y ∷ ys) h = absurd (omega arith)

tail_of : List (List ℕ) → List (List ℕ)
tail_of [] = []
tail_of (g ∷ gs) = gs

head_or : List ℕ → List (List ℕ) → List ℕ
head_or d [] = d
head_or d (g ∷ gs) = g

-- A set of GIDs with one element names the GID of every callback.
gids-SameGid : (cs : List TfCallbackTransform) (g : List ℕ) → gids cs ≡ g ∷ [] → SameGid g cs
unfolding gids head_or tail_of
gids-SameGid [] g h = tt
gids-SameGid (c ∷ cs) g h = elim (Bool-cases (has_gid c.publisher_gid (gids cs))) [
  | inl e ↦
      let k : gids cs ≡ g ∷ [] =
        subst (λ b. (if b then gids cs else c.publisher_gid ∷ gids cs) ≡ g ∷ []) e h in
      let m : has_gid c.publisher_gid (g ∷ []) ≡ true = sym (ap (has_gid c.publisher_gid) k) ∙ e in
      (has_gid_one c.publisher_gid g m, gids-SameGid cs g k)
  | inr e ↦
      let k : c.publisher_gid ∷ gids cs ≡ g ∷ [] =
        subst (λ b. (if b then gids cs else c.publisher_gid ∷ gids cs) ≡ g ∷ []) e h in
      let none_left : is_empty (gids cs) ≡ true = ap (λ gs. is_empty (tail_of gs)) k in
      (ap (head_or g) k, gids-is_empty g cs none_left)
]

-- The callbacks of the global transform all have the one expected edge.
abbrev pub HasEdge : GlobalTfOwnerContract → List TfCallbackTransform → Type 0
HasEdge contract cs = All (λ (c : TfCallbackTransform). is_expected contract c ≡ true) cs

-- Any edge in a set that matches is the expected one.
expected_edge :
    (contract : GlobalTfOwnerContract) (c : TfCallbackTransform) (es : List (String × String))
    → edges_match contract es ≡ true
    → has_edge c es ≡ true
    → is_expected contract c ≡ true
unfolding has_edge
expected_edge contract c [] h k = cc
expected_edge contract c ((p, q) ∷ []) h k =
    ground (arith, str_eq_iff c.parent_frame p, str_eq_iff c.child_frame q)
expected_edge contract c (e ∷ f ∷ es) h k = cc

Covered : List (String × String) → List TfCallbackTransform → Type 0
Covered es cs = All (λ (c : TfCallbackTransform). has_edge c es ≡ true) cs

Covered-more :
    (e : String × String) (es : List (String × String)) (cs : List TfCallbackTransform)
    → Covered es cs
    → Covered (e ∷ es) cs
unfolding Covered has_edge
Covered-more e es [] h = tt
Covered-more e es (c ∷ cs) h = (ground (arith, h.0), Covered-more e es cs h.1)

edges-Covered : (cs : List TfCallbackTransform) → Covered (edges cs) cs
unfolding Covered edges
edges-Covered [] = tt
edges-Covered (c ∷ cs) =
    let own : has_edge c ((c.parent_frame, c.child_frame) ∷ edges cs) ≡ true =
      unfold has_edge in
      rw (
        (str_eq_iff c.parent_frame c.parent_frame).1 refl,
        (str_eq_iff c.child_frame c.child_frame).1 refl,
      ) in
    let grown = λ (b : Bool).
      Covered (if b then edges cs else (c.parent_frame, c.child_frame) ∷ edges cs) (c ∷ cs) in
    elim (Bool-cases (has_edge c (edges cs))) [
      | inl e ↦ subst grown (sym e) (e, edges-Covered cs)
      | inr e ↦
          subst grown (sym e)
            (own, Covered-more (c.parent_frame, c.child_frame) (edges cs) cs (edges-Covered cs))
    ]

Covered-HasEdge :
    (contract : GlobalTfOwnerContract) (es : List (String × String)) (cs : List TfCallbackTransform)
    → edges_match contract es ≡ true
    → Covered es cs
    → HasEdge contract cs
unfolding Covered
Covered-HasEdge contract es [] m h = tt
Covered-HasEdge contract es (c ∷ cs) m h =
    (expected_edge contract c es m h.0, Covered-HasEdge contract es cs m h.1)

select-HasEdge :
    (contract : GlobalTfOwnerContract) (cs : List TfCallbackTransform)
    → HasEdge contract cs
    → select (is_expected contract) cs ≡ cs
unfolding select
select-HasEdge contract [] h = refl
select-HasEdge contract (c ∷ cs) h = rw (h.0, select-HasEdge contract cs h.1)

one_path :
    (endpoints : List TfEndpointOwner) (owner : String) (g : List ℕ)
    → owners_match (some owner) (owner_paths endpoints (g ∷ [])) ≡ true
    → (e : TfEndpointOwner) × (endpoint_of g endpoints ≡ some e) × (node_path e ≡ codes owner)
unfolding owner_paths
one_path endpoints owner g h = elim (Option-cases (endpoint_of g endpoints)) [
  | inl n ↦ absurd (
      cc (
        n,
        subst
            (λ o.
              owners_match (some owner) (elim o [ some e ↦ node_path e ∷ [] | none ↦ [] ]) ≡ true)
            n h,
      ))
  | inr (e, s) ↦ (
    e,
    s,
    bytes_eq_sound (node_path e) (codes owner) (
        subst
          (λ o. owners_match (some owner) (elim o [ some f ↦ node_path f ∷ [] | none ↦ [] ]) ≡ true)
          s h),
  )
]

-- All four checks of an audit.
abbrev pub AllPass : Audit → Type 0
AllPass a = (a.resolved ≡ true) × (a.edges ≡ true) × (a.cardinality ≡ true) × (a.owners ≡ true)

-- One endpoint of the expected path published every callback of the global transform, on the
-- expected edge.
pub record IsSoleOwner (parent owner : String) (endpoints : List TfEndpointOwner)
    (cs : List TfCallbackTransform) (e : TfEndpointOwner) : Type 0 where
  pub gid : List ℕ
  pub known : endpoint_of gid endpoints ≡ some e
  pub path : node_path e ≡ codes owner
  pub published : SameGid gid cs
  pub on_edge : HasEdge (owned_by parent owner) cs

-- If the four checks pass for a mode that expects one owner of the global transform, then every
-- callback of a transform to odom came from one GID, whose endpoint has the path of that owner, and
-- has the expected parent.
pub audit-IsSoleOwner :
    (parent owner : String) (endpoints : List TfEndpointOwner)
    (callbacks : List TfCallbackTransform)
    → AllPass (audit (owned_by parent owner) endpoints callbacks)
    → (e : TfEndpointOwner) × IsSoleOwner parent owner endpoints (select is_global callbacks) e
unfolding audit
audit-IsSoleOwner parent owner endpoints callbacks (resolved, edge, cardinality, owners) =
    let contract = owned_by parent owner in
    let seen = select is_global callbacks in
    let on_edge = Covered-HasEdge contract (edges seen) seen edge (edges-Covered seen) in
    let same = ap gids (select-HasEdge contract seen on_edge) in
    let one : length (gids (select (is_expected contract) seen)) ≡ 1 =
      ground (arith, cardinality) in
    let (g, e) = one_element (gids (select (is_expected contract) seen)) one in
    let (endpoint, known, path) =
      one_path endpoints owner g
        (subst (λ gs. owners_match (some owner) (owner_paths endpoints gs) ≡ true) e owners) in
    (
      endpoint,
      record {
        gid = g;
        known = known;
        path = path;
        published = gids-SameGid seen g (sym same ∙ e);
        on_edge = on_edge;
      },
    )
