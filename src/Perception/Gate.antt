-- ===== src/Perception/Gate.antt =====
-- src/go2_perception/go2_perception/mapping_cloud_contract.py and mapping_cloud_gate_node.py: which
-- clouds go on to the mapping topic. A reading of the node's clock is an argument, and
-- `point_cloud2.read_points` is a parameter.
pub mod Sound
use go2_local_navigation.Prelude.{
  ℕ, String, Bool, true, false, not, ◌||◌, Option, none, some, List, [], ◌∷◌, map, length, ltb,
  ◌==◌, if◌then◌else◌,
}
use go2_local_navigation.Prelude.Int.{ℤ, pos, ltb_ℤ, leb_ℤ, eqb_ℤ, ◌*ℤ◌, ◌-ℤ◌}
use go2_local_navigation.Prelude.Text.{subset_str}
use go2_local_navigation.Perception.Message.{PointField, PointCloud2, stamp_nanoseconds}

pub record MappingCloudSample : Type 0 where
  pub stamp_nanoseconds : ℤ
  pub width : ℤ
  pub height : ℤ
  pub point_step : ℤ
  pub row_step : ℤ
  pub data_length : ℤ
  pub finite_point_count : ℤ
  pub field_names : List String

-- The reason codes of a suppressed cloud.
pub data Suppression : Type 0 where
  empty_cloud malformed_layout nonpositive_timestamp timestamp_regression : Suppression
  nan_cloud stale_cloud : Suppression

pub record MappingCloudAssessment : Type 0 where
  pub publish : Bool
  pub reason_code : Option Suppression

abbrev suppress : Suppression → MappingCloudAssessment
suppress reason = record { publish = false; reason_code = some reason }

abbrev pub max_cloud_age_nanoseconds : ℤ
max_cloud_age_nanoseconds = pos 1000000000

-- `previous is not None and stamp < previous`
abbrev pub is_before : ℤ → Option ℤ → Bool
is_before stamp none = false
is_before stamp (some previous) = ltb_ℤ stamp previous

abbrev pub is_malformed : MappingCloudSample → Bool
is_malformed s =
    ltb_ℤ s.width (pos 0)
    || ltb_ℤ s.height (pos 0)
    || leb_ℤ s.point_step (pos 0)
    || ltb_ℤ s.row_step (s.width *ℤ s.point_step)
    || not (eqb_ℤ s.data_length (s.height *ℤ s.row_step))
    || not (subset_str ("x" ∷ "y" ∷ "z" ∷ []) s.field_names)

unfoldable pub assess_mapping_cloud : MappingCloudSample → ℤ → Option ℤ → MappingCloudAssessment
assess_mapping_cloud s now previous =
    if eqb_ℤ s.width (pos 0) || eqb_ℤ s.height (pos 0)
    then suppress empty_cloud
    else if is_malformed s
    then suppress malformed_layout
    else if leb_ℤ s.stamp_nanoseconds (pos 0)
    then suppress nonpositive_timestamp
    else if is_before s.stamp_nanoseconds previous
    then suppress timestamp_regression
    else if eqb_ℤ s.finite_point_count (pos 0)
    then suppress nan_cloud
    else if ltb_ℤ max_cloud_age_nanoseconds (now -ℤ s.stamp_nanoseconds)
    then suppress stale_cloud
    else record { publish = true; reason_code = none }

-- `MappingCloudGateNode`: what it published, the newest first.
pub record GateNode : Type 0 where
  pub previous_stamp_nanoseconds : Option ℤ
  pub published : List PointCloud2

abbrev pub make_gate : GateNode
make_gate = record { previous_stamp_nanoseconds = none; published = [] }

abbrev pub sample_of : PointCloud2 → ℕ → MappingCloudSample
sample_of message finite_point_count = record {
  stamp_nanoseconds = stamp_nanoseconds message.header.stamp;
  width = pos message.width;
  height = pos message.height;
  point_step = pos message.point_step;
  row_step = pos message.row_step;
  data_length = pos (length message.bytes);
  finite_point_count = pos finite_point_count;
  field_names = map (λ (f : PointField). f.name) message.fields;
}

-- `read_points` counts the finite points; `none` is one of the errors that the node catches.
module _ (read_points : PointCloud2 → Option ℕ) where
  unfoldable pub on_cloud : PointCloud2 → ℤ → GateNode → GateNode
  on_cloud message now n =
      let layout = assess_mapping_cloud (sample_of message 1) now n.previous_stamp_nanoseconds in
      if not layout.publish then n else elim (read_points message) [
        | none ↦ n
        | some count ↦
            let assessment =
              assess_mapping_cloud (sample_of message count) now n.previous_stamp_nanoseconds in
            if not assessment.publish then n else record {
              previous_stamp_nanoseconds = some (stamp_nanoseconds message.header.stamp);
              published = message ∷ n.published;
            }
      ]

  unfoldable pub run_gate : List (PointCloud2 × ℤ) → GateNode → GateNode
  unfolding on_cloud
  run_gate [] n = n
  run_gate ((message, now) ∷ rest) n = run_gate rest (on_cloud message now n)
