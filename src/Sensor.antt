-- ===== src/Sensor.antt =====
-- src/go2_sensor/go2_sensor/lidar_contract.py and lidar_acceptance_node.py: which LiDAR clouds the
-- acceptance node counts as valid. Logging is left out.
pub mod Valid
use go2_local_navigation.Prelude.{
  ℕ, ◌+◌, String, Bool, true, false, not, ◌||◌, Option, none, some, List, [], ◌∷◌, map, length,
  if◌then◌else◌,
}
use go2_local_navigation.Prelude.Int.{ℤ, pos, ltb_ℤ, leb_ℤ, eqb_ℤ, ◌*ℤ◌}
use go2_local_navigation.Prelude.Text.{str_eq, subset_str}
use go2_local_navigation.Perception.Message.{PointField, PointCloud2, stamp_nanoseconds}

pub record CloudLayout : Type 0 where
  pub height : ℤ
  pub width : ℤ
  pub point_step : ℤ
  pub row_step : ℤ
  pub data_length : ℤ
  pub field_names : List String

pub record CloudSample : Type 0 where
  pub frame_id : String
  pub stamp_nanoseconds : ℤ
  pub layout : CloudLayout

pub record ValidationResult : Type 0 where
  pub is_valid : Bool
  pub reason : Option String

abbrev rejected : String → ValidationResult
rejected reason = record { is_valid = false; reason = some reason }

abbrev pub required_field_names : List String
required_field_names = "x" ∷ "y" ∷ "z" ∷ []

-- `previous is not None and stamp < previous`
abbrev pub regressed : ℤ → Option ℤ → Bool
regressed stamp none = false
regressed stamp (some previous) = ltb_ℤ stamp previous

unfoldable pub validate_cloud_sample : CloudSample → Option ℤ → ValidationResult
validate_cloud_sample s previous =
    let l = s.layout in
    if not (str_eq s.frame_id "utlidar_lidar")
    then rejected "unexpected frame_id"
    else if not (subset_str required_field_names l.field_names)
    then rejected "missing required point fields"
    else if leb_ℤ l.height (pos 0)
        || leb_ℤ l.width (pos 0)
        || leb_ℤ l.point_step (pos 0)
        || leb_ℤ l.row_step (pos 0)
    then rejected "cloud layout must be nonzero"
    else if ltb_ℤ l.row_step (l.width *ℤ l.point_step)
        || not (eqb_ℤ l.data_length (l.height *ℤ l.row_step))
    then rejected "cloud data length mismatch"
    else if leb_ℤ s.stamp_nanoseconds (pos 0)
    then rejected "timestamp must be positive"
    else if regressed s.stamp_nanoseconds previous
    then rejected "timestamp regressed"
    else record { is_valid = true; reason = none }

pub record LidarAcceptance : Type 0 where
  pub first_layout_logged : Bool
  pub previous_stamp_nanoseconds : Option ℤ
  pub valid_sample_count : ℕ
  pub invalid_sample_count : ℕ

abbrev pub make_lidar_acceptance : LidarAcceptance
make_lidar_acceptance = record {
  first_layout_logged = false;
  previous_stamp_nanoseconds = none;
  valid_sample_count = 0;
  invalid_sample_count = 0;
}

abbrev pub lidar_sample : PointCloud2 → CloudSample
lidar_sample message = record {
  frame_id = message.header.frame_id;
  stamp_nanoseconds = stamp_nanoseconds message.header.stamp;
  layout = record {
    height = pos message.height;
    width = pos message.width;
    point_step = pos message.point_step;
    row_step = pos message.row_step;
    data_length = pos (length message.bytes);
    field_names = map (λ (f : PointField). f.name) message.fields;
  };
}

abbrev count_sample : Bool → LidarAcceptance → LidarAcceptance
count_sample is_valid n =
    if is_valid
    then record n { valid_sample_count = n.valid_sample_count + 1 }
    else record n { invalid_sample_count = n.invalid_sample_count + 1 }

unfoldable pub on_lidar_cloud : PointCloud2 → LidarAcceptance → LidarAcceptance
on_lidar_cloud message n =
    let sample = lidar_sample message in
    let result = validate_cloud_sample sample n.previous_stamp_nanoseconds in
    count_sample result.is_valid (record n {
      first_layout_logged = true;
      previous_stamp_nanoseconds =
          if ltb_ℤ (pos 0) sample.stamp_nanoseconds
          then some sample.stamp_nanoseconds
          else n.previous_stamp_nanoseconds;
    })
