-- ===== src/Sensor/Valid.antt =====
-- When a LiDAR cloud is valid.
use go2_local_navigation.Prelude.{◌≡◌, ◌↔◌, true, Option, arith}
use go2_local_navigation.Prelude.Int.{ℤ, pos, ◌*ℤ◌, ◌<ℤ◌, ◌≤ℤ◌}
use go2_local_navigation.Prelude.Text.{str_eq_iff, subset_str}
use go2_local_navigation.Prelude.Ordered.{NotBefore}
use go2_local_navigation.Sensor.{CloudSample, validate_cloud_sample, required_field_names}

pub record IsAcceptable (s : CloudSample) (previous : Option ℤ) : Type 0 where
  pub frame : s.frame_id ≡ "utlidar_lidar"
  pub fields : subset_str required_field_names s.layout.field_names ≡ true
  pub height : pos 0 <ℤ s.layout.height
  pub width : pos 0 <ℤ s.layout.width
  pub point_step : pos 0 <ℤ s.layout.point_step
  pub row_step : pos 0 <ℤ s.layout.row_step
  pub rows : (s.layout.width *ℤ s.layout.point_step) ≤ℤ s.layout.row_step
  pub size : s.layout.data_length ≡ s.layout.height *ℤ s.layout.row_step
  pub stamp : pos 0 <ℤ s.stamp_nanoseconds
  pub order : NotBefore previous s.stamp_nanoseconds

valid-IsAcceptable :
    (s : CloudSample) (previous : Option ℤ)
    → (validate_cloud_sample s previous).is_valid ≡ true
    → IsAcceptable s previous
unfolding validate_cloud_sample
valid-IsAcceptable s previous h = ground (arith, str_eq_iff s.frame_id "utlidar_lidar")

IsAcceptable-valid :
    (s : CloudSample) (previous : Option ℤ)
    → IsAcceptable s previous
    → (validate_cloud_sample s previous).is_valid ≡ true
unfolding validate_cloud_sample
IsAcceptable-valid s previous h = ground (arith, str_eq_iff s.frame_id "utlidar_lidar")

-- A LiDAR sample is valid exactly if it comes from the frame of the lidar, has the fields x, y and z,
-- has positive sizes with rows that hold the points and as many bytes as the rows, and has a positive
-- stamp that is not before the previous one.
pub validate_cloud_sample_iff :
    (s : CloudSample) (previous : Option ℤ)
    → ((validate_cloud_sample s previous).is_valid ≡ true) ↔ IsAcceptable s previous
validate_cloud_sample_iff s previous =
    (valid-IsAcceptable s previous, IsAcceptable-valid s previous)
