-- ===== src/Perception/Message.antt =====
-- sensor_msgs/PointCloud2, with the fields that src/go2_perception reads, and the errors of
-- src/go2_perception/go2_perception/mapping_cloud_accumulator.py.
use go2_local_navigation.Prelude.{ℕ, String, Bool, true, false, ◌&&◌, List, [], ◌∷◌, ◌==◌}
use go2_local_navigation.Prelude.Int.{ℤ, pos, ◌+ℤ◌, ◌*ℤ◌}
use go2_local_navigation.Prelude.Text.{str_eq}

pub record Stamp : Type 0 where
  pub sec : ℤ  -- int32
  pub nanosec : ℕ  -- uint32

pub record Header : Type 0 where
  pub stamp : Stamp
  pub frame_id : String

pub record PointField : Type 0 where
  pub name : String
  pub offset : ℕ
  pub datatype : ℕ
  pub count : ℕ

pub record PointCloud2 : Type 0 where
  pub header : Header
  pub height : ℕ
  pub width : ℕ
  pub fields : List PointField
  pub is_bigendian : Bool
  pub point_step : ℕ
  pub row_step : ℕ
  pub bytes : List ℕ  -- `data`
  pub is_dense : Bool

-- `_stamp_nanoseconds`
unfoldable pub stamp_nanoseconds : Stamp → ℤ
unfolding ◌+ℤ◌ ◌*ℤ◌
stamp_nanoseconds s = s.sec *ℤ pos 1000000000 +ℤ pos s.nanosec

-- equality of the tuples (name, offset, datatype, count)
abbrev pub field_eq : PointField → PointField → Bool
field_eq a b =
    str_eq a.name b.name && a.offset == b.offset && a.datatype == b.datatype && a.count == b.count

abbrev pub fields_eq : List PointField → List PointField → Bool
fields_eq [] [] = true
fields_eq (a ∷ s) (b ∷ t) = field_eq a b && fields_eq s t
fields_eq _ _ = false

-- `MappingCloudWindowError`: a reason code and, for a frame, its detail.
pub data WindowError : Type 0 where
  retry_capacity_invalid emit_every_invalid frame_limit_invalid target_frame_invalid : WindowError
  window_emit_every_invalid xyz_fields_missing layout_invalid layout_changed : WindowError
  frame_mismatch : String → WindowError
  -- the `AssertionError` of the generated message class, and the `IndexError` of `clouds[-1]`
  assertion_error index_error : WindowError
