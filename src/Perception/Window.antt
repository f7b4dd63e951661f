-- ===== src/Perception/Window.antt =====
-- `MappingCloudWindow` and the functions below it, of
-- src/go2_perception/go2_perception/mapping_cloud_accumulator.py. The range assertions in the setters
-- of the generated message class are the parameter `fits`.
pub mod Layout
pub mod Cadence
use go2_local_navigation.Prelude.{
  ℕ, zero, suc, ◌+◌, ◌-◌, ◌*◌, String, Bool, true, false, not, ◌&&◌, ◌||◌, Option, none, some, List,
  [], ◌∷◌, ◌++◌, map, length, drop, last_or, all, sum, is_empty, Result, ok, err, ◌>>◌, ltb, ◌==◌,
  if◌then◌else◌,
}
use mathlib.Core.List.{flat_map}
use go2_local_navigation.Prelude.Int.{ℤ, pos, negsuc}
use go2_local_navigation.Prelude.Text.{str_eq, subset_str}
use go2_local_navigation.Perception.Message.{
  Header, PointField, PointCloud2, fields_eq, WindowError, frame_limit_invalid,
  target_frame_invalid, window_emit_every_invalid, xyz_fields_missing, layout_invalid,
  layout_changed, frame_mismatch, assertion_error, index_error,
}

-- The constructor keeps `frame_limit` positive, and `emit_every` is 1 or the frame limit.
pub record CloudWindow : Type 0 where
  pub frame_limit : ℕ
  pub target_frame : String
  pub emit_every : ℕ
  pub clouds : List PointCloud2

abbrev pub empty_window : ℕ → String → ℕ → CloudWindow
empty_window frame_limit target_frame emit_every = record {
  frame_limit = frame_limit;
  target_frame = target_frame;
  emit_every = emit_every;
  clouds = [];
}

make_positive : ℕ → String → ℤ → Result WindowError CloudWindow
make_positive frame_limit target_frame (pos emit_every) =
    if str_eq target_frame ""
    then err target_frame_invalid
    else if not (emit_every == 1 || emit_every == frame_limit)
    then err window_emit_every_invalid
    else ok (empty_window frame_limit target_frame emit_every)
make_positive frame_limit target_frame (negsuc n) =
    if str_eq target_frame "" then err target_frame_invalid else err window_emit_every_invalid

-- `__init__`
unfoldable pub make_window : ℤ → String → ℤ → Result WindowError CloudWindow
unfolding make_positive
make_window (pos (suc n)) target_frame emit_every = make_positive (suc n) target_frame emit_every
make_window _ target_frame emit_every = err frame_limit_invalid

unfoldable pub validate_cloud : PointCloud2 → String → Result WindowError (Unit {0})
validate_cloud cloud target_frame =
    if not (str_eq cloud.header.frame_id target_frame)
    then err (frame_mismatch cloud.header.frame_id)
    else if not (cloud.height == 1)
        || cloud.width == 0
        || cloud.point_step == 0
        || not (cloud.row_step == cloud.width * cloud.point_step)
        || not (length cloud.bytes == cloud.height * cloud.row_step)
    then err layout_invalid
    else ok tt

abbrev bool_eq : Bool → Bool → Bool
bool_eq true b = b
bool_eq false b = not b

unfoldable pub validate_matching_layout : PointCloud2 → PointCloud2 → Result WindowError (Unit {0})
validate_matching_layout previous current =
    if not (fields_eq previous.fields current.fields)
      || not (previous.point_step == current.point_step)
      || not (bool_eq previous.is_bigendian current.is_bigendian)
    then err layout_changed
    else ok tt

-- `deque.append` with `maxlen`
abbrev pub append_bounded {ℓ} : {A : Type ℓ} → ℕ → List A → A → List A
append_bounded maxlen xs x = drop (length xs + 1 - maxlen) (xs ++ x ∷ [])

abbrev all_bytes : List PointCloud2 → List ℕ
all_bytes [] = []
all_bytes (c ∷ cs) = c.bytes ++ all_bytes cs

-- `clouds[-1]` raises on an empty tuple.
unfoldable pub concatenate_clouds : List PointCloud2 → String → Result WindowError PointCloud2
concatenate_clouds [] target_frame = err index_error
concatenate_clouds (first ∷ rest) target_frame =
    let latest = last_or first rest in
    let width = sum (map (λ (c : PointCloud2). c.width) (first ∷ rest)) in
    ok (record {
      header = record { stamp = latest.header.stamp; frame_id = target_frame };
      height = 1;
      width = width;
      fields = latest.fields;
      is_bigendian = latest.is_bigendian;
      point_step = latest.point_step;
      row_step = width * latest.point_step;
      bytes = all_bytes (first ∷ rest);
      is_dense = all (λ (c : PointCloud2). c.is_dense) (first ∷ rest);
    })

unfoldable pub matches_last : List PointCloud2 → PointCloud2 → Result WindowError (Unit {0})
unfolding validate_matching_layout
matches_last [] cloud = ok tt
matches_last (c ∷ cs) cloud = validate_matching_layout (last_or c cs) cloud

module _ (fits : PointCloud2 → Bool) where
  finish :
      Result WindowError PointCloud2
      → CloudWindow
      → CloudWindow × Result WindowError (Option PointCloud2)
  finish (err e) w = (w, err e)
  finish (ok output) w =
      if not (fits output)
      then (w, err assertion_error)
      else (if ltb 1 w.emit_every then record w { clouds = [] } else w, ok (some output))

  emit : CloudWindow → CloudWindow × Result WindowError (Option PointCloud2)
  unfolding finish
  emit w =
      if ltb 1 w.emit_every && ltb (length w.clouds) w.emit_every
      then (w, ok none)
      else finish (concatenate_clouds w.clouds w.target_frame) w

  checked :
      Result WindowError (Unit {0})
      → PointCloud2
      → CloudWindow
      → CloudWindow × Result WindowError (Option PointCloud2)
  unfolding emit
  checked (err e) cloud w = (w, err e)
  checked (ok _) cloud w = emit (record w { clouds = append_bounded w.frame_limit w.clouds cloud })

  unfoldable pub add :
      PointCloud2 → CloudWindow → CloudWindow × Result WindowError (Option PointCloud2)
  unfolding checked
  add cloud w = checked (validate_cloud cloud w.target_frame >> matches_last w.clouds cloud) cloud w

-- `partial_frame_count`
abbrev pub partial_frame_count : CloudWindow → ℕ
partial_frame_count w = if ltb 1 w.emit_every then length w.clouds else 0

-- `compact_xyz_cloud`; the functions of sensor_msgs_py are parameters.
unfoldable pub compact_xyz_cloud {ℓ} :
    {P : Type ℓ} (read_points_list : PointCloud2 → P)
    (create_cloud_xyz32 : Header → P → PointCloud2)
    → PointCloud2
    → Result WindowError PointCloud2
compact_xyz_cloud read_points_list create_cloud_xyz32 cloud =
    if not (subset_str ("x" ∷ "y" ∷ "z" ∷ []) (map (λ (f : PointField). f.name) cloud.fields))
    then err xyz_fields_missing
    else ok (
        create_cloud_xyz32 (record { stamp = cloud.header.stamp; frame_id = cloud.header.frame_id })
          (read_points_list cloud))
