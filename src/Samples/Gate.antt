-- ===== src/Samples/Gate.antt =====
-- Runs of the mapping cloud gate (src/go2_perception/test/test_mapping_cloud_gate.py).
use go2_local_navigation.Prelude.{
  ℕ, ◌≡◌, ◌⊎◌, refl, true, false, Option, some, List, [], ◌∷◌, ◌==◌, if◌then◌else◌,
}
use go2_local_navigation.Prelude.Int.{◌-ℤ◌, ◌*ℤ◌, ℤ, pos}
use go2_local_navigation.Prelude.Ordered.{Descending}
use go2_local_navigation.Perception.Message.{stamp_nanoseconds, PointCloud2}
use go2_local_navigation.Perception.Gate.{assess_mapping_cloud, make_gate, on_cloud, run_gate}
use go2_local_navigation.Perception.Gate.Sound.{
  Admitted, after, on_cloud-Outcome, IsForwarded, cloud_stamp, run_gate-Descending,
}

-- A cloud at `s` seconds, of `n` points of one byte.
abbrev cloud : ℕ → ℕ → PointCloud2
cloud s n = record {
  header = record { stamp = record { sec = pos s; nanosec = 0 }; frame_id = "utlidar_lidar" };
  height = 1;
  width = n;
  fields =
      record { name = "x"; offset = 0; datatype = 7; count = 1 }
      ∷ record { name = "y"; offset = 4; datatype = 7; count = 1 }
      ∷ record { name = "z"; offset = 8; datatype = 7; count = 1 }
      ∷ [];
  is_bigendian = false;
  point_step = 1;
  row_step = n;
  bytes = if n == 2 then 1 ∷ 2 ∷ [] else [];
  is_dense = true;
}

-- all the points of a cloud are finite
abbrev read_points : PointCloud2 → Option ℕ
read_points c = some c.width

abbrev messages : List (PointCloud2 × ℤ)
messages =
    (cloud 5 2, pos 5000000100)
    ∷ (cloud 4 2, pos 5000000200)
    ∷ (cloud 6 0, pos 6000000000)
    ∷ (cloud 6 3, pos 6000000000)
    ∷ (cloud 6 2, pos 7000000001)
    ∷ (cloud 7 2, pos 8000000000)
    ∷ []

-- One cloud regresses, one is empty, one is cut short and one is too old.
run_published : (run_gate read_points messages make_gate).published ≡ (cloud 7 2 ∷ cloud 5 2 ∷ [])
unfolding run_gate assess_mapping_cloud ◌*ℤ◌ stamp_nanoseconds ◌-ℤ◌
run_published = refl

run_gate-Descending_example :
    Descending
      (IsForwarded read_points)
      (cloud_stamp read_points)
      (run_gate read_points messages make_gate).previous_stamp_nanoseconds
      (run_gate read_points messages make_gate).published
run_gate-Descending_example = run_gate-Descending read_points messages

on_cloud-Outcome_example :
    (Admitted read_points (cloud 5 2) (pos 5000000100) make_gate
      × (on_cloud read_points (cloud 5 2) (pos 5000000100) make_gate
          ≡ after read_points (cloud 5 2) make_gate))
    ⊎ ((¬ Admitted read_points (cloud 5 2) (pos 5000000100) make_gate)
        × (on_cloud read_points (cloud 5 2) (pos 5000000100) make_gate ≡ make_gate))
on_cloud-Outcome_example = on_cloud-Outcome read_points (cloud 5 2) (pos 5000000100) make_gate
