-- ===== src/Perception/Candidates.antt =====
-- src/go2_perception/go2_perception/perception_contract.py and obstacle_candidate_node.py: which
-- points of a cloud become obstacle candidates. The TF lookup and the functions of sensor_msgs_py
-- are parameters; logging is left out, and the topic is the list of its messages, the newest first.
pub mod Sound
use go2_local_navigation.Prelude.{
  ℕ, String, Bool, true, false, not, ◌&&◌, Option, none, some, List, [], ◌∷◌, if◌then◌else◌,
}
use go2_local_navigation.Prelude.Int.{pos, negsuc}
use go2_local_navigation.Prelude.Text.{str_eq}
use go2_local_navigation.Prelude.Float.{Float, Trig}
use go2_local_navigation.Estimation.Contract.{Xyz, Xyzw, xyz_is_finite}
use go2_local_navigation.Perception.Message.{Header, PointCloud2, Stamp}
use go2_local_navigation.Perception.Accumulator.{Lookup, found, transform_exception}

pub record RigidTransform (F : Type 0) : Type 0 where
  pub translation_xyz : Xyz F
  pub rotation_xyzw : Xyzw F

pub record CandidateBounds (F : Type 0) : Type 0 where
  pub minimum_range : F
  pub maximum_range : F
  pub minimum_z : F
  pub maximum_z : F

module _ {F : Type 0} ⦃fl : Float F⦄ where
  abbrev real : ℕ → F
  real n = fl.ratio (pos n) (pos 1)

  abbrev twice : F → F
  twice x = fl.mul (real 2) x

  abbrev pub identity : RigidTransform F
  identity = record {
    translation_xyz = record { x = fl.nought; y = fl.nought; z = fl.nought };
    rotation_xyzw = record { x = fl.nought; y = fl.nought; z = fl.nought; w = real 1 };
  }

  -- (0.25, 5.0) and (-0.25, 1.0)
  abbrev pub candidate_bounds : CandidateBounds F
  candidate_bounds = record {
    minimum_range = fl.ratio (pos 25) (pos 100);
    maximum_range = real 5;
    minimum_z = fl.ratio (negsuc 24) (pos 100);
    maximum_z = real 1;
  }

  -- a * x + b * y + c * z + t
  abbrev row : F → F → F → F → Xyz F → F
  row a b c t p = fl.add (fl.add (fl.add (fl.mul a p.x) (fl.mul b p.y)) (fl.mul c p.z)) t

  unfoldable pub apply_transform : Xyz F → RigidTransform F → Xyz F
  apply_transform point transform =
      let t = transform.translation_xyz in
      let q = transform.rotation_xyzw in
      let xx = fl.mul q.x q.x in
      let yy = fl.mul q.y q.y in
      let zz = fl.mul q.z q.z in
      let xy = fl.mul q.x q.y in
      let xz = fl.mul q.x q.z in
      let yz = fl.mul q.y q.z in
      let wx = fl.mul q.w q.x in
      let wy = fl.mul q.w q.y in
      let wz = fl.mul q.w q.z in
      record {
        x =
            row (fl.sub (real 1) (twice (fl.add yy zz))) (twice (fl.sub xy wz))
              (twice (fl.add xz wy)) t.x point;
        y =
            row (twice (fl.add xy wz)) (fl.sub (real 1) (twice (fl.add xx zz)))
              (twice (fl.sub yz wx)) t.y point;
        z =
            row (twice (fl.sub xz wy)) (twice (fl.add yz wx))
              (fl.sub (real 1) (twice (fl.add xx yy))) t.z point;
      }

  module _ ⦃m : Trig F⦄ where
    unfoldable pub is_obstacle_candidate : Xyz F → Bool
    is_obstacle_candidate point =
        let b = candidate_bounds in
        let planar_range = m.hypot point.x point.y in
        if not (xyz_is_finite point)
        then false
        else fl.le b.minimum_range planar_range
          && fl.le planar_range b.maximum_range
          && fl.le b.minimum_z point.z
          && fl.le point.z b.maximum_z

    unfoldable pub transform_and_filter_points : List (Xyz F) → RigidTransform F → List (Xyz F)
    transform_and_filter_points [] transform = []
    transform_and_filter_points (point ∷ points) transform =
        let rest = transform_and_filter_points points transform in
        let transformed = apply_transform point transform in
        if is_obstacle_candidate transformed then transformed ∷ rest else rest

-- What the node publishes: the header and the points that `create_cloud_xyz32` is given.
pub record CandidateCloud (F : Type 0) : Type 0 where
  pub header : Header
  pub points : List (Xyz F)

pub record CandidateNode (F : Type 0) : Type 0 where
  pub published : List (CandidateCloud F)

module _ {F : Type 0} ⦃fl : Float F⦄ ⦃m : Trig F⦄ where
  -- `read_points`; `none` is one of the errors that the node catches
  module _ (read_points : PointCloud2 → Option (List (Xyz F))) where
    abbrev publish_candidates :
        RigidTransform F → PointCloud2 → Option (List (Xyz F)) → CandidateNode F → CandidateNode F
    publish_candidates transform message none n = n
    publish_candidates transform message (some points) n = record n {
      published =
          record {
            header = record { stamp = message.header.stamp; frame_id = "base" };
            points = transform_and_filter_points points transform;
          }
          ∷ n.published;
    }

    -- `lookup` is the TF buffer: target frame, source frame and time
    unfoldable pub on_candidate_cloud :
        (String → String → Stamp → Lookup (RigidTransform F))
        → PointCloud2
        → CandidateNode F
        → CandidateNode F
    on_candidate_cloud lookup message n =
        if not (str_eq message.header.frame_id "utlidar_lidar")
        then n
        else elim (lookup "base" message.header.frame_id message.header.stamp) [
          | transform_exception text ↦ n
          | found transform ↦ publish_candidates transform message (read_points message) n
        ]
