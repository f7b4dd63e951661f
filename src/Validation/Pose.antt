-- ===== src/Validation/Pose.antt =====
-- Planar poses, and the odometry pose at a stamp, of
-- src/go2_validation/go2_validation/mapping_pose_continuity.py. `math.sin` and `math.cos` raise on an
-- infinite argument, and `** 2` raises when it overflows.
use go2_local_navigation.Prelude.{
  ℕ, zero, suc, Bool, false, not, ◌&&◌, ◌||◌, Option, none, some, List, [], ◌∷◌, Result, ok, err,
  ◌>>=◌, if◌then◌else◌,
}
use go2_local_navigation.Prelude.Int.{ℤ, pos, ltb_ℤ, eqb_ℤ, ◌-ℤ◌}
use go2_local_navigation.Prelude.Float.{Float, Trig}
use go2_local_navigation.Estimation.Contract.{Xyz, Xyzw, xyz_is_finite, xyzw_is_finite}
use go2_local_navigation.Validation.TfContinuity.{norm, yaw_of}

pub data PoseError : Type 0 where
  value_error overflow_error : PoseError

pub record PlanarPose (F : Type 0) : Type 0 where
  pub x_m : F
  pub y_m : F
  pub yaw_rad : F

pub record TimedPlanarPose (F : Type 0) : Type 0 where
  pub stamp_ns : ℤ
  pub pose : PlanarPose F

abbrev pub odometry_alignment_tolerance_ns : ℤ
odometry_alignment_tolerance_ns = pos 50000000

module _ {F : Type 0} where
  -- `bisect_left` on the stamps, which are in order
  unfoldable pub bisect_left : List (TimedPlanarPose F) → ℤ → ℕ
  bisect_left [] stamp = 0
  bisect_left (p ∷ ps) stamp =
      let rest = bisect_left ps stamp in if ltb_ℤ p.stamp_ns stamp then suc rest else 0

  -- `list.insert`
  unfoldable pub insert_at :
      ℕ → TimedPlanarPose F → List (TimedPlanarPose F) → List (TimedPlanarPose F)
  insert_at zero x xs = x ∷ xs
  insert_at (suc n) x [] = x ∷ []
  insert_at (suc n) x (y ∷ ys) = y ∷ insert_at n x ys

  abbrev pub get_elem? : List (TimedPlanarPose F) → ℕ → Option (TimedPlanarPose F)
  get_elem? [] n = none
  get_elem? (x ∷ xs) zero = some x
  get_elem? (x ∷ xs) (suc n) = get_elem? xs n

  -- the element before an index that is not 0
  abbrev pub before_index : List (TimedPlanarPose F) → ℕ → Option (TimedPlanarPose F)
  before_index xs zero = none
  before_index xs (suc n) = get_elem? xs n

module _ {F : Type 0} ⦃fl : Float F⦄ ⦃m : Trig F⦄ where
  abbrev lost_pose : PlanarPose F
  lost_pose = record { x_m = m.inf; y_m = m.inf; yaw_rad = m.inf }

  unfoldable pub planar_pose : Xyz F → Xyzw F → PlanarPose F
  planar_pose translation quaternion =
      if not (xyz_is_finite translation && xyzw_is_finite quaternion)
      then lost_pose
      else if fl.eq (norm quaternion) fl.nought
      then lost_pose
      else record { x_m = translation.x; y_m = translation.y; yaw_rad = yaw_of quaternion }

  abbrev is_infinite : F → Bool
  is_infinite x = fl.eq x m.inf || fl.eq x (fl.neg m.inf)

  abbrev pub math_sin : F → Result PoseError F
  math_sin x = if is_infinite x then err value_error else ok (m.sin x)

  abbrev pub math_cos : F → Result PoseError F
  math_cos x = if is_infinite x then err value_error else ok (m.cos x)

  abbrev pub square : F → Result PoseError F
  square x =
      if fl.is_finite x && not (fl.is_finite (fl.mul x x))
      then err overflow_error
      else ok (fl.mul x x)

  unfoldable pub compose : PlanarPose F → PlanarPose F → Result PoseError (PlanarPose F)
  compose map_to_odom odom_to_base = math_cos map_to_odom.yaw_rad >>= λ cosine.
      math_sin map_to_odom.yaw_rad >>= λ sine. ok (record {
        x_m =
            fl.sub (fl.add map_to_odom.x_m (fl.mul cosine odom_to_base.x_m))
              (fl.mul sine odom_to_base.y_m);
        y_m =
            fl.add (fl.add map_to_odom.y_m (fl.mul sine odom_to_base.x_m))
              (fl.mul cosine odom_to_base.y_m);
        yaw_rad = fl.add map_to_odom.yaw_rad odom_to_base.yaw_rad;
      })

  unfoldable pub interpolate :
      TimedPlanarPose F → TimedPlanarPose F → ℤ → Result PoseError (PlanarPose F)
  interpolate before after stamp =
      let ratio = fl.ratio (stamp -ℤ before.stamp_ns) (after.stamp_ns -ℤ before.stamp_ns) in
      let turn = fl.sub after.pose.yaw_rad before.pose.yaw_rad in
      math_sin turn >>= λ sine. math_cos turn >>= λ cosine.
      let yaw_delta = m.atan2 sine cosine in
      ok (record {
        x_m = fl.add before.pose.x_m (fl.mul ratio (fl.sub after.pose.x_m before.pose.x_m));
        y_m = fl.add before.pose.y_m (fl.mul ratio (fl.sub after.pose.y_m before.pose.y_m));
        yaw_rad = fl.add before.pose.yaw_rad (fl.mul ratio yaw_delta);
      })

  unfoldable pub shortest_yaw_step : F → F → Result PoseError F
  shortest_yaw_step current previous = math_sin (fl.sub current previous) >>= λ sine.
      math_cos (fl.sub current previous) >>= λ cosine. ok (m.fabs (m.atan2 sine cosine))

  between :
      Option (TimedPlanarPose F)
      → Option (TimedPlanarPose F)
      → ℤ
      → Result PoseError (Option (PlanarPose F))
  between (some before) (some after) stamp =
      if ltb_ℤ odometry_alignment_tolerance_ns (stamp -ℤ before.stamp_ns)
        || ltb_ℤ odometry_alignment_tolerance_ns (after.stamp_ns -ℤ stamp)
      then ok none
      else interpolate before after stamp >>= λ pose. ok (some pose)
  between _ _ stamp = ok none

  abbrev at_stamp : Option (TimedPlanarPose F) → ℤ → Bool
  at_stamp none stamp = false
  at_stamp (some p) stamp = eqb_ℤ p.stamp_ns stamp

  abbrev pose_of : Option (TimedPlanarPose F) → Option (PlanarPose F)
  pose_of none = none
  pose_of (some p) = some p.pose

  unfoldable pub interpolated_odometry :
      List (TimedPlanarPose F) → ℤ → Result PoseError (Option (PlanarPose F))
  unfolding between
  interpolated_odometry odometry effective_stamp =
      let index = bisect_left odometry effective_stamp in
      let after = get_elem? odometry index in
      if at_stamp after effective_stamp
      then ok (pose_of after)
      else between (before_index odometry index) after effective_stamp
