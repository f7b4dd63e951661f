-- ===== src/Validation/PoseContinuity.antt =====
-- src/go2_validation/go2_validation/mapping_pose_continuity.py: how far each correction of
-- `map -> odom` moves the robot's pose. A call that raises keeps the writes made before.
pub mod Counts
use go2_local_navigation.Prelude.{
  ℕ, zero, suc, ◌+◌, Bool, true, false, not, ◌&&◌, ◌||◌, Option, none, some, List, [], ◌∷◌, Result,
  ok, err, ◌>>=◌, if◌then◌else◌,
}
use go2_local_navigation.Prelude.Int.{ℤ, pos, ltb_ℤ, eqb_ℤ, ◌-ℤ◌}
use go2_local_navigation.Prelude.Float.{Float, Trig}
use go2_local_navigation.Estimation.Contract.{Xyz, Xyzw, xyz_is_finite, xyzw_is_finite}
use go2_local_navigation.Validation.TfContinuity.{maximum_translation_step, maximum_yaw_step}
use go2_local_navigation.Validation.Pose.{
  PoseError, PlanarPose, TimedPlanarPose, bisect_left, insert_at, planar_pose, square, compose,
  shortest_yaw_step, interpolated_odometry,
}

pub record MappingCorrectionContinuityObservation (F : Type 0) : Type 0 where
  pub sample_count : ℕ
  pub maximum_translation_step_m : F
  pub maximum_yaw_step_rad : F
  pub translation_exceedance_count : ℕ
  pub yaw_exceedance_count : ℕ
  pub unaligned_sample_count : ℕ
  pub duplicate_stamp_count : ℕ
  pub regressive_stamp_count : ℕ
  pub maximum_translation_step_published_stamp_ns : Option ℤ
  pub maximum_translation_step_effective_stamp_ns : Option ℤ
  pub maximum_yaw_step_published_stamp_ns : Option ℤ
  pub maximum_yaw_step_effective_stamp_ns : Option ℤ

-- The accumulator keeps the observation with what it needs of the past.
pub record MapCorrectionContinuityAccumulator (F : Type 0) : Type 0 where
  pub odometry : List (TimedPlanarPose F)
  pub previous_map_to_odom : Option (PlanarPose F)
  pub last_received_effective_stamp_ns : Option ℤ
  pub observed : MappingCorrectionContinuityObservation F

abbrev pub slam_transform_timeout_ns : ℤ
slam_transform_timeout_ns = pos 200000000

abbrev same_stamp : Option ℤ → ℤ → Bool
same_stamp none stamp = false
same_stamp (some last) stamp = eqb_ℤ last stamp

abbrev is_earlier : Option ℤ → ℤ → Bool
is_earlier none stamp = false
is_earlier (some last) stamp = ltb_ℤ stamp last

-- the new state, and what the call raised
abbrev pub Outcome : Type 0 → Type 0
Outcome F = MapCorrectionContinuityAccumulator F × Option PoseError

module _ {F : Type 0} ⦃fl : Float F⦄ ⦃m : Trig F⦄ where
  abbrev pub empty_observation : MappingCorrectionContinuityObservation F
  empty_observation = record {
    sample_count = 0;
    maximum_translation_step_m = fl.nought;
    maximum_yaw_step_rad = fl.nought;
    translation_exceedance_count = 0;
    yaw_exceedance_count = 0;
    unaligned_sample_count = 0;
    duplicate_stamp_count = 0;
    regressive_stamp_count = 0;
    maximum_translation_step_published_stamp_ns = none;
    maximum_translation_step_effective_stamp_ns = none;
    maximum_yaw_step_published_stamp_ns = none;
    maximum_yaw_step_effective_stamp_ns = none;
  }

  abbrev pub make_pose_accumulator : MapCorrectionContinuityAccumulator F
  make_pose_accumulator = record {
    odometry = [];
    previous_map_to_odom = none;
    last_received_effective_stamp_ns = none;
    observed = empty_observation;
  }

  unfoldable pub record_steps :
      F
      → F
      → ℤ
      → ℤ
      → MappingCorrectionContinuityObservation F
      → MappingCorrectionContinuityObservation F
  record_steps translation yaw published effective o =
      let longer = fl.lt o.maximum_translation_step_m translation in
      let wider = fl.lt o.maximum_yaw_step_rad yaw in
      record o {
        sample_count = o.sample_count + 1;
        maximum_translation_step_m = if longer then translation else o.maximum_translation_step_m;
        maximum_translation_step_published_stamp_ns =
            if longer then some published else o.maximum_translation_step_published_stamp_ns;
        maximum_translation_step_effective_stamp_ns =
            if longer then some effective else o.maximum_translation_step_effective_stamp_ns;
        maximum_yaw_step_rad = if wider then yaw else o.maximum_yaw_step_rad;
        maximum_yaw_step_published_stamp_ns =
            if wider then some published else o.maximum_yaw_step_published_stamp_ns;
        maximum_yaw_step_effective_stamp_ns =
            if wider then some effective else o.maximum_yaw_step_effective_stamp_ns;
        translation_exceedance_count =
            if fl.lt maximum_translation_step translation
            then o.translation_exceedance_count + 1
            else o.translation_exceedance_count;
        yaw_exceedance_count =
            if fl.lt maximum_yaw_step yaw
            then o.yaw_exceedance_count + 1
            else o.yaw_exceedance_count;
      }

  -- the two steps of `_observe_correction`
  unfoldable pub correction_steps :
      PlanarPose F → PlanarPose F → PlanarPose F → Result PoseError (F × F)
  correction_steps previous current odom_to_base = compose previous odom_to_base >>= λ before.
      compose current odom_to_base >>= λ after. square (fl.sub after.x_m before.x_m) >>= λ xx.
      square (fl.sub after.y_m before.y_m) >>= λ yy.
      shortest_yaw_step after.yaw_rad before.yaw_rad >>= λ yaw_step.
      ok (m.sqrt (fl.add xx yy), yaw_step)

  unfoldable pub observe_odometry :
      Xyz F
      → Xyzw F
      → ℤ
      → MapCorrectionContinuityAccumulator F
      → MapCorrectionContinuityAccumulator F
  observe_odometry translation quaternion stamp s =
      let index = bisect_left s.odometry stamp in
      let sample : TimedPlanarPose F = record {
        stamp_ns = stamp;
        pose = planar_pose translation quaternion;
      } in
      record s { odometry = insert_at index sample s.odometry }

  abbrev pose_eq : PlanarPose F → PlanarPose F → Bool
  pose_eq a b = fl.eq a.x_m b.x_m && fl.eq a.y_m b.y_m && fl.eq a.yaw_rad b.yaw_rad

  abbrev same_pose : Option (PlanarPose F) → PlanarPose F → Bool
  same_pose none current = false
  same_pose (some previous) current = pose_eq previous current

  corrected :
      Result PoseError (F × F)
      → PlanarPose F
      → ℤ
      → ℤ
      → MapCorrectionContinuityAccumulator F
      → Outcome F
  corrected (err e) current published effective s = (s, some e)
  corrected (ok (translation, yaw)) current published effective s = (
    record s {
      observed = record_steps translation yaw published effective s.observed;
      previous_map_to_odom = some current;
    },
    none,
  )

  aligned :
      Result PoseError (Option (PlanarPose F))
      → PlanarPose F
      → PlanarPose F
      → ℤ
      → ℤ
      → MapCorrectionContinuityAccumulator F
      → Outcome F
  unfolding corrected
  aligned (err e) previous current published effective s = (s, some e)
  aligned (ok none) previous current published effective s =
      let count = s.observed.unaligned_sample_count + 1 in
      (record s { observed = record s.observed { unaligned_sample_count = count } }, none)
  aligned (ok (some odom_to_base)) previous current published effective s =
      corrected (correction_steps previous current odom_to_base) current published effective s

  compared :
      Option (PlanarPose F)
      → PlanarPose F
      → ℤ
      → ℤ
      → MapCorrectionContinuityAccumulator F
      → Outcome F
  unfolding aligned
  compared none current published effective s =
      (record s { previous_map_to_odom = some current }, none)
  compared (some previous) current published effective s =
      aligned (interpolated_odometry s.odometry effective) previous current published effective s

  unfoldable pub observe_map_to_odom :
      Xyz F → Xyzw F → ℤ → MapCorrectionContinuityAccumulator F → Outcome F
  unfolding compared
  observe_map_to_odom translation quaternion published s =
      let effective = published -ℤ slam_transform_timeout_ns in
      let current = planar_pose translation quaternion in
      let o = s.observed in
      if same_stamp s.last_received_effective_stamp_ns effective
        && same_pose s.previous_map_to_odom current
      then (
        record s { observed = record o { duplicate_stamp_count = o.duplicate_stamp_count + 1 } },
        none,
      )
      else if is_earlier s.last_received_effective_stamp_ns effective
      then (
        record s { observed = record o { regressive_stamp_count = o.regressive_stamp_count + 1 } },
        none,
      )
      else compared s.previous_map_to_odom current published effective
          (record s { last_received_effective_stamp_ns = some effective })
