-- ===== src/Validation/TfContinuity.antt =====
-- src/go2_validation/go2_validation/mapping_tf_continuity.py: the largest steps of a transform.
-- Translations and quaternions are the records of three and four floats.
pub mod Maximum
pub mod Smooth
use go2_local_navigation.Prelude.{
  ℕ, ◌+◌, Bool, true, false, not, ◌&&◌, ◌||◌, Option, none, some, List, [], ◌∷◌, if◌then◌else◌,
}
use go2_local_navigation.Prelude.Int.{ℤ, pos}
use go2_local_navigation.Prelude.Float.{Float, Trig}
use go2_local_navigation.Estimation.Contract.{Xyz, Xyzw, xyz_is_finite, xyzw_is_finite}

pub record MappingTfContinuityObservation (F : Type 0) : Type 0 where
  pub sample_count : ℕ
  pub maximum_translation_step_m : F
  pub maximum_yaw_step_rad : F
  pub translation_exceedance_count : ℕ
  pub yaw_exceedance_count : ℕ
  pub maximum_translation_step_stamp_ns : Option ℤ
  pub maximum_yaw_step_stamp_ns : Option ℤ

-- The accumulator keeps the observation, and the previous sample.
pub record MappingTfContinuityAccumulator (F : Type 0) : Type 0 where
  pub observed : MappingTfContinuityObservation F
  pub previous_translation : Option (Xyz F)
  pub previous_yaw : Option F

module _ {F : Type 0} ⦃fl : Float F⦄ ⦃m : Trig F⦄ where
  -- 0.5 and 0.2
  abbrev pub maximum_translation_step : F
  maximum_translation_step = fl.ratio (pos 5) (pos 10)

  abbrev pub maximum_yaw_step : F
  maximum_yaw_step = fl.ratio (pos 2) (pos 10)

  abbrev pub empty_mapping_tf_continuity_observation : MappingTfContinuityObservation F
  empty_mapping_tf_continuity_observation = record {
    sample_count = 0;
    maximum_translation_step_m = fl.nought;
    maximum_yaw_step_rad = fl.nought;
    translation_exceedance_count = 0;
    yaw_exceedance_count = 0;
    maximum_translation_step_stamp_ns = none;
    maximum_yaw_step_stamp_ns = none;
  }

  abbrev pub make_accumulator : MappingTfContinuityAccumulator F
  make_accumulator = record {
    observed = empty_mapping_tf_continuity_observation;
    previous_translation = none;
    previous_yaw = none;
  }

  -- `sum` starts at 0
  abbrev pub norm : Xyzw F → F
  norm q =
      let squares = fl.add (fl.add fl.nought (fl.mul q.x q.x)) (fl.mul q.y q.y) in
      m.sqrt (fl.add (fl.add squares (fl.mul q.z q.z)) (fl.mul q.w q.w))

  abbrev real : ℕ → F
  real n = fl.ratio (pos n) (pos 1)

  abbrev pub yaw_of : Xyzw F → F
  yaw_of q =
      m.atan2 (fl.mul (real 2) (fl.add (fl.mul q.w q.z) (fl.mul q.x q.y)))
        (fl.sub (real 1) (fl.mul (real 2) (fl.add (fl.mul q.y q.y) (fl.mul q.z q.z))))

  abbrev pub translation_step : Xyz F → Xyz F → F
  translation_step current previous =
      let dx = fl.sub current.x previous.x in
      let dy = fl.sub current.y previous.y in
      let dz = fl.sub current.z previous.z in
      m.sqrt (fl.add (fl.add (fl.add fl.nought (fl.mul dx dx)) (fl.mul dy dy)) (fl.mul dz dz))

  abbrev pub yaw_step : F → F → F
  yaw_step current previous =
      let yaw_delta = fl.sub current previous in
      m.fabs (m.atan2 (m.sin yaw_delta) (m.cos yaw_delta))

  unfoldable pub keep_translation :
      F → Option ℤ → MappingTfContinuityObservation F → MappingTfContinuityObservation F
  keep_translation step stamp o =
      if fl.lt o.maximum_translation_step_m step
      then record o { maximum_translation_step_m = step; maximum_translation_step_stamp_ns = stamp }
      else o

  unfoldable pub keep_yaw :
      F → Option ℤ → MappingTfContinuityObservation F → MappingTfContinuityObservation F
  keep_yaw step stamp o =
      if fl.lt o.maximum_yaw_step_rad step
      then record o { maximum_yaw_step_rad = step; maximum_yaw_step_stamp_ns = stamp }
      else o

  unfoldable pub count_exceedances :
      F → F → MappingTfContinuityObservation F → MappingTfContinuityObservation F
  count_exceedances translation yaw o = record o {
    translation_exceedance_count =
        if fl.lt maximum_translation_step translation
        then o.translation_exceedance_count + 1
        else o.translation_exceedance_count;
    yaw_exceedance_count =
        if fl.lt maximum_yaw_step yaw then o.yaw_exceedance_count + 1 else o.yaw_exceedance_count;
  }

  -- both previous values are there, or neither changes anything
  measure :
      Option (Xyz F)
      → Option F
      → Xyz F
      → F
      → Option ℤ
      → MappingTfContinuityObservation F
      → MappingTfContinuityObservation F
  measure (some t) (some y) translation yaw stamp o =
      let step = translation_step translation t in
      let turn = yaw_step yaw y in
      count_exceedances step turn (keep_yaw turn stamp (keep_translation step stamp o))
  measure _ _ translation yaw stamp o = o

  abbrev pub is_measurable : Xyz F → Xyzw F → Bool
  is_measurable t q = xyz_is_finite t && xyzw_is_finite q && not (fl.eq (norm q) fl.nought)

  unfoldable pub observe :
      Xyz F
      → Xyzw F
      → Option ℤ
      → MappingTfContinuityAccumulator F
      → MappingTfContinuityAccumulator F
  unfolding measure
  observe t q stamp s =
      let counted = record s.observed { sample_count = s.observed.sample_count + 1 } in
      if not (is_measurable t q)
      then record s {
        observed = record counted {
          maximum_translation_step_m = m.inf;
          maximum_yaw_step_rad = m.inf;
        };
      }
      else record {
        observed = measure s.previous_translation s.previous_yaw t (yaw_of q) stamp counted;
        previous_translation = some t;
        previous_yaw = some (yaw_of q);
      }

  -- `observation`
  abbrev pub observation : MappingTfContinuityAccumulator F → MappingTfContinuityObservation F
  observation s = s.observed
