-- ===== src/Estimation/Continuity.antt =====
-- Continuity of a stream of odometry samples and its recovery after a fault, of
-- src/go2_state_estimation/go2_state_estimation/odometry_contract.py.
pub mod Recovery
use go2_local_navigation.Prelude.{
  ℕ, ◌+◌, Bool, true, false, not, ◌||◌, Option, none, some, List, [], ◌∷◌, leb, if◌then◌else◌,
}
use go2_local_navigation.Prelude.Int.{ℤ, pos, ltb_ℤ, ◌-ℤ◌}
use go2_local_navigation.Prelude.Float.{Float, Trig}
use go2_local_navigation.Estimation.Profile.{ContinuityProfile, suppresses_continuity_failure}
use go2_local_navigation.Estimation.Contract.{Xyz, Xyzw, OdometrySample, motion_is_finite}

pub data ReasonCode : Type 0 where
  nonfinite_odometry timestamp_regression stale_odometry : ReasonCode
  translation_jump yaw_jump recovery_pending : ReasonCode

pub record ContinuityAssessment : Type 0 where
  pub publish : Bool
  pub reason_code : Option ReasonCode
  pub continuity_valid : Bool

pub record ContinuityState (F : Type 0) : Type 0 where
  pub previous_sample : Option (OdometrySample F)
  pub recovery_required : Bool
  pub consecutive_valid_samples : ℕ
  pub last_received_at_nanoseconds : Option ℤ

-- `ContinuityState()`
abbrev pub fresh_state : {F : Type 0} → ContinuityState F
fresh_state = record {
  previous_sample = none;
  recovery_required = false;
  consecutive_valid_samples = 0;
  last_received_at_nanoseconds = none;
}

pub record ContinuityTransition (F : Type 0) : Type 0 where
  pub state : ContinuityState F
  pub assessment : ContinuityAssessment

abbrev pub raw_assessment : Bool → Option ReasonCode → ContinuityAssessment
raw_assessment valid reason = record {
  publish = valid;
  reason_code = reason;
  continuity_valid = valid;
}

abbrev pub output_assessment :
    {F : Type 0} → ContinuityProfile F → Bool → Option ReasonCode → ContinuityAssessment
output_assessment profile valid reason = record {
  publish = valid || not (suppresses_continuity_failure profile);
  reason_code = reason;
  continuity_valid = valid;
}

abbrev pub is_stale : ReasonCode → Bool
is_stale stale_odometry = true
is_stale _ = false

module _ {F : Type 0} ⦃fl : Float F⦄ ⦃m : Trig F⦄ where
  abbrev real : ℕ → F
  real n = fl.ratio (pos n) (pos 1)

  abbrev pub yaw : Xyzw F → F
  yaw q =
      m.atan2 (fl.mul (real 2) (fl.add (fl.mul q.w q.z) (fl.mul q.x q.y)))
        (fl.sub (real 1) (fl.mul (real 2) (fl.add (fl.mul q.y q.y) (fl.mul q.z q.z))))

  abbrev pub yaw_delta : Xyzw F → Xyzw F → F
  yaw_delta current previous =
      let difference = fl.sub (yaw current) (yaw previous) in
      m.fabs (m.atan2 (m.sin difference) (m.cos difference))

  abbrev coordinates : Xyz F → List F
  coordinates v = v.x ∷ v.y ∷ v.z ∷ []

  -- the tests after the first sample, in the order of the code
  unfoldable pub assess_pair :
      OdometrySample F → OdometrySample F → ContinuityProfile F → ContinuityAssessment
  assess_pair sample previous profile =
      if ltb_ℤ sample.timestamp_nanoseconds previous.timestamp_nanoseconds
      then raw_assessment false (some timestamp_regression)
      else if ltb_ℤ profile.max_timestamp_gap_nanoseconds
          (sample.timestamp_nanoseconds -ℤ previous.timestamp_nanoseconds)
      then raw_assessment false (some stale_odometry)
      else if fl.lt profile.max_translation_delta_m
          (m.dist (coordinates sample.position_xyz) (coordinates previous.position_xyz))
      then raw_assessment false (some translation_jump)
      else if fl.lt profile.max_yaw_delta_rad
          (yaw_delta sample.orientation_xyzw previous.orientation_xyzw)
      then raw_assessment false (some yaw_jump)
      else raw_assessment true none

  unfoldable pub assess_sample_continuity :
      OdometrySample F → Option (OdometrySample F) → ContinuityProfile F → ContinuityAssessment
  unfolding assess_pair
  assess_sample_continuity sample previous profile =
      if not (motion_is_finite sample)
      then raw_assessment false (some nonfinite_odometry)
      else elim previous [ none ↦ raw_assessment true none | some p ↦ assess_pair sample p profile ]

  -- A sample that failed: the next one is compared with it only if it failed by its age.
  faulted :
      ReasonCode
      → ContinuityState F
      → OdometrySample F
      → ℤ
      → ContinuityProfile F
      → ContinuityTransition F
  faulted reason state sample observed_at profile = record {
    state = record {
      previous_sample = if is_stale reason then some sample else state.previous_sample;
      recovery_required = true;
      consecutive_valid_samples = 0;
      last_received_at_nanoseconds = some observed_at;
    };
    assessment = output_assessment profile false (some reason);
  }

  passed : ContinuityState F → OdometrySample F → ℤ → ContinuityProfile F → ContinuityTransition F
  passed state sample observed_at profile =
      if not state.recovery_required
      then record {
        state = record {
          previous_sample = some sample;
          recovery_required = false;
          consecutive_valid_samples = 0;
          last_received_at_nanoseconds = some observed_at;
        };
        assessment = output_assessment profile true none;
      }
      else let valid_samples = state.consecutive_valid_samples + 1 in
        let recovered = leb profile.recovery_consecutive_valid_samples valid_samples in
        record {
          state = record {
            previous_sample = some sample;
            recovery_required = not recovered;
            consecutive_valid_samples = if recovered then 0 else valid_samples;
            last_received_at_nanoseconds = some observed_at;
          };
          assessment =
              if recovered
              then output_assessment profile true none
              else output_assessment profile false (some recovery_pending);
        }

  unfoldable pub advance_continuity :
      ContinuityState F → OdometrySample F → ℤ → ContinuityProfile F → ContinuityTransition F
  unfolding faulted passed
  advance_continuity state sample observed_at profile =
      elim (assess_sample_continuity sample state.previous_sample profile).reason_code [
        | some reason ↦ faulted reason state sample observed_at profile
        | none ↦ passed state sample observed_at profile
      ]

-- the age of the last sample is past the timeout
abbrev pub overdue : {F : Type 0} → Option ℤ → ℤ → ContinuityProfile F → Bool
overdue none observed_at profile = false
overdue (some t) observed_at profile =
    ltb_ℤ profile.max_timestamp_gap_nanoseconds (observed_at -ℤ t)

unfoldable pub assess_odometry_loss :
    {F : Type 0} → ContinuityState F → ℤ → ContinuityProfile F → ContinuityAssessment
assess_odometry_loss state observed_at profile =
    if overdue state.last_received_at_nanoseconds observed_at profile
    then output_assessment profile false (some stale_odometry)
    else output_assessment profile true none

unfoldable pub mark_odometry_loss : {F : Type 0} → ContinuityState F → ContinuityState F
mark_odometry_loss state = record state {
  previous_sample = none;
  recovery_required = true;
  consecutive_valid_samples = 0;
}
