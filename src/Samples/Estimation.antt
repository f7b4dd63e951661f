-- ===== src/Samples/Estimation.antt =====
-- Runs of the odometry adapter, with the limits of
-- src/go2_state_estimation/config/odometry_contract.yaml for a replay.
use go2_local_navigation.Prelude.{ℕ, ◌≡◌, refl, String, true, some, List, [], ◌∷◌, ok, arith}
use go2_local_navigation.Prelude.Int.{◌-ℤ◌, pos}
use go2_local_navigation.Perception.Message.{stamp_nanoseconds}
use go2_local_navigation.Estimation.Profile.{
  required_positive_float, required_positive_int, required_action, profile_of, required_mapping,
  ContinuityProfile, enforce, load_continuity_profile, load_continuity_profile-IsUsable, IsUsable,
}
use go2_local_navigation.Prelude.Document.{
  YamlValue, text, integer, number, mapping, Entries, entry, no_entries,
}
use go2_local_navigation.Estimation.Contract.{
  motion_is_finite, validate_odometry_sample, assess_odometry_adapter, Xyz, Verdict,
  assess_odometry_adapter-Verdict,
}
use go2_local_navigation.Estimation.Continuity.{
  assess_odometry_loss, ContinuityState, advance_continuity, assess_sample_continuity,
}
use go2_local_navigation.Estimation.Continuity.Recovery.{
  fresh-IsCounting, Advances, advance_continuity-Advances, is_valid, view, wait, advance_all,
  advance_all-wait,
}
use go2_local_navigation.Estimation.Adapter.{
  expose, check_loss, Odometry, make_adapter, on_odometry, Call, receive, timer, run_calls,
  sample_of, output_of,
}
use go2_local_navigation.Estimation.Adapter.Outcome.{Outcome, on_odometry-Outcome}
use go2_local_navigation.Estimation.Adapter.Accounting.{IsAccounted, run_calls-IsAccounted}
use go2_local_navigation.Samples.Fixed.{Fixed, fixed_float, fixed_trig}

abbrev profile : ContinuityProfile Fixed
profile = record {
  profile_id = "replay";
  action = enforce;
  max_timestamp_gap_nanoseconds = pos 500000000;
  max_translation_delta_m = some (pos 250);
  max_yaw_delta_rad = some (pos 250);
  recovery_consecutive_valid_samples = 3;
}

abbrev zeros : Xyz Fixed
zeros = record { x = some (pos 0); y = some (pos 0); z = some (pos 0) }

-- a robot at `x` millimetres, at `t` tenths of a second
abbrev odometry : ℕ → ℕ → Odometry Fixed
odometry x t = record {
  header = record { stamp = record { sec = pos 100; nanosec = t }; frame_id = "odom" };
  child_frame_id = "base_link";
  pose = record {
    position = record { x = some (pos x); y = some (pos 0); z = some (pos 0) };
    orientation = record {
      x = some (pos 0);
      y = some (pos 0);
      z = some (pos 0);
      w = some (pos 1000);
    };
    covariance = [];
  };
  twist = record { linear = zeros; angular = zeros; covariance = [] };
}

-- A jump at the second sample, and three valid ones that follow it.
abbrev calls : List (Call Fixed)
calls =
    receive (odometry 0 100) (pos 1000)
    ∷ receive (odometry 900 200) (pos 1100)
    ∷ receive (odometry 10 300) (pos 1200)
    ∷ receive (odometry 20 400) (pos 1300)
    ∷ timer (pos 1400)
    ∷ receive (odometry 30 500) (pos 1500)
    ∷ receive (record (odometry 30 600) { child_frame_id = "base" }) (pos 1600)
    ∷ timer (pos 2000000000)
    ∷ []

run_outputs :
    (run_calls calls (make_adapter profile)).odometry
    ≡ (output_of (odometry 30 500) ∷ output_of (odometry 0 100) ∷ [])
unfolding run_calls make_adapter check_loss assess_odometry_loss on_odometry assess_odometry_adapter
    validate_odometry_sample stamp_nanoseconds motion_is_finite advance_continuity
    assess_sample_continuity expose ◌-ℤ◌
run_outputs = refl

run_counts : (run_calls calls (make_adapter profile)).rejected_sample_count ≡ 4
unfolding run_calls make_adapter check_loss assess_odometry_loss on_odometry assess_odometry_adapter
    validate_odometry_sample stamp_nanoseconds motion_is_finite advance_continuity
    assess_sample_continuity expose ◌-ℤ◌
run_counts = refl

run_calls-IsAccounted_example : IsAccounted (run_calls calls (make_adapter profile))
run_calls-IsAccounted_example = run_calls-IsAccounted calls profile (omega arith)

abbrev after_fault : ContinuityState Fixed
after_fault = record {
  previous_sample = some (sample_of (odometry 0 100));
  recovery_required = true;
  consecutive_valid_samples = 1;
  last_received_at_nanoseconds = some (pos 1100);
}

advance_all-wait_example :
    view profile (
      advance_all profile
        ((sample_of (odometry 10 300), pos 1200) ∷ (sample_of (odometry 20 400), pos 1300) ∷ [])
        after_fault)
    ≡ wait 0
unfolding advance_continuity assess_sample_continuity motion_is_finite stamp_nanoseconds ◌-ℤ◌
advance_all-wait_example =
    advance_all-wait profile
      ((sample_of (odometry 10 300), pos 1200) ∷ (sample_of (odometry 20 400), pos 1300) ∷ [])
      after_fault 2 (omega arith) (ground arith) refl (refl, (refl, tt))

advance_continuity-Advances_example :
    Advances profile after_fault
      (is_valid (sample_of (odometry 900 300)) after_fault profile)
      (advance_continuity after_fault (sample_of (odometry 900 300)) (pos 1200) profile)
advance_continuity-Advances_example =
    advance_continuity-Advances after_fault (sample_of (odometry 900 300)) (pos 1200) profile
      (omega arith) (ground arith)

assess_odometry_adapter-Verdict_example :
    Verdict (sample_of (odometry 10 300)) (some (pos 100000000200))
assess_odometry_adapter-Verdict_example =
    assess_odometry_adapter-Verdict (sample_of (odometry 10 300)) (some (pos 100000000200))

on_odometry-Outcome_example :
    Outcome
      (odometry 10 300)
      (make_adapter profile)
      (on_odometry (odometry 10 300) (pos 1200) (make_adapter profile))
unfolding make_adapter
on_odometry-Outcome_example =
    on_odometry-Outcome (odometry 10 300) (pos 1200) (make_adapter profile) (omega arith)
      (fresh-IsCounting profile (omega arith))

abbrev nested : List String → Entries Fixed → YamlValue Fixed
nested [] es = mapping es
nested (name ∷ names) es = mapping (entry (text name) (nested names es) no_entries)

abbrev document : YamlValue Fixed
document = nested ("project" ∷ "continuity_profiles" ∷ "profiles" ∷ "replay" ∷ []) (
    entry (text "action") (text "enforce") (
      entry (text "max_timestamp_gap_nanoseconds") (integer (pos 500000000)) (
        entry (text "max_translation_delta_m") (number (some (pos 250))) (
          entry (text "max_yaw_delta_rad") (number (some (pos 250)))
            (entry (text "recovery_consecutive_valid_samples") (integer (pos 3)) no_entries)))))

document_loads : load_continuity_profile document "replay" ≡ ok profile
unfolding load_continuity_profile required_mapping profile_of required_action required_positive_int
    required_positive_float
document_loads = refl

load_continuity_profile-IsUsable_example : IsUsable profile × (profile.profile_id ≡ "replay")
load_continuity_profile-IsUsable_example =
    load_continuity_profile-IsUsable document "replay" profile document_loads
