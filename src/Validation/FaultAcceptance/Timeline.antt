-- ===== src/Validation/FaultAcceptance/Timeline.antt =====
-- The fixture's own timelines under the verdict.
use go2_local_navigation.Prelude.{
  ◌≡◌, refl, sym, ◌∙◌, String, true, false, none, List, [], ok, ◌==◌, arith,
}
use mathlib.Core.Path.{subst}
use go2_local_navigation.Prelude.Int.{ℤ, pos, leb_ℤ, ◌-ℤ◌, ◌+ℤ◌, ◌<ℤ◌, +ℤ_parts, -ℤ_parts}
use go2_local_navigation.Prelude.Text.{str_eq, str_eq_iff}
use go2_local_navigation.Validation.FaultFixture.{
  FaultKind, malformed_layout, empty_cloud, nan_cloud, stale_cloud, tf_loss, odom_regression,
  odom_jump, odom_loss, process_exit, launch_failure, FaultScenario, suppressed, recovers,
  chosen_delay, build_attempt_events, FixtureEvent, suppressed_outputs, suppressed_at,
  recovering_events, accepted_delay, events_of-recovering,
}
use go2_local_navigation.Validation.FaultAcceptance.{
  from_scenario, AttemptOutcome, total, evaluate_fault_acceptance, evaluate_kind, evaluate_recovery,
  event_of, common_failure, evaluate_suppression,
}

-- A run that leaves nothing behind, in which the observer saw the outputs that the events declare.
abbrev pub clean_run : List FixtureEvent → AttemptOutcome
clean_run events = record {
  first_exit_code = pos 0;
  restart_exit_code = none;
  events = events;
  global_tf_owner_count = 0;
  residual_nodes = [];
  residual_processes = [];
  sport_request_publishers = 0;
  lowcmd_publishers = 0;
  output_enabled = false;
  physical_validation_approved = false;
}

elapsed_in_time : (at d limit : ℤ) → d <ℤ limit → leb_ℤ limit ((at +ℤ d) -ℤ at) ≡ false
elapsed_in_time at d limit h = ground (arith, +ℤ_parts at d, -ℤ_parts (at +ℤ d) at)

stops_some :
    (kind : FaultKind) → recovers kind ≡ true → (total (suppressed_outputs kind) == 4) ≡ false
unfolding suppressed_outputs
stops_some kind h = ground arith

str_eq_self : (r : String) → str_eq r r ≡ true
str_eq_self r = (str_eq_iff r r).1 refl

suppression_accepts :
    (s : FaultScenario) (d : ℤ)
    → recovers s.fault_kind ≡ true
    → d <ℤ s.recovery_deadline_nanoseconds
    → (evaluate_suppression
        (from_scenario s)
        (clean_run (recovering_events s d))
        (event_of (recovering_events s d) suppressed)).passed
      ≡ true
unfolding evaluate_recovery event_of recovering_events
suppression_accepts s d r h = rw (str_eq_self s.reason_code) (
    rw (stops_some s.fault_kind r)
      (rw (elapsed_in_time suppressed_at d s.recovery_deadline_nanoseconds h) refl))

kind_accepts :
    (kind : FaultKind) (s : FaultScenario) (d : ℤ)
    → recovers kind ≡ true
    → (evaluate_suppression
        (from_scenario s)
        (clean_run (recovering_events s d))
        (event_of (recovering_events s d) suppressed)).passed
      ≡ true
    → (evaluate_kind kind (from_scenario s) (clean_run (recovering_events s d))).passed ≡ true
unfolding evaluate_kind
kind_accepts malformed_layout s d r h = h
kind_accepts empty_cloud s d r h = h
kind_accepts nan_cloud s d r h = h
kind_accepts stale_cloud s d r h = h
kind_accepts tf_loss s d r h = h
kind_accepts odom_regression s d r h = h
kind_accepts odom_jump s d r h = h
kind_accepts odom_loss s d r h = h
kind_accepts process_exit s d r h = cc
kind_accepts launch_failure s d r h = cc

-- The timeline that the fixture plays for a fault from which the same child recovers passes, if the
-- recovery delay is below the deadline, the observer saw the outputs that the timeline declares, and
-- the run left nothing behind.
pub build_attempt_events-passes :
    (s : FaultScenario) (es : List FixtureEvent)
    → recovers s.fault_kind ≡ true
    → build_attempt_events s false none ≡ ok es
    → chosen_delay s.fault_kind none <ℤ s.recovery_deadline_nanoseconds
    → (evaluate_fault_acceptance (from_scenario s) (clean_run es)).passed ≡ true
unfolding evaluate_fault_acceptance common_failure
build_attempt_events-passes s es r built h =
    let d = chosen_delay s.fault_kind none in
    let (_, e) = accepted_delay s false none es built in
    let timeline : recovering_events s d ≡ es =
      sym (events_of-recovering s s.fault_kind false d r) ∙ e in
    subst (λ es. (evaluate_kind s.fault_kind (from_scenario s) (clean_run es)).passed ≡ true)
      timeline (kind_accepts s.fault_kind s d r (suppression_accepts s d r h))
