-- ===== src/Validation/FaultAcceptance.antt =====
-- src/go2_validation/go2_validation/fault_acceptance_runner.py: the verdict on one fault scenario,
-- from what the runner observed while it owned the launch.
pub mod Accepted
pub mod Timeline
use go2_local_navigation.Prelude.{
  ℕ, ◌+◌, String, Bool, true, false, not, ◌&&◌, ◌||◌, Option, none, some, List, [], ◌∷◌, is_empty,
  ◌==◌, if◌then◌else◌,
}
use go2_local_navigation.Prelude.Int.{ℤ, pos, leb_ℤ, eqb_ℤ, ◌-ℤ◌}
use go2_local_navigation.Prelude.Text.{str_eq}
use go2_local_navigation.Validation.FaultFixture.{
  FaultKind, process_exit, launch_failure, FaultScenario, FixturePhase, baseline, suppressed,
  recovered, owned_child_exit, FixtureEvent, OutputCounts, captured_streams,
  expected_child_exit_code,
}

abbrev pub required_streams : List String
required_streams = "validated_cloud" ∷ "scan" ∷ "odom" ∷ "tf" ∷ []

pub record FaultExpectation : Type 0 where
  pub scenario_id : String
  pub fault_kind : FaultKind
  pub reason_code : String
  pub recovery_deadline_nanoseconds : ℤ

abbrev pub from_scenario : FaultScenario → FaultExpectation
from_scenario s = record {
  scenario_id = s.scenario_id;
  fault_kind = s.fault_kind;
  reason_code = s.reason_code;
  recovery_deadline_nanoseconds = s.recovery_deadline_nanoseconds;
}

pub record AttemptOutcome : Type 0 where
  pub first_exit_code : ℤ
  pub restart_exit_code : Option ℤ
  pub events : List FixtureEvent
  pub global_tf_owner_count : ℕ
  pub residual_nodes : List String
  pub residual_processes : List String
  pub sport_request_publishers : ℕ
  pub lowcmd_publishers : ℕ
  pub output_enabled : Bool
  pub physical_validation_approved : Bool

pub record FaultAcceptanceResult : Type 0 where
  pub scenario_id : String
  pub passed : Bool
  pub reason_code : Option String
  pub expected_child_failure : Bool
  pub captured : List String
  pub recovery_elapsed_nanoseconds : Option ℤ

abbrev pub failed : FaultExpectation → String → FaultAcceptanceResult
failed e reason = record {
  scenario_id = e.scenario_id;
  passed = false;
  reason_code = some reason;
  expected_child_failure = false;
  captured = [];
  recovery_elapsed_nanoseconds = none;
}

abbrev pub passed_with : FaultExpectation → Bool → List String → Option ℤ → FaultAcceptanceResult
passed_with e child_failure streams elapsed = record {
  scenario_id = e.scenario_id;
  passed = true;
  reason_code = none;
  expected_child_failure = child_failure;
  captured = streams;
  recovery_elapsed_nanoseconds = elapsed;
}

unfoldable pub common_failure : AttemptOutcome → Option String
common_failure o =
    if not (o.global_tf_owner_count == 0)
    then some "global_tf_owner_present"
    else if not (is_empty o.residual_nodes) || not (is_empty o.residual_processes)
    then some "residual_graph_or_process"
    else if not (o.sport_request_publishers == 0) || not (o.lowcmd_publishers == 0)
    then some "command_publisher_present"
    else if o.output_enabled || o.physical_validation_approved
    then some "motion_gate_open"
    else none

abbrev pub phase_eq : FixturePhase → FixturePhase → Bool
phase_eq baseline baseline = true
phase_eq suppressed suppressed = true
phase_eq recovered recovered = true
phase_eq owned_child_exit owned_child_exit = true
phase_eq _ _ = false

-- the first event of a phase
unfoldable pub event_of : List FixtureEvent → FixturePhase → Option FixtureEvent
event_of [] phase = none
event_of (e ∷ es) phase =
    let rest = event_of es phase in if phase_eq e.phase phase then some e else rest

abbrev pub names_eq : List String → List String → Bool
names_eq [] [] = true
names_eq (a ∷ s) (b ∷ t) = str_eq a b && names_eq s t
names_eq _ _ = false

abbrev pub reason_is : Option String → String → Bool
reason_is none reason = false
reason_is (some r) reason = str_eq r reason

abbrev pub code_is : Option ℤ → ℤ → Bool
code_is none code = false
code_is (some c) code = eqb_ℤ c code

-- `output_counts.total`
abbrev pub total : OutputCounts → ℕ
total c = c.validated_cloud + c.scan + c.odom + c.tf

unfoldable pub evaluate_launch_failure : FaultExpectation → AttemptOutcome → FaultAcceptanceResult
unfolding expected_child_exit_code
evaluate_launch_failure e o =
    if not (eqb_ℤ o.first_exit_code (pos (expected_child_exit_code e.fault_kind)))
    then failed e "launch_failure_oracle_mismatch"
    else passed_with e true [] none

unfoldable pub evaluate_recovery :
    FaultExpectation → FixtureEvent → Option FixtureEvent → FaultAcceptanceResult
evaluate_recovery e stop none = failed e "recovery_output_missing"
evaluate_recovery e stop (some back) =
    let elapsed = back.clock_nanoseconds -ℤ stop.clock_nanoseconds in
    if not (names_eq (captured_streams back.output_counts) required_streams)
    then failed e "recovery_output_missing"
    else if leb_ℤ e.recovery_deadline_nanoseconds elapsed
    then failed e "recovery_deadline_exceeded"
    else passed_with e false required_streams (some elapsed)

abbrev pub exit_missing : ℤ → Option FixtureEvent → Bool
exit_missing code none = true
exit_missing code (some exited) = not (code_is exited.child_exit_code code)

unfoldable pub evaluate_restart :
    FaultExpectation → AttemptOutcome → FixtureEvent → FaultAcceptanceResult
evaluate_restart e o stop =
    let code = pos (expected_child_exit_code e.fault_kind) in
    if exit_missing code (event_of o.events owned_child_exit)
    then failed e "owned_process_exit_missing"
    else if not (eqb_ℤ o.first_exit_code code)
    then failed e "owned_process_exit_oracle_mismatch"
    else if not (code_is o.restart_exit_code (pos 0))
    then failed e "owned_process_restart_failed"
    else evaluate_recovery e stop (event_of o.events recovered)

abbrev pub evaluate_exit :
    FaultExpectation → AttemptOutcome → Option FixtureEvent → FaultAcceptanceResult
evaluate_exit e o none = failed e "fault_reason_mismatch"
evaluate_exit e o (some stop) =
    if reason_is stop.reason_code e.reason_code
    then evaluate_restart e o stop
    else failed e "fault_reason_mismatch"

abbrev pub evaluate_suppression :
    FaultExpectation → AttemptOutcome → Option FixtureEvent → FaultAcceptanceResult
evaluate_suppression e o none = failed e "fault_reason_mismatch"
evaluate_suppression e o (some stop) =
    if not (reason_is stop.reason_code e.reason_code)
    then failed e "fault_reason_mismatch"
    else if total stop.output_counts == 4
    then failed e "suppression_missing"
    else evaluate_recovery e stop (event_of o.events recovered)

unfoldable pub evaluate_kind : FaultKind → FaultExpectation → AttemptOutcome → FaultAcceptanceResult
evaluate_kind launch_failure e o = evaluate_launch_failure e o
evaluate_kind process_exit e o = evaluate_exit e o (event_of o.events suppressed)
evaluate_kind _ e o =
    if not (eqb_ℤ o.first_exit_code (pos 0))
    then failed e "unexpected_child_exit"
    else evaluate_suppression e o (event_of o.events suppressed)

abbrev pub verdict_after : Option String → FaultExpectation → AttemptOutcome → FaultAcceptanceResult
verdict_after (some reason) e o = failed e reason
verdict_after none e o = evaluate_kind e.fault_kind e o

unfoldable pub evaluate_fault_acceptance : FaultExpectation → AttemptOutcome → FaultAcceptanceResult
evaluate_fault_acceptance e o = verdict_after (common_failure o) e o
