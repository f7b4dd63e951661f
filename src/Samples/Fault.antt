-- ===== src/Samples/Fault.antt =====
-- Runs of the fault scenarios: the configured ones, the fixture, the gate and the verdict.
use go2_local_navigation.Prelude.{
  ℕ, ◌≡◌, refl, String, true, false, Option, none, some, List, [], ◌∷◌, All, ok, arith,
}
use go2_local_navigation.Prelude.Int.{◌-ℤ◌, pos, ◌<ℤ◌}
use go2_local_navigation.Prelude.Document.{
  YamlValue, integer, text, sequence, mapping, no_values, value, Entries, no_entries, entry,
}
use go2_local_navigation.Perception.Message.{PointCloud2}
use go2_local_navigation.Perception.Gate.{GateNode, on_cloud}
use go2_local_navigation.Bringup.FaultContract
use go2_local_navigation.Bringup.FaultContract.{load_fault_scenarios}
use go2_local_navigation.Bringup.FaultContract.Complete.{
  IsComplete, Distinct, load_fault_scenarios-IsComplete,
}
use go2_local_navigation.Validation.FaultFixture.{
  expected_child_exit_code, events_of, nan_cloud, odom_jump, process_exit, FaultScenario,
  FixtureEvent, baseline_clock, suppressed_at, build_attempt_events, process_exit_events,
  recovering_events, suppressed, recovered, owned_child_exit, all_outputs, no_outputs,
}
use go2_local_navigation.Validation.FaultAcceptance.{
  evaluate_recovery, evaluate_restart, event_of, evaluate_kind, common_failure, from_scenario,
  AttemptOutcome, evaluate_fault_acceptance,
}
use go2_local_navigation.Validation.FaultAcceptance.Accepted.{
  IsSafe, Lifecycle, evaluate_fault_acceptance-IsSafe,
}
use go2_local_navigation.Validation.FaultAcceptance.Timeline.{
  clean_run, build_attempt_events-passes,
}
use go2_local_navigation.Validation.FaultCapture.{parse_fixture_event}
use go2_local_navigation.Validation.FaultCapture.RoundTrip.{
  event_document, event_json, marker_for, parse-event_json,
}
use go2_local_navigation.Validation.FixtureNode.{
  FixtureNode, make_fixture, with_events, fault_cloud, ticks,
}
use go2_local_navigation.Validation.FixtureNode.Ends.{IsEnded, max_ticks, ticks_end}
use go2_local_navigation.Validation.FixtureNode.Gate.{nan, fault_cloud-suppressed}
use go2_local_navigation.Samples.Fixed.{Fixed}

abbrev jump : FaultScenario
jump = record {
  scenario_id = "odometry-jump";
  fault_kind = odom_jump;
  reason_code = "ODOMETRY_JUMP";
  recovery_deadline_nanoseconds = pos 1000000000;
}

jump_events : build_attempt_events jump false none ≡ ok (recovering_events jump (pos 400000000))
unfolding build_attempt_events recovering_events events_of
jump_events = refl

jump_in_time : pos 400000000 <ℤ pos 1000000000
jump_in_time = ground arith

build_attempt_events-passes_example :
    (evaluate_fault_acceptance
      (from_scenario jump)
      (clean_run (recovering_events jump (pos 400000000)))).passed
    ≡ true
build_attempt_events-passes_example =
    build_attempt_events-passes jump (recovering_events jump (pos 400000000)) refl jump_events
      jump_in_time

-- A child that exits with its code, and recovers after it is started again.
abbrev exit : FaultScenario
exit = record jump {
  scenario_id = "process-exit";
  fault_kind = process_exit;
  reason_code = "PROCESS_EXIT";
}

abbrev back : FixtureEvent
back = record {
  phase = recovered;
  clock_nanoseconds = pos 10800000000;
  output_counts = all_outputs;
  reason_code = none;
  child_exit_code = none;
}

abbrev stop : FixtureEvent
stop = record {
  phase = suppressed;
  clock_nanoseconds = pos 10100000000;
  output_counts = no_outputs;
  reason_code = some "PROCESS_EXIT";
  child_exit_code = none;
}

abbrev exited : FixtureEvent
exited = record stop { phase = owned_child_exit; child_exit_code = some (pos 75) }

abbrev exit_run : AttemptOutcome
exit_run = record (clean_run (stop ∷ exited ∷ back ∷ [])) {
  first_exit_code = pos 75;
  restart_exit_code = some (pos 0);
}

exit_passes : (evaluate_fault_acceptance (from_scenario exit) exit_run).passed ≡ true
unfolding evaluate_fault_acceptance common_failure evaluate_kind event_of evaluate_restart
    expected_child_exit_code evaluate_recovery ◌-ℤ◌
exit_passes = refl

evaluate_fault_acceptance-IsSafe_example :
    IsSafe exit_run × Lifecycle process_exit (from_scenario exit) exit_run
evaluate_fault_acceptance-IsSafe_example =
    evaluate_fault_acceptance-IsSafe (from_scenario exit) exit_run exit_passes

-- A codec that knows one document.
abbrev loads : List ℕ → Option (YamlValue Fixed)
loads (c ∷ []) = some (event_document exited)
loads _ = none

abbrev dumps : YamlValue Fixed → List ℕ
dumps v = 123 ∷ []

parse-event_json_example :
    parse_fixture_event loads (event_json dumps exited) ≡ ok (marker_for exited)
parse-event_json_example = parse-event_json dumps loads exited refl

abbrev fixture : FixtureNode
fixture = with_events exit false (process_exit_events exit)

fixture_made : make_fixture exit false ≡ ok fixture
unfolding make_fixture build_attempt_events process_exit_events events_of
fixture_made = refl

ticks_end_example :
    (es : List FixtureEvent) × (build_attempt_events exit false none ≡ ok es)
    × IsEnded process_exit false es (ticks max_ticks fixture)
ticks_end_example = ticks_end exit false fixture fixture_made

-- no point of any cloud is finite
abbrev read_points : PointCloud2 → Option ℕ
read_points message = some 0

abbrev gate : GateNode
gate = record { previous_stamp_nanoseconds = some baseline_clock; published = [] }

fault_cloud-suppressed_example :
    on_cloud read_points (fault_cloud nan_cloud suppressed_at) (pos 10150000000) gate ≡ gate
fault_cloud-suppressed_example =
    fault_cloud-suppressed read_points nan_cloud (pos 10150000000) gate nan refl refl

abbrev row : String → YamlValue Fixed → Entries Fixed → Entries Fixed
row name v rest = entry (text name) v rest

abbrev scenario_row : String → String → String → Entries Fixed
scenario_row id kind reason = row "id" (text id) (
    row "fault_kind" (text kind) (
      row "suppressed_outputs" (sequence (value (text "scan") no_values)) (
        row "reason_code" (text reason) (
          row "recovery_trigger" (text "fresh_odometry") (
            row "recovery_deadline_seconds" (integer (pos 2))
              (row "terminal_status" (text "recovered") no_entries))))))

abbrev configuration : YamlValue Fixed
configuration = mapping (
    row "scenarios"
      (sequence (
        value (mapping (scenario_row "odometry-jump" "odom_jump" "ODOMETRY_JUMP"))
          (value (mapping (scenario_row "tf-loss" "tf_loss" "TF_UNAVAILABLE")) no_values)))
      no_entries)

abbrev configured : String → String → String → FaultContract.FaultScenario
configured id kind reason = record {
  scenario_id = id;
  fault_kind = kind;
  suppressed_outputs = "scan" ∷ [];
  reason_code = reason;
  recovery_trigger = "fresh_odometry";
  recovery_deadline_seconds = 2;
  terminal_status = "recovered";
}

abbrev scenarios : List FaultContract.FaultScenario
scenarios =
    configured "odometry-jump" "odom_jump" "ODOMETRY_JUMP"
    ∷ configured "tf-loss" "tf_loss" "TF_UNAVAILABLE"
    ∷ []

configuration_loads : load_fault_scenarios configuration ≡ ok scenarios
unfolding load_fault_scenarios FaultContract.parse_rows FaultContract.parse_scenario
    FaultContract.outputs_of FaultContract.output_names FaultContract.required_string
    FaultContract.deadline_of
configuration_loads = refl

load_fault_scenarios-IsComplete_example : All IsComplete scenarios × Distinct scenarios
load_fault_scenarios-IsComplete_example =
    load_fault_scenarios-IsComplete configuration scenarios configuration_loads
