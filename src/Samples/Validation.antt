-- ===== src/Samples/Validation.antt =====
-- Runs of the measures and of the verdict of src/go2_validation.
use go2_local_navigation.Validation.Pose.{
  shortest_yaw_step, compose, interpolate, bisect_left, insert_at, interpolated_odometry,
  planar_pose,
}
use go2_local_navigation.Prelude.{ok, ℕ, ◌≡◌, ◌↔◌, refl, true, false, none, some, List, [], ◌∷◌}
use go2_local_navigation.Prelude.Int.{◌+ℤ◌, ◌-ℤ◌, pos}
use go2_local_navigation.Perception.Accumulator.{AccumulatorNode, run, terminal_accounting}
use go2_local_navigation.Estimation.Contract.{Xyz, Xyzw}
use go2_local_navigation.Validation.TfContinuity.{make_accumulator}
use go2_local_navigation.Validation.TfContinuity.Smooth.{
  TfSample, observe_all, IsSmooth, WithinLimits, observe_all-IsSmooth,
}
use go2_local_navigation.Validation.PoseContinuity.{
  record_steps, correction_steps, observe_odometry, observe_map_to_odom, make_pose_accumulator,
  empty_observation,
}
use go2_local_navigation.Validation.PoseContinuity.Counts.{
  PoseCall, odometry_pose, map_correction, pose_calls, IsConsistent, pose_calls-IsConsistent,
}
use go2_local_navigation.Validation.Acceptance.{
  emit_cadence, cloud_accounting_checks, process_checks, artifact_checks, command_checks,
  correction_checks, ownership_checks, stream_checks, checks, failed_of, MappingObservation,
  project_stationary, passed, assess_mapping, accounting_checks,
}
use go2_local_navigation.Validation.Acceptance.Verdict.{
  IsAccepted, all_passed, assess_mapping-IsAccepted,
}
use go2_local_navigation.Validation.Acceptance.Accumulated.{IsComplete, run-IsComplete}
use go2_local_navigation.Validation.FaultFixture.{
  FaultScenario, odom_loss, process_exit, build_attempt_events, recovering_events, events_of,
  IsRecovery, build_attempt_events-IsRecovery, recovered, all_outputs,
}
use go2_local_navigation.Samples.Perception.{
  ros, script, start, made, ros-IsStampKeeping, script-IsGated,
}
use go2_local_navigation.Samples.Fixed.{
  Fixed, fixed_float, fixed_trig, fixed-IsOrdered, fixed-IsRounded, fixed-IsUnbounded,
}

abbrev level : Xyzw Fixed
level = record { x = some (pos 0); y = some (pos 0); z = some (pos 0); w = some (pos 1000) }

abbrev place : ℕ → Xyz Fixed
place x = record { x = some (pos x); y = some (pos 0); z = some (pos 0) }

abbrev sample : ℕ → TfSample Fixed
sample x = record { translation = place x; quaternion = level; stamp = some (pos x) }

observe_all-IsSmooth_example :
    WithinLimits (observe_all (sample 0 ∷ sample 400 ∷ sample 1000 ∷ []) make_accumulator).observed
    ↔ IsSmooth none (sample 0 ∷ sample 400 ∷ sample 1000 ∷ [])
observe_all-IsSmooth_example =
    observe_all-IsSmooth fixed-IsOrdered fixed-IsRounded fixed-IsUnbounded
      (sample 0 ∷ sample 400 ∷ sample 1000 ∷ [])

-- The second and third corrections are 40 ms and 20 ms after an odometry pose, the fourth is the
-- third again, the fifth goes back in time, and no pose follows the last.
abbrev pose_script : List (PoseCall Fixed)
pose_script =
    odometry_pose (place 100) level (pos 900000000)
    ∷ odometry_pose (place 0) level (pos 860000000)
    ∷ map_correction (place 0) level (pos 1080000000)
    ∷ map_correction (place 10) level (pos 1080000000)
    ∷ map_correction (place 20) level (pos 1100000000)
    ∷ map_correction (place 20) level (pos 1100000000)
    ∷ map_correction (place 30) level (pos 1000000000)
    ∷ map_correction (place 30) level (pos 1200000000)
    ∷ []

run_pose_script :
    (pose_calls pose_script (make_pose_accumulator, 0)).0.observed ≡ record empty_observation {
      sample_count = 2;
      unaligned_sample_count = 1;
      duplicate_stamp_count = 1;
      regressive_stamp_count = 1;
    }
unfolding pose_calls observe_map_to_odom observe_odometry ◌-ℤ◌ planar_pose interpolated_odometry
    insert_at bisect_left interpolate correction_steps compose shortest_yaw_step record_steps
run_pose_script = refl

pose_calls-IsConsistent_example : IsConsistent (pose_calls pose_script (make_pose_accumulator, 0))
pose_calls-IsConsistent_example = pose_calls-IsConsistent fixed-IsOrdered pose_script

abbrev mapped : MappingObservation Fixed
mapped = record {
  variant = project_stationary;
  provenance = "stationary";
  source_checksum = "a1";
  replay_checksum = "b2";
  streams = record {
    expected_cloud_count = 3;
    observed_cloud_count = 3;
    expected_odometry_count = 9;
    observed_odometry_count = 9;
    scan_count = 3;
    odom_count = 9;
    map_count = 1;
    map_frames = "map" ∷ [];
    map_has_cells = true;
  };
  ownership = record {
    slam_services_ready = true;
    clock_publisher_max = 1;
    clock_progressed = true;
    clock_stalled = false;
    global_edges = ("map", "odom") ∷ [];
    global_owner_nodes = "/slam_toolbox" ∷ [];
    command_publisher_max = 0;
    control_node_max = 0;
  };
  artifacts = record {
    occupancy_saved = true;
    pose_graph_saved = true;
    pose_graph_reloaded = true;
    checksums =
        ("occupancy.pgm", "1")
        ∷ ("occupancy.yaml", "2")
        ∷ ("pose_graph.data", "3")
        ∷ ("pose_graph.posegraph", "4")
        ∷ [];
  };
  process = record {
    player_exit_code = pos 0;
    launch_exit_code = pos 0;
    residual_nodes = [];
    residual_processes = [];
    teardown_clock_publishers = 0;
    teardown_global_owner_nodes = [];
  };
  sensor_tf_profile = "default";
  map_correction_continuity = record empty_observation { sample_count = 2 };
  scan_projection_profile = "raw_single";
  coarse_search_angle_offset = some (pos 349);
  use_response_expansion = true;
  do_loop_closing = true;
  expected_intrinsic_untransformable_cloud_count = 0;
  cloud_accounting = none;
}

mapped_failures : (assess_mapping mapped).failed_checks ≡ []
unfolding assess_mapping failed_of checks stream_checks ownership_checks correction_checks
    command_checks artifact_checks process_checks cloud_accounting_checks emit_cadence
mapped_failures = refl

-- An accumulating profile without an accounting fails on that.
unaccounted_failures :
    (assess_mapping
      (record mapped { scan_projection_profile = "dimos_odom_accumulated" })).failed_checks
    ≡ ("cloud_accounting" ∷ [])
unfolding assess_mapping failed_of checks stream_checks ownership_checks correction_checks
    command_checks artifact_checks process_checks cloud_accounting_checks emit_cadence
unaccounted_failures = refl

assess_mapping-IsAccepted_example : ((assess_mapping mapped).status ≡ passed) ↔ IsAccepted mapped
assess_mapping-IsAccepted_example = assess_mapping-IsAccepted mapped

run-IsComplete_example :
    (n' : AccumulatorNode) × (run ros script start ≡ some n')
    × ((all_passed (accounting_checks 2 4 0 (terminal_accounting n')) ≡ true)
        ↔ IsComplete 2 4 (terminal_accounting n'))
run-IsComplete_example =
    run-IsComplete ros (λ t. t) ros-IsStampKeeping (pos 2) (pos 2) "odom" (pos 64) start script 2 4
      made script-IsGated

abbrev loss : FaultScenario
loss = record {
  scenario_id = "odometry-loss";
  fault_kind = odom_loss;
  reason_code = "STALE_ODOMETRY";
  recovery_deadline_nanoseconds = pos 1000000000;
}

loss_events : build_attempt_events loss false none ≡ ok (recovering_events loss (pos 700000000))
unfolding build_attempt_events recovering_events events_of
loss_events = refl

build_attempt_events-IsRecovery_example : IsRecovery loss (recovering_events loss (pos 700000000))
build_attempt_events-IsRecovery_example =
    build_attempt_events-IsRecovery loss false none (recovering_events loss (pos 700000000)) refl
      loss_events

-- A restart recovers after 700 ms, whatever the deadline of 500 ms.
restart_events :
    build_attempt_events
      (record loss { fault_kind = process_exit; recovery_deadline_nanoseconds = pos 500000000 })
      true
      none
    ≡ ok (
        record {
          phase = recovered;
          clock_nanoseconds = pos 10800000000;
          output_counts = all_outputs;
          reason_code = none;
          child_exit_code = none;
        }
        ∷ [])
unfolding build_attempt_events events_of ◌+ℤ◌
restart_events = refl
