-- ===== src/Samples/Control.antt =====
-- Runs of the motion adapter (src/go2_control/test/test_motion_contract.py gives the limits).
use go2_local_navigation.Prelude.{
  ◌≡◌, refl, ◌⊎◌, true, false, none, some, List, [], ◌∷◌, All, length, ok, arith, inr, any,
  if◌then◌else◌,
}
use go2_local_navigation.Prelude.Int.{pos, negsuc, ltb_ℤ}
use go2_local_navigation.Control.Motion.{
  MotionCommand, MotionLimits, MotionInput, ActuationGate, gate_open, stopped, assess_motion_input,
}
use go2_local_navigation.Control.Motion.Bounds.{
  IsValidLimits, IsWithin, IsStep, IsConsistent, assess_motion_input-IsWithin,
  assess_motion_input-IsConsistent,
}
use go2_local_navigation.Control.Adapter.{MotionAdapter, Event, twist, watchdog, init, run}
use go2_local_navigation.Control.Adapter.Safety.{IsAllowed, IsSafe, run-init-safe}
use go2_local_navigation.Control.Adapter.Watchdog.{is_watchdog, After, silence-stops_once}
use go2_local_navigation.Control.SportRequest.{
  SportRequestData, move_parameter, build_stop_request, build_move_request,
}
use go2_local_navigation.Control.Trial.{
  Observation, candidate, preview, make_record, observe_all, snapshot,
}
use go2_local_navigation.Control.Trial.Summary.{Summarises, observe_all-Summarises}
use go2_local_navigation.Samples.Fixed.{Fixed, fixed_float, fixed-IsOrdered, fixed-IsRounded}

-- 0.30, 0.20, 0.15 and 0.40, with accelerations 0.50 and 1.00, and 250 ms
abbrev limits : MotionLimits Fixed
limits = record {
  velocity = record {
    forward = some (pos 300);
    reverse = some (pos 200);
    lateral = some (pos 150);
    yaw = some (pos 400);
  };
  acceleration = record { linear = some (pos 500); yaw = some (pos 1000) };
  timeout_nanoseconds = pos 250000000;
}

limits-IsValidLimits : IsValidLimits limits
limits-IsValidLimits = ground arith

abbrev closed : ActuationGate
closed = record { output_enabled = true; physical_validation_approved = false }

abbrev open_gate : ActuationGate
open_gate = record { output_enabled = true; physical_validation_approved = true }

abbrev fast : MotionCommand Fixed
fast = record { velocity_x = some (pos 900); velocity_y = some (negsuc 999); yaw_rate = none }

abbrev forward : MotionCommand Fixed
forward = record { velocity_x = some (pos 900); velocity_y = some (pos 0); yaw_rate = some (pos 0) }

abbrev events : List (Event Fixed)
events =
    twist 1000000000 forward
    ∷ twist 1100000000 fast
    ∷ watchdog 1200000000
    ∷ watchdog 1300000000
    ∷ watchdog 1350000000
    ∷ []

run-init-safe_example :
    (s : MotionAdapter Fixed) × (run events (init limits open_gate) ≡ ok s)
    × All (IsAllowed limits) s.previews
    × (s.controls ≡ (if gate_open open_gate then s.previews else []))
    × (s.preview_count ≡ length s.previews)
    × (s.published_count ≡ length s.controls)
run-init-safe_example =
    run-init-safe fixed-IsOrdered fixed-IsRounded events limits open_gate limits-IsValidLimits
      (omega arith)

abbrev moved : MotionCommand Fixed
moved = record { velocity_x = some (pos 300); velocity_y = some (pos 0); yaw_rate = some (pos 0) }

abbrev move : SportRequestData
move = record { api_id = 1008; parameter = move_parameter moved }

abbrev moving : MotionAdapter Fixed
moving = record {
  limits = limits;
  gate = open_gate;
  control_publisher_created = true;
  previous_command = moved;
  last_command_time_ns = some 1000000000;
  stop_sent = false;
  rejected_count = 0;
  preview_count = 1;
  published_count = 1;
  previews = move ∷ [];
  controls = move ∷ [];
}

-- The first command is limited to 0.30 m/s.
run_first : run (twist 1000000000 forward ∷ []) (init limits open_gate) ≡ ok moving
unfolding run init assess_motion_input build_move_request
run_first = refl

-- The second command is rejected, and the third watchdog tick is the first one past the timeout.
run_silence :
    run (twist 1100000000 fast ∷ watchdog 1200000000 ∷ watchdog 1300000000 ∷ []) moving
    ≡ ok (record moving {
      previous_command = stopped;
      stop_sent = true;
      rejected_count = 1;
      preview_count = 2;
      published_count = 2;
      previews = build_stop_request ∷ move ∷ [];
      controls = build_stop_request ∷ move ∷ [];
    })
unfolding run assess_motion_input
run_silence = refl

moved-IsWithin : IsWithin limits.velocity moved
moved-IsWithin = ground arith

moving-IsSafe : IsSafe moving
unfolding build_move_request
moving-IsSafe = record {
  within = moved-IsWithin;
  on_clock = omega arith;
  owner = refl;
  allowed = (inr (moved, moved-IsWithin, refl), tt);
  controls = refl;
  preview_count = refl;
  published_count = refl;
}

abbrev silent : List (Event Fixed)
silent = twist 1100000000 fast ∷ watchdog 1300000000 ∷ watchdog 1350000000 ∷ []

silence-stops_once_example :
    (s' : MotionAdapter Fixed) × (run silent moving ≡ ok s')
    × After (any is_watchdog silent) moving s'
silence-stops_once_example =
    silence-stops_once fixed-IsOrdered fixed-IsRounded 1000000000 silent moving limits-IsValidLimits
      moving-IsSafe refl refl (ground arith)

abbrev input : MotionInput Fixed
input = record {
  command = forward;
  age_nanoseconds = pos 0;
  previous_command = stopped;
  elapsed_seconds = some (pos 100);
}

assess_motion_input-IsWithin_example :
    IsWithin limits.velocity (record stopped { velocity_x = some (pos 50) })
    × ((record stopped { velocity_x = some (pos 50) } ≡ stopped)
        ⊎ IsStep
            (some (pos 50))
            (some (pos 100))
            stopped
            (record stopped { velocity_x = some (pos 50) }))
unfolding assess_motion_input
assess_motion_input-IsWithin_example =
    assess_motion_input-IsWithin fixed-IsOrdered fixed-IsRounded input limits closed
      (record stopped { velocity_x = some (pos 50) }) limits-IsValidLimits (ground arith) refl refl

assess_motion_input-IsConsistent_example :
    IsConsistent input closed
      (ltb_ℤ (pos 250000000) (pos 0))
      (assess_motion_input input limits closed)
assess_motion_input-IsConsistent_example = assess_motion_input-IsConsistent input limits closed

abbrev seen : List (Observation Fixed)
seen =
    candidate (pos 5)
      (record { velocity_x = some (pos 100); velocity_y = some (pos 0); yaw_rate = some (pos 0) })
    ∷ preview (pos 6) (record { api_id = 1008; parameter = "{}" })
    ∷ preview (pos 7) (record { api_id = 1003; parameter = "" })
    ∷ []

observe_all-Summarises_example : Summarises make_record seen (observe_all seen make_record)
observe_all-Summarises_example = observe_all-Summarises seen make_record

run_topics :
    (snapshot "id" "run" "now" (observe_all seen make_record)).observed_topics
    ≡ ("/go2_control/cmd_vel_candidate" ∷ "/go2_control/sport_request_preview" ∷ [])
unfolding snapshot observe_all
run_topics = refl
