-- ===== src/Samples/Perception.antt =====
-- Runs of the accumulator node and its parts (src/go2_perception/test/test_mapping_cloud_accumulator.py).
use go2_local_navigation.Prelude.{
  ℕ, ◌+◌, ◌≤◌, ◌==◌, ◌≡◌, refl, true, false, some, List, [], ◌∷◌, ◌++◌, ok, arith, inr, All,
}
use go2_local_navigation.Prelude.Int.{pos}
use go2_local_navigation.Perception.Message.{Stamp, PointField, PointCloud2, stamp_nanoseconds}
use go2_local_navigation.Perception.RetryQueue.{
  empty_queue, accounting, make_queue, enqueue, mark_head_future_waited, drop_head_unrecoverable,
  take_head_for_processing, record_output_publish,
}
use go2_local_navigation.Perception.RetryQueue.Accounting.{IsAccounted}
use go2_local_navigation.Perception.RetryQueue.Fifo.{
  Call, enqueue_call, mark_call, take_call, calls, queued, calls_fifo,
}
use go2_local_navigation.Perception.Window.{
  empty_window, make_window, add, validate_cloud, validate_matching_layout, matches_last,
  concatenate_clouds, compact_xyz_cloud,
}
use go2_local_navigation.Perception.Window.Layout.{IsHeld}
use go2_local_navigation.Perception.Window.Cadence.{Outcome, add-Outcome}
use go2_local_navigation.Perception.Accumulator.{
  found, transform_exception, Ros, Buffer, AccumulatorNode, make_node, NodeEvent, cloud_message,
  retry_timer, run, terminal_accounting, on_cloud, is_future_extrapolation, process_pending_clouds,
}
use go2_local_navigation.Perception.Accumulator.Conservation.{IsBalanced, run-conserves}
use go2_local_navigation.Perception.Accumulator.Ordering.{IsStampKeeping, IsGated}
use go2_local_navigation.Perception.Accumulator.Regression.{run-no_regression}
use go2_local_navigation.Prelude.Text.{codes, lower, starts_with, contains}

-- A transform is its stamp, and the points of a cloud are the cloud itself.
abbrev pub ros : Ros Stamp PointCloud2
ros = record {
  read_points_list = λ c. c;
  create_cloud_xyz32 = λ h c. record c { header = h };
  do_transform_cloud = λ c t. some (record c { header = record { stamp = t; frame_id = "odom" } });
  fits = λ c. true;
}

pub ros-IsStampKeeping : IsStampKeeping ros (λ t. t)
ros-IsStampKeeping = record {
  create_keeps = λ h p. refl;
  transform_keeps = λ c t out e. ground arith;
}

abbrev at : ℕ → Stamp
at n = record { sec = pos n; nanosec = 5 }

abbrev xyz : List PointField
xyz =
    record { name = "x"; offset = 0; datatype = 7; count = 1 }
    ∷ record { name = "y"; offset = 4; datatype = 7; count = 1 }
    ∷ record { name = "z"; offset = 8; datatype = 7; count = 1 }
    ∷ []

abbrev scan : ℕ → PointCloud2
scan n = record {
  header = record { stamp = at n; frame_id = "utlidar_lidar" };
  height = 1;
  width = 1;
  fields = xyz;
  is_bigendian = false;
  point_step = 12;
  row_step = 12;
  bytes = 0 ∷ 0 ∷ 0 ∷ 0 ∷ 0 ∷ 0 ∷ 0 ∷ 0 ∷ 0 ∷ 0 ∷ 0 ∷ 0 ∷ [];
  is_dense = true;
}

abbrev pub ready : Buffer Stamp
ready = λ target source stamp. found stamp

abbrev pub future : Buffer Stamp
future = λ target source stamp.
    transform_exception (codes "Lookup would require Extrapolation into the future")

pub future-IsInterpolating : IsGated (λ t. t) (retry_timer future)
future-IsInterpolating = λ target source stamp t p e. cc

pub ready-IsInterpolating : IsGated (λ t. t) (retry_timer ready)
ready-IsInterpolating = λ target source stamp t p e. ground arith

-- Two clouds to a batch; the second message comes twice.
abbrev pub start : AccumulatorNode
start = record {
  target_frame = "odom";
  window = empty_window 2 "odom" 2;
  retry_queue = empty_queue 64 2;
  published = [];
}

pub made : make_node (pos 2) (pos 2) "odom" (pos 64) ≡ ok start
unfolding make_node make_window make_queue
made = refl

abbrev pub script : List (NodeEvent Stamp)
script =
    cloud_message (scan 1)
    ∷ retry_timer future
    ∷ retry_timer ready
    ∷ cloud_message (scan 2)
    ∷ cloud_message (scan 2)
    ∷ cloud_message (scan 3)
    ∷ retry_timer ready
    ∷ []

-- Three clouds are processed, one of them after a wait; two make a batch and one is left over.
script_counts :
    (n' : AccumulatorNode) × (run ros script start ≡ some n')
    × (terminal_accounting n' ≡ record {
      received = 4;
      future_waited = 1;
      recovered_after_retry = 1;
      processed = 3;
      output_published = 1;
      dropped_unrecoverable = 1;
      dropped_overflow = 0;
      pending_at_shutdown = 0;
      partial_frames_not_emitted = 1;
      emit_every = 2;
      output_stamp_regression_count = 0;
    })
unfolding run on_cloud process_pending_clouds enqueue mark_head_future_waited
    drop_head_unrecoverable take_head_for_processing record_output_publish add validate_cloud
    validate_matching_layout matches_last concatenate_clouds compact_xyz_cloud
    is_future_extrapolation contains lower starts_with stamp_nanoseconds terminal_accounting
    accounting
script_counts = (_, refl, refl)

-- A message class that refuses the output of the batch: its second cloud is dropped and still held.
abbrev refusing : Ros Stamp PointCloud2
refusing = record ros { fits = λ c. c.width == 1 }

refused_counts :
    (n' : AccumulatorNode) × (run refusing
        (cloud_message (scan 1) ∷ cloud_message (scan 2) ∷ retry_timer ready ∷ [])
        start
      ≡ some n')
    × (terminal_accounting n' ≡ record {
      received = 2;
      future_waited = 0;
      recovered_after_retry = 0;
      processed = 1;
      output_published = 0;
      dropped_unrecoverable = 1;
      dropped_overflow = 0;
      pending_at_shutdown = 0;
      partial_frames_not_emitted = 2;
      emit_every = 2;
      output_stamp_regression_count = 0;
    })
unfolding run on_cloud process_pending_clouds enqueue mark_head_future_waited
    drop_head_unrecoverable take_head_for_processing record_output_publish add validate_cloud
    validate_matching_layout matches_last concatenate_clouds compact_xyz_cloud
    is_future_extrapolation contains lower starts_with stamp_nanoseconds terminal_accounting
    accounting
refused_counts = (_, refl, refl)

run-conserves_example :
    (n' : AccumulatorNode) × (run ros script start ≡ some n')
    × (let a = terminal_accounting n' in
        (a.processed + a.dropped_unrecoverable + a.dropped_overflow + a.pending_at_shutdown
          ≡ a.received)
        × IsBalanced ros.fits n'.window a
        × (a.future_waited
            ≤ a.recovered_after_retry + a.pending_at_shutdown + a.dropped_unrecoverable)
        × (a.recovered_after_retry ≤ a.future_waited))
run-conserves_example = run-conserves ros (pos 2) (pos 2) "odom" (pos 64) start script made

pub script-IsGated : All (IsGated (λ (t : Stamp). t)) script
unfolding stamp_nanoseconds
script-IsGated = (
  omega arith,
  (
    future-IsInterpolating,
    (
      ready-IsInterpolating,
      (omega arith, (omega arith, (omega arith, (ready-IsInterpolating, tt)))),
    ),
  ),
)

run-no_regression_example :
    (n' : AccumulatorNode) × (run ros script start ≡ some n')
    × ((terminal_accounting n').output_stamp_regression_count ≡ 0)
run-no_regression_example =
    run-no_regression ros (λ t. t) ros-IsStampKeeping (pos 2) (pos 2) "odom" (pos 64) start script
      made script-IsGated

abbrev script_calls : List (Call ℕ)
script_calls =
    enqueue_call 7 (pos 5)
    ∷ enqueue_call 8 (pos 6)
    ∷ mark_call
    ∷ take_call
    ∷ enqueue_call 9 (pos 6)
    ∷ []

calls_fifo_example :
    let r = calls script_calls (empty_queue 2 1) in IsAccounted r.0 × (r.1 ≡ r.2 ++ queued r.0)
calls_fifo_example = calls_fifo script_calls 2 1

abbrev odom_scan : PointCloud2
odom_scan = record (scan 1) { header = record { stamp = at 1; frame_id = "odom" } }

start-IsHeld : IsHeld (empty_window 2 "odom" 2)
start-IsHeld = record {
  limit_pos = omega arith;
  cadence = inr refl;
  step = 12;
  layout = tt;
  bounded = omega arith;
}

add-Outcome_example :
    Outcome
      (λ c. false)
      odom_scan
      (empty_window 2 "odom" 2)
      (add (λ c. false) odom_scan (empty_window 2 "odom" 2))
add-Outcome_example = add-Outcome (λ c. false) odom_scan (empty_window 2 "odom" 2) start-IsHeld
