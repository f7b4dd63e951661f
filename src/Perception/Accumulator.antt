-- ===== src/Perception/Accumulator.antt =====
-- src/go2_perception/go2_perception/mapping_cloud_accumulator_node.py: the node's two callbacks. The
-- TF buffer and the functions of tf2_sensor_msgs and sensor_msgs_py are parameters. Logging is left
-- out, and a topic is the list of its messages, the newest first.
pub mod Loop
pub mod Balance
pub mod Invariant
pub mod Conservation
pub mod Ordering
pub mod Regression
use go2_local_navigation.Prelude.{
  ℕ, zero, suc, ◌+◌, String, Bool, true, false, Option, none, some, List, [], ◌∷◌, length, Result,
  ok, err, ◌>>=◌, if◌then◌else◌,
}
use go2_local_navigation.Prelude.Int.{ℤ}
use go2_local_navigation.Prelude.Text.{codes, lower, contains}
use go2_local_navigation.Perception.Message.{
  Stamp, Header, PointCloud2, WindowError, assertion_error, stamp_nanoseconds,
}
use go2_local_navigation.Perception.RetryQueue.{
  PendingMappingCloud, RetryQueue, MappingCloudAccounting, make_queue, enqueue,
  mark_head_future_waited, drop_head_unrecoverable, take_head_for_processing, record_output_publish,
  accounting,
}
use go2_local_navigation.Perception.Window.{
  CloudWindow, make_window, add, partial_frame_count, compact_xyz_cloud,
}

-- What `lookup_transform` returns, or the text of its `TransformException`.
pub data Lookup (T : Type 0) : Type 0 where
  found : T → Lookup T
  transform_exception : List ℕ → Lookup T

-- The functions that the node calls and this repository does not hold.
pub record Ros (T P : Type 0) : Type 0 where
  pub read_points_list : PointCloud2 → P
  pub create_cloud_xyz32 : Header → P → PointCloud2
  -- `none`: an AssertionError, a TypeError or a ValueError
  pub do_transform_cloud : PointCloud2 → T → Option PointCloud2
  -- the range assertions of the message class
  pub fits : PointCloud2 → Bool

-- The TF buffer during one timer callback: target frame, source frame and time.
abbrev pub Buffer : Type 0 → Type 0
Buffer T = String → String → Stamp → Lookup T

pub record AccumulatorNode : Type 0 where
  pub target_frame : String
  pub window : CloudWindow
  pub retry_queue : RetryQueue PointCloud2
  pub published : List PointCloud2

-- `__init__`: the window is built first, then the queue.
unfoldable pub make_node : ℤ → ℤ → String → ℤ → Result WindowError AccumulatorNode
make_node frame_limit emit_every target_frame retry_queue_capacity =
    make_window frame_limit target_frame emit_every >>= λ window.
    make_queue retry_queue_capacity emit_every >>= λ queue.
    ok
      (record { target_frame = target_frame; window = window; retry_queue = queue; published = [] })

unfoldable pub on_cloud : PointCloud2 → AccumulatorNode → AccumulatorNode
on_cloud message n = record n {
  retry_queue = (enqueue message (stamp_nanoseconds message.header.stamp) n.retry_queue).0;
}

-- `_is_future_extrapolation`
unfoldable pub is_future_extrapolation : List ℕ → Bool
is_future_extrapolation text = contains (codes "extrapolation into the future") (lower text)

-- How one pass of the loop goes on.
pub data Pass : Type 0 where
  again : AccumulatorNode → Pass
  return : AccumulatorNode → Pass

module _ {T P : Type 0} (ros : Ros T P) where
  -- `do_transform_cloud(compact_xyz_cloud(cloud), transform)`
  pub transformed : PointCloud2 → T → Result WindowError PointCloud2
  transformed cloud transform =
      compact_xyz_cloud ros.read_points_list ros.create_cloud_xyz32 cloud >>= λ compact.
      elim (ros.do_transform_cloud compact transform) [ none ↦ err assertion_error | some c ↦ ok c ]

  abbrev dropped : AccumulatorNode → AccumulatorNode
  dropped n = record n { retry_queue = (drop_head_unrecoverable n.retry_queue).0 }

  abbrev taken : AccumulatorNode → AccumulatorNode
  taken n = record n { retry_queue = (take_head_for_processing n.retry_queue).0 }

  abbrev published_now : PointCloud2 → AccumulatorNode → AccumulatorNode
  published_now output n = record n {
    published = output ∷ n.published;
    retry_queue = record_output_publish (stamp_nanoseconds output.header.stamp) n.retry_queue;
  }

  -- after `self._window.add(transformed)`; the window keeps what `add` wrote, also when it raised
  pub added : Result WindowError (Option PointCloud2) → AccumulatorNode → Pass
  added (err e) n = again (dropped n)
  added (ok none) n = again (taken n)
  added (ok (some output)) n = again (published_now output (taken n))

  pub with_cloud : Result WindowError PointCloud2 → AccumulatorNode → Pass
  unfolding added
  with_cloud (err e) n = again (dropped n)
  with_cloud (ok cloud) n =
      let (window, result) = add ros.fits cloud n.window in
      added result (record n { window = window })

  pub with_transform : Lookup T → PointCloud2 → AccumulatorNode → Pass
  unfolding transformed with_cloud
  with_transform (transform_exception text) cloud n =
      if is_future_extrapolation text
      then return (record n { retry_queue = mark_head_future_waited n.retry_queue })
      else again (dropped n)
  with_transform (found transform) cloud n = with_cloud (transformed cloud transform) n

  pub pass : Buffer T → List (PendingMappingCloud PointCloud2) → AccumulatorNode → Pass
  unfolding with_transform
  pass buffer [] n = return n
  pass buffer (pending ∷ rest) n =
      with_transform
        (buffer n.target_frame pending.cloud.header.frame_id pending.cloud.header.stamp)
        pending.cloud n

  -- The loop `while (pending := head()) is not None`, with fuel; `none`: the fuel ran out.
  process : ℕ → Buffer T → AccumulatorNode → Option AccumulatorNode
  unfolding pass
  process zero buffer n = none
  process (suc fuel) buffer n = elim (pass buffer n.retry_queue.pending n) [
    | return n' ↦ some n'
    | again n' ↦ process fuel buffer n'
  ]

  unfoldable pub process_pending_clouds : Buffer T → AccumulatorNode → Option AccumulatorNode
  unfolding process
  process_pending_clouds buffer n = process (suc (length n.retry_queue.pending)) buffer n

-- The callbacks that the executor runs, one at a time: a message, or a tick of the retry timer.
pub data NodeEvent (T : Type 0) : Type 0 where
  cloud_message : PointCloud2 → NodeEvent T
  retry_timer : Buffer T → NodeEvent T

module _ {T P : Type 0} (ros : Ros T P) where
  unfoldable pub run : List (NodeEvent T) → AccumulatorNode → Option AccumulatorNode
  unfolding on_cloud
  run [] n = some n
  run (cloud_message message ∷ es) n = run es (on_cloud message n)
  run (retry_timer buffer ∷ es) n = elim (process_pending_clouds ros buffer n) [
    | none ↦ none
    | some n' ↦ run es n'
  ]

-- `_emit_terminal_accounting`
unfoldable pub terminal_accounting : AccumulatorNode → MappingCloudAccounting
terminal_accounting n = accounting n.retry_queue (partial_frame_count n.window)
