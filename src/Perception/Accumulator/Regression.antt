-- ===== src/Perception/Accumulator/Regression.antt =====
-- The order of the output stamps of the accumulator node,
-- src/go2_perception/go2_perception/mapping_cloud_accumulator_node.py.
use mathlib.Core.Path.{subst}
use go2_local_navigation.Prelude.{
  Bool, zero, suc, ◌≡◌, refl, sym, String, some, List, [], ◌∷◌, All, ok, bind-returns, arith,
}
use go2_local_navigation.Prelude.Int.{ℤ, pos, negsuc, ◌<ℤ◌}
use go2_local_navigation.Perception.Message.{Stamp, PointCloud2, stamp_nanoseconds}
use go2_local_navigation.Perception.RetryQueue.{
  PendingMappingCloud, RetryQueue, make_queue, accounting, empty_queue,
}
use go2_local_navigation.Perception.Window.{make_window}
use go2_local_navigation.Perception.Accumulator.{
  Ros, Buffer, AccumulatorNode, make_node, on_cloud, Pass, again, return, pass,
  process_pending_clouds, NodeEvent, cloud_message, retry_timer, run, terminal_accounting,
}
use go2_local_navigation.Perception.Accumulator.Loop.{Keeps, process_pending_clouds-Keeps}
use go2_local_navigation.Perception.Accumulator.Invariant.{
  IsConserved, PassOk, pass-PassOk, on_cloud-IsConserved,
}
use go2_local_navigation.Perception.Accumulator.Conservation.{make_node-IsConserved}
use go2_local_navigation.Perception.Accumulator.Ordering.{
  InOrder, enqueue-InOrder, IsStamped, IsStampKeeping, IsInterpolating, IsGated, Ordered,
  NextOrdered, with_transform-Ordered,
}

abbrev Good : (PointCloud2 → Bool) → AccumulatorNode → Type 0
Good fits n = IsConserved fits n × Ordered n

both :
    (fits : PointCloud2 → Bool) (n : AccumulatorNode) (r : Pass)
    → PassOk fits n r
    → NextOrdered r
    → Keeps (Good fits) n r
both fits n (again n') k o = ((k.0, o), k.1)
both fits n (return n') k o = (k, o)

make_queue-InOrder :
    (capacity emit_every : ℤ) (q : RetryQueue PointCloud2)
    → make_queue capacity emit_every ≡ ok q
    → InOrder q
unfolding make_queue
make_queue-InOrder (pos (suc c)) (pos (suc m)) q h =
    let e : empty_queue (suc c) (suc m) ≡ q = ground arith in
    subst InOrder e (record { sorted = tt; stamped = tt; past = tt; regressions = refl })
make_queue-InOrder (pos (suc c)) (pos zero) q h = cc
make_queue-InOrder (pos (suc c)) (negsuc m) q h = cc
make_queue-InOrder (pos zero) m q h = cc
make_queue-InOrder (negsuc c) m q h = cc

make_node-Ordered :
    (frame_limit emit_every : ℤ) (target_frame : String) (capacity : ℤ) (n : AccumulatorNode)
    → make_node frame_limit emit_every target_frame capacity ≡ ok n
    → Ordered n
unfolding make_node
make_node-Ordered frame_limit emit_every target_frame capacity n h =
    let (w, h1, ew) = bind-returns (make_window frame_limit target_frame emit_every) _ h in
    let (q, h2, eq) = bind-returns (make_queue {C = PointCloud2} capacity emit_every) _ h1 in
    let e : q ≡ n.retry_queue = ground arith in
    subst InOrder e (make_queue-InOrder capacity emit_every q eq)

module _ {T P : Type 0} (ros : Ros T P) (transform_stamp : T → Stamp)
    (keeping : IsStampKeeping ros transform_stamp) where
  pass-Ordered :
      (buffer : Buffer T)
      → IsInterpolating transform_stamp buffer
      → (ps : List (PendingMappingCloud PointCloud2)) (n : AccumulatorNode)
      → n.retry_queue.pending ≡ ps
      → Good ros.fits n
      → NextOrdered (pass ros buffer ps n)
  unfolding pass
  pass-Ordered buffer i [] n e h = h.1
  pass-Ordered buffer i (p ∷ ps) n e h =
      let st = subst (All IsStamped) e h.1.stamped in
      let positive : pos 0 <ℤ stamp_nanoseconds p.cloud.header.stamp =
        subst (λ (z : ℤ). pos 0 <ℤ z) (sym st.0.0) st.0.1 in
      with_transform-Ordered ros transform_stamp keeping n p ps e h.0.held h.1
        (buffer n.target_frame p.cloud.header.frame_id p.cloud.header.stamp)
        (λ t q. i n.target_frame p.cloud.header.frame_id p.cloud.header.stamp t positive q)

  timer-Good :
      (buffer : Buffer T)
      → IsInterpolating transform_stamp buffer
      → (n : AccumulatorNode) → Good ros.fits n
      → (n' : AccumulatorNode) × (process_pending_clouds ros buffer n ≡ some n') × Good ros.fits n'
  timer-Good buffer i = process_pending_clouds-Keeps ros (Good ros.fits) buffer λ n h.
      both ros.fits n (pass ros buffer n.retry_queue.pending n)
        (pass-PassOk ros buffer n.retry_queue.pending n refl h.0)
        (pass-Ordered buffer i n.retry_queue.pending n refl h)

  run-Good :
      (es : List (NodeEvent T)) (n : AccumulatorNode)
      → All (IsGated transform_stamp) es
      → Good ros.fits n
      → (n' : AccumulatorNode) × (run ros es n ≡ some n') × Good ros.fits n'
  unfolding run
  run-Good [] n g h = (n, refl, h)
  run-Good (cloud_message message ∷ es) n g h = run-Good es (on_cloud message n) g.1 (
    on_cloud-IsConserved ros.fits message n h.0,
    unfold on_cloud in enqueue-InOrder message n.retry_queue g.0 h.1,
  )
  run-Good (retry_timer buffer ∷ es) n g h =
      let (n', e, k) = timer-Good buffer g.0 n h in
      let (n'', e', k') = run-Good es n' g.1 k in (n'', rw (e, run) e', k')

  -- For a node whose constructor accepts its parameters, libraries that keep stamps, a buffer
  -- that interpolates at the time asked for, and messages of positive stamp: any callbacks
  -- return, and the node's terminal accounting reports no output stamp regression. The message
  -- class may refuse outputs.
  pub run-no_regression :
      (frame_limit emit_every : ℤ) (target_frame : String) (capacity : ℤ) (n : AccumulatorNode)
      (es : List (NodeEvent T))
      → make_node frame_limit emit_every target_frame capacity ≡ ok n
      → All (IsGated transform_stamp) es
      → (n' : AccumulatorNode) × (run ros es n ≡ some n')
        × ((terminal_accounting n').output_stamp_regression_count ≡ 0)
  run-no_regression frame_limit emit_every target_frame capacity n es h g =
      let start : Good ros.fits n = (
        make_node-IsConserved ros.fits frame_limit emit_every target_frame capacity n h,
        make_node-Ordered frame_limit emit_every target_frame capacity n h,
      ) in
      let (n', e, k) = run-Good es n g start in
      (n', e, unfold terminal_accounting accounting in k.1.regressions)
