-- ===== src/Perception/Accumulator/Conservation.antt =====
-- The accounting that the accumulator node,
-- src/go2_perception/go2_perception/mapping_cloud_accumulator_node.py, prints at shutdown.
use mathlib.Core.Path.{subst}
use go2_local_navigation.Prelude.{
  zero, suc, ℕ, ◌⊎◌, ◌+◌, ◌*◌, ◌≤◌, ◌≡◌, refl, sym, ◌∙◌, inl, inr, String, Bool, some, List, [], ok,
  ltb, arith, Bool-cases, bind-returns,
}
use go2_local_navigation.Prelude.Int.{ℤ, pos, negsuc}
use go2_local_navigation.Perception.Message.{PointCloud2}
use go2_local_navigation.Perception.RetryQueue.{
  RetryQueue, MappingCloudAccounting, empty_queue, make_queue, accounting,
}
use go2_local_navigation.Perception.RetryQueue.Accounting.{
  IsAccounted, empty_queue-IsAccounted, waiting-le-length,
}
use go2_local_navigation.Perception.Window.{CloudWindow, make_window}
use go2_local_navigation.Perception.Window.Cadence.{make_window-IsHeld}
use go2_local_navigation.Perception.Accumulator.{
  Ros, AccumulatorNode, make_node, NodeEvent, run, terminal_accounting,
}
use go2_local_navigation.Perception.Accumulator.Loop.{run-Keeps}
use go2_local_navigation.Perception.Accumulator.Balance.{Refusal, Balance}
use go2_local_navigation.Perception.Accumulator.Invariant.{
  IsConserved, process_pending_clouds-IsConserved, on_cloud-IsConserved,
}

module _ {T P : Type 0} (ros : Ros T P) where
  run-IsConserved :
      (es : List (NodeEvent T)) (n : AccumulatorNode)
      → IsConserved ros.fits n
      → (n' : AccumulatorNode) × (run ros es n ≡ some n') × IsConserved ros.fits n'
  run-IsConserved =
      run-Keeps ros (IsConserved ros.fits) (on_cloud-IsConserved ros.fits)
        (process_pending_clouds-IsConserved ros)

make_queue-fresh :
    (capacity emit_every : ℤ) (q : RetryQueue PointCloud2)
    → make_queue capacity emit_every ≡ ok q
    → IsAccounted q × (q.processed ≡ 0) × (q.output_published ≡ 0) × (pos q.emit_every ≡ emit_every)
unfolding make_queue
make_queue-fresh (pos (suc c)) (pos (suc m)) q h =
    let e : empty_queue (suc c) (suc m) ≡ q = ground arith in
    subst
      (λ (q : RetryQueue PointCloud2).
        IsAccounted q
        × (q.processed ≡ 0)
        × (q.output_published ≡ 0)
        × (pos q.emit_every ≡ pos (suc m)))
      e (empty_queue-IsAccounted (suc c) (suc m), refl, refl, refl)
make_queue-fresh (pos (suc c)) (pos zero) q h = cc
make_queue-fresh (pos (suc c)) (negsuc m) q h = cc
make_queue-fresh (pos zero) m q h = cc
make_queue-fresh (negsuc c) m q h = cc

make_window-cadence :
    (frame_limit emit_every : ℤ) (target_frame : String) (w : CloudWindow)
    → make_window frame_limit target_frame emit_every ≡ ok w
    → pos w.emit_every ≡ emit_every
unfolding make_window
make_window-cadence (pos (suc n)) (pos m) t w h = ground arith
make_window-cadence (pos (suc n)) (negsuc m) t w h = absurd (ground arith)
make_window-cadence (pos zero) m t w h = cc
make_window-cadence (negsuc n) m t w h = cc

pub make_node-IsConserved :
    (fits : PointCloud2 → Bool) (frame_limit emit_every : ℤ) (target_frame : String) (capacity : ℤ)
    (n : AccumulatorNode)
    → make_node frame_limit emit_every target_frame capacity ≡ ok n
    → IsConserved fits n
unfolding make_node
make_node-IsConserved fits frame_limit emit_every target_frame capacity n h =
    let (w, h1, ew) = bind-returns (make_window frame_limit target_frame emit_every) _ h in
    let (q, h2, eq) = bind-returns (make_queue {C = PointCloud2} capacity emit_every) _ h1 in
    let m : AccumulatorNode = record {
      target_frame = target_frame;
      window = w;
      retry_queue = q;
      published = [];
    } in
    let e : m ≡ n = ground arith in
    let (held, empty, positive) = make_window-IsHeld frame_limit emit_every target_frame w ew in
    let (accounted, processed, output, cadence) = make_queue-fresh capacity emit_every q eq in
    let same : pos w.emit_every ≡ pos q.emit_every =
      make_window-cadence frame_limit emit_every target_frame w ew ∙ sym cadence in
    subst (IsConserved fits) e (record {
      accounted = accounted;
      held = held;
      same_cadence = cc;
      cadence_pos = positive;
      batch = λ b. inl (rw (processed, output, empty) (omega (arith, b), omega arith));
      sliding = λ b. rw (processed, output);
    })

-- Each frame processed was emitted or is held; or the message class refuses the output of the complete
-- batch that the window holds, whose last frame was dropped.
abbrev pub IsBalanced : (PointCloud2 → Bool) → CloudWindow → MappingCloudAccounting → Type 0
IsBalanced fits w a =
    (a.output_published * a.emit_every + a.partial_frames_not_emitted ≡ a.processed)
    ⊎ ((a.partial_frames_not_emitted ≡ a.emit_every)
        × (a.output_published * a.emit_every + a.partial_frames_not_emitted ≡ a.processed + 1)
        × (1 ≤ a.dropped_unrecoverable)
        × Refusal fits w)

batch_balanced :
    (R : Type 0) (e published held processed dropped : ℕ)
    → Balance R e published held processed dropped
    → (published * e + held ≡ processed)
      ⊎ ((held ≡ e) × (published * e + held ≡ processed + 1) × (1 ≤ dropped) × R)
batch_balanced R e published held processed dropped (inl (_, balanced)) = inl balanced
batch_balanced R e published held processed dropped (inr unsent) = inr unsent

conserved :
    (fits : PointCloud2 → Bool) (n : AccumulatorNode)
    → IsConserved fits n
    → let a = terminal_accounting n in
      (a.processed + a.dropped_unrecoverable + a.dropped_overflow + a.pending_at_shutdown
        ≡ a.received)
      × IsBalanced fits n.window a
      × (a.future_waited
          ≤ a.recovered_after_retry + a.pending_at_shutdown + a.dropped_unrecoverable)
      × (a.recovered_after_retry ≤ a.future_waited)
unfolding terminal_accounting accounting
conserved fits n h = (
  omega (arith, h.accounted.input),
  elim (Bool-cases (ltb 1 n.window.emit_every)) [
    | inl b ↦
        rw (b, ← h.same_cadence)
          (batch_balanced (Refusal fits n.window) _ _ _ _ _ (h.batch (ground (arith, b))))
    | inr b ↦
        let e : n.window.emit_every ≡ 1 = ground (arith, h.cadence_pos) in
        rw (b, ← h.same_cadence) (inl (rw e (omega (arith, h.sliding e))))
  ],
  omega (arith, h.accounted.waited_below, waiting-le-length n.retry_queue.pending),
  omega (arith, h.accounted.waited_above),
)

module _ {T P : Type 0} (ros : Ros T P) where
  -- For a node whose constructor accepts its parameters: any sequence of callbacks returns, the
  -- loop of the timer included, and then the accounting that the node prints at shutdown
  -- conserves input (processed, dropped and pending clouds are those received) and output
  -- (emitted batches and partial frames are the clouds processed), and every cloud that waited
  -- for a transform has been recovered, is pending or was dropped. Output has one exception:
  -- where the message class refuses the output of the complete batch that the window still holds,
  -- it may be one frame above the clouds processed; then the partial frames are a whole batch,
  -- and a cloud was dropped.
  pub run-conserves :
      (frame_limit emit_every : ℤ) (target_frame : String) (capacity : ℤ) (n : AccumulatorNode)
      (es : List (NodeEvent T))
      → make_node frame_limit emit_every target_frame capacity ≡ ok n
      → (n' : AccumulatorNode) × (run ros es n ≡ some n')
        × (let a = terminal_accounting n' in
            (a.processed + a.dropped_unrecoverable + a.dropped_overflow + a.pending_at_shutdown
              ≡ a.received)
            × IsBalanced ros.fits n'.window a
            × (a.future_waited
                ≤ a.recovered_after_retry + a.pending_at_shutdown + a.dropped_unrecoverable)
            × (a.recovered_after_retry ≤ a.future_waited))
  run-conserves frame_limit emit_every target_frame capacity n es h =
      let c = make_node-IsConserved ros.fits frame_limit emit_every target_frame capacity n h in
      let (n', e, k) = run-IsConserved ros es n c in (n', e, conserved ros.fits n' k)
