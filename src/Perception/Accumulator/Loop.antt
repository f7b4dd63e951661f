-- ===== src/Perception/Accumulator/Loop.antt =====
-- The loop of the accumulator node's timer,
-- src/go2_perception/go2_perception/mapping_cloud_accumulator_node.py, from a rule for its passes.
use go2_local_navigation.Prelude.{ℕ, zero, suc, ◌<◌, ◌≡◌, refl, some, List, [], ◌∷◌, length, arith}
use go2_local_navigation.Perception.Message.{PointCloud2}
use go2_local_navigation.Perception.Accumulator.{
  Ros, Buffer, AccumulatorNode, on_cloud, Pass, again, return, pass, process,
  process_pending_clouds, NodeEvent, cloud_message, retry_timer, run,
}

module _ (Q : AccumulatorNode → Type 0) where
  -- `Q` holds after a pass, and one cloud less is queued where the loop goes on.
  abbrev pub Keeps : AccumulatorNode → Pass → Type 0
  Keeps n (again n') = Q n' × (suc (length n'.retry_queue.pending) ≡ length n.retry_queue.pending)
  Keeps n (return n') = Q n'

module _ {T P : Type 0} (ros : Ros T P) (Q : AccumulatorNode → Type 0) where
  module _ (buffer : Buffer T) where
    abbrev Ends : ℕ → AccumulatorNode → Type 0
    Ends fuel n = (n' : AccumulatorNode) × (process ros fuel buffer n ≡ some n') × Q n'

    pass-Ends :
        (fuel : ℕ) (n : AccumulatorNode)
        → length n.retry_queue.pending < suc fuel
        → ((m : AccumulatorNode) → length m.retry_queue.pending < fuel → Q m → Ends fuel m)
        → (r : Pass) → pass ros buffer n.retry_queue.pending n ≡ r
        → Keeps Q n r
        → Ends (suc fuel) n
    unfolding process
    pass-Ends fuel n l rec (return n') e k = (n', rw (e, process), k)
    pass-Ends fuel n l rec (again n') e k =
        let (n'', e', q) = rec n' (omega (arith, k.1)) k.0 in (n'', rw (e, process) e', q)

    module _
        (keeps : (n : AccumulatorNode)
          → Q n
          → Keeps Q n (pass ros buffer n.retry_queue.pending n)) where
      -- Fuel above the number of queued clouds is enough.
      process-Ends :
          (fuel : ℕ) (n : AccumulatorNode) → length n.retry_queue.pending < fuel → Q n → Ends fuel n
      process-Ends zero n l h = absurd (omega arith)
      process-Ends (suc fuel) n l h =
          pass-Ends fuel n l (process-Ends fuel) (pass ros buffer n.retry_queue.pending n) refl
            (keeps n h)

      pub process_pending_clouds-Keeps :
          (n : AccumulatorNode)
          → Q n
          → (n' : AccumulatorNode) × (process_pending_clouds ros buffer n ≡ some n') × Q n'
      unfolding process_pending_clouds
      process_pending_clouds-Keeps n h =
          process-Ends (suc (length n.retry_queue.pending)) n (omega arith) h

  module _
      (keeps_message : (message : PointCloud2) (n : AccumulatorNode) → Q n → Q (on_cloud message n))
      (keeps_timer : (buffer : Buffer T) (n : AccumulatorNode)
        → Q n
        → (n' : AccumulatorNode) × (process_pending_clouds ros buffer n ≡ some n') × Q n') where
    pub run-Keeps :
        (es : List (NodeEvent T)) (n : AccumulatorNode)
        → Q n
        → (n' : AccumulatorNode) × (run ros es n ≡ some n') × Q n'
    unfolding run
    run-Keeps [] n h = (n, refl, h)
    run-Keeps (cloud_message message ∷ es) n h =
        run-Keeps es (on_cloud message n) (keeps_message message n h)
    run-Keeps (retry_timer buffer ∷ es) n h =
        let (n', e, q) = keeps_timer buffer n h in
        let (n'', e', q') = run-Keeps es n' q in (n'', rw (e, run) e', q')
