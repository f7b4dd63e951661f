-- ===== src/Perception/RetryQueue/Fifo.antt =====
-- The retry queue of src/go2_perception/go2_perception/mapping_cloud_accumulator.py as a queue:
-- clouds leave in the order in which they were accepted.
use go2_local_navigation.Prelude.{
  ℕ, ◌≡◌, refl, false, Option, none, some, List, [], ◌∷◌, ◌++◌, map, arith, ◌∙◌, sym, ap,
}
use mathlib.Core.List.{append_assoc, append-nil, map-append}
use go2_local_navigation.Prelude.Int.{ℤ}
use go2_local_navigation.Perception.RetryQueue.{
  PendingMappingCloud, RetryQueue, DropReason, empty_queue, enqueue, mark_head_future_waited,
  mark_waited, drop_head, take_head, drop_head_unrecoverable, take_head_for_processing,
  record_output_publish,
}
use go2_local_navigation.Perception.RetryQueue.Accounting.{
  IsAccounted, empty_queue-IsAccounted, enqueue-IsAccounted, mark_head_future_waited-IsAccounted,
  drop_head_unrecoverable-IsAccounted, take_head_for_processing-IsAccounted,
  record_output_publish-IsAccounted,
}

-- A call of one of the queue's methods.
pub data Call {ℓ} (C : Type ℓ) : Type ℓ where
  enqueue_call : C → ℤ → Call C
  mark_call drop_call take_call : Call C
  publish_call : ℤ → Call C

module _ {ℓ} {C : Type ℓ} where
  abbrev accepted_by : C → Option DropReason → List C
  accepted_by cloud none = cloud ∷ []
  accepted_by cloud (some reason) = []

  abbrev removed_by : Option (PendingMappingCloud C) → List C
  removed_by none = []
  removed_by (some p) = p.cloud ∷ []

  -- The queue after a call, the clouds that the call accepted and those that it handed out.
  pub call : Call C → RetryQueue C → RetryQueue C × List C × List C
  call (enqueue_call cloud stamp) q =
      let (q', reason) = enqueue cloud stamp q in (q', accepted_by cloud reason, [])
  call mark_call q = (mark_head_future_waited q, [], [])
  call drop_call q = let (q', p) = drop_head_unrecoverable q in (q', [], removed_by p)
  call take_call q = let (q', p) = take_head_for_processing q in (q', [], removed_by p)
  call (publish_call stamp) q = (record_output_publish stamp q, [], [])

  pub calls : List (Call C) → RetryQueue C → RetryQueue C × List C × List C
  calls [] q = (q, [], [])
  calls (c ∷ cs) q =
      let (q', accepted, removed) = call c q in
      let (q'', more_accepted, more_removed) = calls cs q' in
      (q'', accepted ++ more_accepted, removed ++ more_removed)

  abbrev pub queued : RetryQueue C → List C
  queued q = map (λ p. p.cloud) q.pending

  -- Every call keeps the invariant.
  call-IsAccounted : (c : Call C) (q : RetryQueue C) → IsAccounted q → IsAccounted (call c q).0
  unfolding call
  call-IsAccounted (enqueue_call cloud stamp) q h = enqueue-IsAccounted q h cloud stamp
  call-IsAccounted mark_call q h = mark_head_future_waited-IsAccounted q h
  call-IsAccounted drop_call q h = drop_head_unrecoverable-IsAccounted q h
  call-IsAccounted take_call q h = take_head_for_processing-IsAccounted q h
  call-IsAccounted (publish_call stamp) q h = record_output_publish-IsAccounted q h stamp

  calls-IsAccounted :
      (cs : List (Call C)) (q : RetryQueue C) → IsAccounted q → IsAccounted (calls cs q).0
  unfolding calls
  calls-IsAccounted [] q h = h
  calls-IsAccounted (c ∷ cs) q h = calls-IsAccounted cs (call c q).0 (call-IsAccounted c q h)

  queued-drop_head :
      (ps : List (PendingMappingCloud C)) (q : RetryQueue C)
      → q.pending ≡ ps
      → queued q ≡ removed_by (drop_head ps q).1 ++ queued (drop_head ps q).0
  unfolding drop_head
  queued-drop_head [] q e = ap (map (λ (p : PendingMappingCloud C). p.cloud)) (e ∙ sym e)
  queued-drop_head (p ∷ ps) q e = ap (map (λ (p : PendingMappingCloud C). p.cloud)) e

  queued-take_head :
      (ps : List (PendingMappingCloud C)) (q : RetryQueue C)
      → q.pending ≡ ps
      → queued q ≡ removed_by (take_head ps q).1 ++ queued (take_head ps q).0
  unfolding take_head
  queued-take_head [] q e = refl
  queued-take_head (p ∷ ps) q e = ap (map (λ (p : PendingMappingCloud C). p.cloud)) e

  queued-mark_waited :
      (ps : List (PendingMappingCloud C)) (q : RetryQueue C)
      → q.pending ≡ ps
      → queued (mark_waited ps q) ≡ queued q
  unfolding mark_waited
  queued-mark_waited [] q e = refl
  queued-mark_waited (p ∷ ps) q e = ground arith

  queued-call :
      (c : Call C) (q : RetryQueue C)
      → queued q ++ (call c q).1 ≡ (call c q).2 ++ queued (call c q).0
  unfolding call enqueue mark_head_future_waited drop_head_unrecoverable take_head_for_processing
      record_output_publish
  queued-call (enqueue_call cloud stamp) q =
      let p : PendingMappingCloud C = record {
        cloud = cloud;
        source_stamp_nanoseconds = stamp;
        waited_for_future = false;
      } in
      ground (
        arith,
        append-nil (queued q),
        map-append (λ (p : PendingMappingCloud C). p.cloud) q.pending (p ∷ []),
      )
  queued-call mark_call q = rw append-nil (sym (queued-mark_waited q.pending q refl))
  queued-call drop_call q = rw append-nil (queued-drop_head q.pending q refl)
  queued-call take_call q = rw append-nil (queued-take_head q.pending q refl)
  queued-call (publish_call stamp) q = append-nil (queued q)

  queued-calls :
      (cs : List (Call C)) (q : RetryQueue C)
      → queued q ++ (calls cs q).1 ≡ (calls cs q).2 ++ queued (calls cs q).0
  unfolding calls
  queued-calls [] q = append-nil (queued q)
  queued-calls (c ∷ cs) q =
      let (q', a, r) = call c q in
      let (q'', a', r') = calls cs q' in
      sym (append_assoc (queued q) a a')
      ∙ ap (λ (xs : List C). xs ++ a') (queued-call c q)
      ∙ append_assoc r (queued q') a'
      ∙ ap (λ (xs : List C). r ++ xs) (queued-calls cs q')
      ∙ sym (append_assoc r r' (queued q''))

  -- From an empty queue, whatever the calls: the invariant of the accounts holds, and the clouds
  -- accepted are the clouds handed out followed by the clouds still queued, in order.
  pub calls_fifo :
      (cs : List (Call C)) (capacity emit_every : ℕ)
      → let r = calls cs (empty_queue capacity emit_every) in
        IsAccounted r.0 × (r.1 ≡ r.2 ++ queued r.0)
  calls_fifo cs capacity emit_every = (
    calls-IsAccounted cs (empty_queue capacity emit_every)
        (empty_queue-IsAccounted capacity emit_every),
    queued-calls cs (empty_queue capacity emit_every),
  )
