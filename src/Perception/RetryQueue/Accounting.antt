-- ===== src/Perception/RetryQueue/Accounting.antt =====
-- The invariant of the retry queue of
-- src/go2_perception/go2_perception/mapping_cloud_accumulator.py: every cloud is counted once,
-- the queue is bounded, ordered by stamp, and only its head has waited.
use go2_local_navigation.Prelude.{
  ℕ, suc, ◌+◌, ◌≤◌, ◌≡◌, refl, false, Option, none, some, List, [], ◌∷◌, ◌++◌, length,
  length-append, All, All-append, arith, if◌then◌else◌,
}
use go2_local_navigation.Prelude.Int.{ℤ, ◌≤ℤ◌, ◌<ℤ◌}
use go2_local_navigation.Perception.RetryQueue.{
  PendingMappingCloud, RetryQueue, drop_head, take_head, empty_queue, not_after, enqueue,
  mark_head_future_waited, drop_head_unrecoverable, take_head_for_processing, record_output_publish,
}

module _ {ℓ} {C : Type ℓ} where
  abbrev pub waiting : List (PendingMappingCloud C) → ℕ
  waiting [] = 0
  waiting (p ∷ ps) = if p.waited_for_future then suc (waiting ps) else waiting ps

  abbrev pub IsFresh : PendingMappingCloud C → Type 0
  IsFresh p = p.waited_for_future ≡ false

  -- Only the head may have waited.
  abbrev pub IsFreshTail : List (PendingMappingCloud C) → Type 0
  IsFreshTail [] = Unit
  IsFreshTail (p ∷ ps) = All IsFresh ps

  abbrev pub AtMost : Option ℤ → PendingMappingCloud C → Type 0
  AtMost none p = ⊥
  AtMost (some m) p = p.source_stamp_nanoseconds ≤ℤ m

  abbrev pub Before : PendingMappingCloud C → PendingMappingCloud C → Type 0
  Before p q = p.source_stamp_nanoseconds <ℤ q.source_stamp_nanoseconds

  -- Stamps increase strictly from the head on, and none is past the largest one seen.
  abbrev pub IsSorted : Option ℤ → List (PendingMappingCloud C) → Type 0
  IsSorted m [] = Unit
  IsSorted m (p ∷ ps) = AtMost m p × All (Before p) ps × IsSorted m ps

  pub record IsAccounted (q : RetryQueue C) : Type 0 where
    pub input :
        q.received ≡ q.processed + q.dropped_unrecoverable + q.dropped_overflow + length q.pending
    pub bounded : length q.pending ≤ q.capacity
    pub fresh_tail : IsFreshTail q.pending
    pub sorted : IsSorted q.largest_source_stamp_nanoseconds q.pending
    pub waited_above : q.recovered_after_retry + waiting q.pending ≤ q.future_waited
    pub waited_below :
        q.future_waited ≤ q.recovered_after_retry + waiting q.pending + q.dropped_unrecoverable
    pub recovered : q.recovered_after_retry ≤ q.processed
    pub regressions : q.output_stamp_regression_count ≤ q.output_published

  pub empty_queue-IsAccounted :
      (capacity emit_every : ℕ) → IsAccounted (empty_queue {C = C} capacity emit_every)
  empty_queue-IsAccounted capacity emit_every = ground arith

  waiting-fresh : (ps : List (PendingMappingCloud C)) → All IsFresh ps → waiting ps ≡ 0
  waiting-fresh [] h = refl
  waiting-fresh (p ∷ ps) h = ground (arith, waiting-fresh ps h.1)

  IsFreshTail-append :
      (ps : List (PendingMappingCloud C)) (p : PendingMappingCloud C)
      → IsFreshTail ps
      → IsFresh p
      → IsFreshTail (ps ++ p ∷ [])
  IsFreshTail-append [] p h f = tt
  IsFreshTail-append (x ∷ ps) p h f = All-append IsFresh ps (p ∷ []) h (f, tt)

  waiting-append :
      (ps : List (PendingMappingCloud C)) (p : PendingMappingCloud C)
      → IsFresh p
      → waiting (ps ++ p ∷ []) ≡ waiting ps
  waiting-append [] p f = ground arith
  waiting-append (x ∷ ps) p f = ground (arith, waiting-append ps p f)

  -- A new stamp past the largest one keeps the order.
  All-Before :
      (x p : PendingMappingCloud C) (ps : List (PendingMappingCloud C))
      → Before x p
      → All (Before x) ps
      → All (Before x) (ps ++ p ∷ [])
  All-Before x p ps b h = All-append (Before x) ps (p ∷ []) h (b, tt)

  pub IsSorted-append :
      (m : Option ℤ) (ps : List (PendingMappingCloud C)) (p : PendingMappingCloud C)
      → not_after p.source_stamp_nanoseconds m ≡ false
      → IsSorted m ps
      → IsSorted (some p.source_stamp_nanoseconds) (ps ++ p ∷ [])
  IsSorted-append m [] p n h = (omega arith, tt, tt)
  IsSorted-append none (x ∷ ps) p n h = absurd h.0
  IsSorted-append (some m) (x ∷ ps) p n h =
      let b : x.source_stamp_nanoseconds <ℤ p.source_stamp_nanoseconds = ground arith in
      (omega arith, All-Before x p ps b h.1, IsSorted-append (some m) ps p n h.2)

  module _ (q : RetryQueue C) (h : IsAccounted q) where
    pub enqueue-IsAccounted : (cloud : C) (stamp : ℤ) → IsAccounted (enqueue cloud stamp q).0
    unfolding enqueue
    enqueue-IsAccounted cloud stamp =
        let p : PendingMappingCloud C = record {
          cloud = cloud;
          source_stamp_nanoseconds = stamp;
          waited_for_future = false;
        } in
        ground (
          arith,
          length-append q.pending (p ∷ []),
          IsFreshTail-append q.pending p h.fresh_tail refl,
          waiting-append q.pending p refl,
          IsSorted-append q.largest_source_stamp_nanoseconds q.pending p,
        )

    pub mark_head_future_waited-IsAccounted : IsAccounted (mark_head_future_waited q)
    unfolding mark_head_future_waited
    mark_head_future_waited-IsAccounted = ground arith

  IsFreshTail-fresh : (ps : List (PendingMappingCloud C)) → All IsFresh ps → IsFreshTail ps
  IsFreshTail-fresh [] h = tt
  IsFreshTail-fresh (p ∷ ps) h = h.1

  module _ (q : RetryQueue C) (h : IsAccounted q) where
    pub record_output_publish-IsAccounted :
        (stamp : ℤ) → IsAccounted (record_output_publish stamp q)
    unfolding record_output_publish
    record_output_publish-IsAccounted stamp = ground arith

  pub drop_head_unrecoverable-IsAccounted :
      (q : RetryQueue C) → IsAccounted q → IsAccounted (drop_head_unrecoverable q).0
  unfolding drop_head_unrecoverable
  drop_head_unrecoverable-IsAccounted q h = go q.pending refl
    where
      go : (ps : List (PendingMappingCloud C)) → q.pending ≡ ps → IsAccounted (drop_head ps q).0
      go [] e = h
      go (p ∷ ps) e = ground (arith, waiting-fresh ps, IsFreshTail-fresh ps)

  pub take_head_for_processing-IsAccounted :
      (q : RetryQueue C) → IsAccounted q → IsAccounted (take_head_for_processing q).0
  unfolding take_head_for_processing
  take_head_for_processing-IsAccounted q h = go q.pending refl
    where
      go : (ps : List (PendingMappingCloud C)) → q.pending ≡ ps → IsAccounted (take_head ps q).0
      go [] e = h
      go (p ∷ ps) e = ground (arith, waiting-fresh ps, IsFreshTail-fresh ps)

  pub waiting-le-length : (ps : List (PendingMappingCloud C)) → waiting ps ≤ length ps
  waiting-le-length [] = omega arith
  waiting-le-length (p ∷ ps) = ground (arith, waiting-le-length ps)
