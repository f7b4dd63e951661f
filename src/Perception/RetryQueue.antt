-- ===== src/Perception/RetryQueue.antt =====
-- `MappingCloudRetryQueue` of src/go2_perception/go2_perception/mapping_cloud_accumulator.py.
pub mod Accounting
pub mod Fifo
use go2_local_navigation.Prelude.{
  ℕ, zero, suc, ◌+◌, Bool, true, false, Option, none, some, List, [], ◌∷◌, ◌++◌, length, Result, ok,
  err, leb, if◌then◌else◌,
}
use go2_local_navigation.Prelude.Int.{ℤ, pos, negsuc, leb_ℤ}
use go2_local_navigation.Perception.Message.{
  WindowError, retry_capacity_invalid, emit_every_invalid,
}

pub record PendingMappingCloud {ℓ} (C : Type ℓ) : Type ℓ where
  pub cloud : C
  pub source_stamp_nanoseconds : ℤ
  pub waited_for_future : Bool

-- The constructor keeps `capacity` and `emit_every` positive, so they are stored as numbers.
pub record RetryQueue {ℓ} (C : Type ℓ) : Type ℓ where
  pub capacity : ℕ
  pub emit_every : ℕ
  pub pending : List (PendingMappingCloud C)
  pub largest_source_stamp_nanoseconds : Option ℤ
  pub last_output_stamp_nanoseconds : Option ℤ
  pub received : ℕ
  pub future_waited : ℕ
  pub recovered_after_retry : ℕ
  pub processed : ℕ
  pub output_published : ℕ
  pub dropped_unrecoverable : ℕ
  pub dropped_overflow : ℕ
  pub output_stamp_regression_count : ℕ

pub data DropReason : Type 0 where
  source_stamp_not_increasing queue_capacity_exceeded : DropReason

pub record MappingCloudAccounting : Type 0 where
  pub received : ℕ
  pub future_waited : ℕ
  pub recovered_after_retry : ℕ
  pub processed : ℕ
  pub output_published : ℕ
  pub dropped_unrecoverable : ℕ
  pub dropped_overflow : ℕ
  pub pending_at_shutdown : ℕ
  pub partial_frames_not_emitted : ℕ
  pub emit_every : ℕ
  pub output_stamp_regression_count : ℕ

-- `previous is not None and stamp <= previous`
abbrev pub not_after : ℤ → Option ℤ → Bool
not_after stamp none = false
not_after stamp (some previous) = leb_ℤ stamp previous

abbrev pub empty_queue {ℓ} : {C : Type ℓ} → ℕ → ℕ → RetryQueue C
empty_queue capacity emit_every = record {
  capacity = capacity;
  emit_every = emit_every;
  pending = [];
  largest_source_stamp_nanoseconds = none;
  last_output_stamp_nanoseconds = none;
  received = 0;
  future_waited = 0;
  recovered_after_retry = 0;
  processed = 0;
  output_published = 0;
  dropped_unrecoverable = 0;
  dropped_overflow = 0;
  output_stamp_regression_count = 0;
}

-- `__init__`
unfoldable pub make_queue {ℓ} : {C : Type ℓ} → ℤ → ℤ → Result WindowError (RetryQueue C)
make_queue (pos (suc capacity)) (pos (suc emit_every)) =
    ok (empty_queue (suc capacity) (suc emit_every))
make_queue (pos (suc capacity)) _ = err emit_every_invalid
make_queue _ _ = err retry_capacity_invalid

module _ {ℓ} {C : Type ℓ} where
  unfoldable pub enqueue : C → ℤ → RetryQueue C → RetryQueue C × Option DropReason
  enqueue cloud stamp q0 =
      let q = record q0 { received = q0.received + 1 } in
      if not_after stamp q.largest_source_stamp_nanoseconds
      then (
        record q { dropped_unrecoverable = q.dropped_unrecoverable + 1 },
        some source_stamp_not_increasing,
      )
      else if leb q.capacity (length q.pending)
      then (record q { dropped_overflow = q.dropped_overflow + 1 }, some queue_capacity_exceeded)
      else (
        record q {
          pending =
              q.pending
              ++ record {
                cloud = cloud;
                source_stamp_nanoseconds = stamp;
                waited_for_future = false;
              }
                ∷ [];
          largest_source_stamp_nanoseconds = some stamp;
        },
        none,
      )

  abbrev pub head : RetryQueue C → Option (PendingMappingCloud C)
  head q = elim q.pending [ [] ↦ none | p ∷ ps ↦ some p ]

  mark_waited : List (PendingMappingCloud C) → RetryQueue C → RetryQueue C
  mark_waited [] q = q
  mark_waited (p ∷ ps) q = if p.waited_for_future then q else record q {
    pending = record p { waited_for_future = true } ∷ ps;
    future_waited = q.future_waited + 1;
  }

  unfoldable pub mark_head_future_waited : RetryQueue C → RetryQueue C
  unfolding mark_waited
  mark_head_future_waited q = mark_waited q.pending q

  drop_head :
      List (PendingMappingCloud C) → RetryQueue C → RetryQueue C × Option (PendingMappingCloud C)
  drop_head [] q = (q, none)
  drop_head (p ∷ ps) q =
      (record q { pending = ps; dropped_unrecoverable = q.dropped_unrecoverable + 1 }, some p)

  unfoldable pub drop_head_unrecoverable :
      RetryQueue C → RetryQueue C × Option (PendingMappingCloud C)
  unfolding drop_head
  drop_head_unrecoverable q = drop_head q.pending q

  take_head :
      List (PendingMappingCloud C) → RetryQueue C → RetryQueue C × Option (PendingMappingCloud C)
  take_head [] q = (q, none)
  take_head (p ∷ ps) q = (
    record q {
      pending = ps;
      processed = q.processed + 1;
      recovered_after_retry =
          if p.waited_for_future then q.recovered_after_retry + 1 else q.recovered_after_retry;
    },
    some p,
  )

  unfoldable pub take_head_for_processing :
      RetryQueue C → RetryQueue C × Option (PendingMappingCloud C)
  unfolding take_head
  take_head_for_processing q = take_head q.pending q

  unfoldable pub record_output_publish : ℤ → RetryQueue C → RetryQueue C
  record_output_publish stamp q = record q {
    output_stamp_regression_count =
        if not_after stamp q.last_output_stamp_nanoseconds
        then q.output_stamp_regression_count + 1
        else q.output_stamp_regression_count;
    last_output_stamp_nanoseconds = some stamp;
    output_published = q.output_published + 1;
  }

  unfoldable pub accounting : RetryQueue C → ℕ → MappingCloudAccounting
  accounting q partial_frames_not_emitted = record {
    received = q.received;
    future_waited = q.future_waited;
    recovered_after_retry = q.recovered_after_retry;
    processed = q.processed;
    output_published = q.output_published;
    dropped_unrecoverable = q.dropped_unrecoverable;
    dropped_overflow = q.dropped_overflow;
    pending_at_shutdown = length q.pending;
    partial_frames_not_emitted = partial_frames_not_emitted;
    emit_every = q.emit_every;
    output_stamp_regression_count = q.output_stamp_regression_count;
  }
