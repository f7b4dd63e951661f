-- ===== src/Validation/Acceptance/Accumulated.antt =====
-- The accounting that the accumulator node prints (src/go2_perception), under the checks of
-- src/go2_validation/go2_validation/mapping_acceptance.py.
use go2_local_navigation.Prelude.{
  ℕ, ◌+◌, ◌*◌, ◌≤◌, ◌≡◌, ◌↔◌, ◌∙◌, sym, ap, String, Bool, true, inl, inr, none, some, List, All, ok,
  arith,
}
use mathlib.Core.Path.{subst}
use go2_local_navigation.Prelude.Int.{ℤ}
use go2_local_navigation.Perception.Message.{Stamp, PointCloud2}
use go2_local_navigation.Perception.RetryQueue.{MappingCloudAccounting}
use go2_local_navigation.Perception.Accumulator.{
  Ros, NodeEvent, AccumulatorNode, make_node, run, terminal_accounting,
}
use go2_local_navigation.Perception.Window.{CloudWindow}
use go2_local_navigation.Perception.Accumulator.Conservation.{IsBalanced, run-conserves}
use go2_local_navigation.Perception.Accumulator.Ordering.{IsStampKeeping, IsGated}
use go2_local_navigation.Perception.Accumulator.Regression.{run-no_regression}
use go2_local_navigation.Validation.Acceptance.{accounting_checks}
use go2_local_navigation.Validation.Acceptance.Verdict.{all_passed, AccountsFor, accounts_iff}

-- What is left of the checks for a node that conserves its clouds.
pub record IsComplete (emit_every clouds : ℕ) (a : MappingCloudAccounting) : Type 0 where
  pub received : a.received ≡ clouds
  pub cadence : a.emit_every ≡ emit_every
  pub unrecoverable : a.dropped_unrecoverable ≡ 0
  pub overflow : a.dropped_overflow ≡ 0
  pub pending : a.pending_at_shutdown ≡ 0

-- Where nothing was dropped, no output was refused.
balanced :
    (fits : PointCloud2 → Bool) (held : CloudWindow) (a : MappingCloudAccounting)
    → IsBalanced fits held a
    → a.dropped_unrecoverable ≡ 0
    → a.output_published * a.emit_every + a.partial_frames_not_emitted ≡ a.processed
balanced fits held a (inl output) none_dropped = output
balanced fits held a (inr (_, _, one, _)) none_dropped = absurd (omega (arith, one, none_dropped))

complete-accounts :
    (fits : PointCloud2 → Bool) (held : CloudWindow) (emit_every clouds : ℕ)
    (a : MappingCloudAccounting)
    → a.processed + a.dropped_unrecoverable + a.dropped_overflow + a.pending_at_shutdown
      ≡ a.received
    → IsBalanced fits held a
    → a.future_waited ≤ a.recovered_after_retry + a.pending_at_shutdown + a.dropped_unrecoverable
    → a.recovered_after_retry ≤ a.future_waited
    → a.output_stamp_regression_count ≡ 0
    → IsComplete emit_every clouds a
    → AccountsFor emit_every clouds 0 a
complete-accounts fits held emit_every clouds a input output waited recovered regressions c =
    record {
      received = c.received;
      input = input;
      output = balanced fits held a output c.unrecoverable;
      cadence = c.cadence;
      unrecoverable = c.unrecoverable;
      overflow = c.overflow;
      pending = c.pending;
      regressions = regressions;
      recovered = omega (arith, waited, recovered, c.unrecoverable, c.pending);
    }

some_eq : (m n : AccumulatorNode) → some m ≡ some n → m ≡ n
some_eq m n h = ap (λ o. elim o [ none ↦ m | some k ↦ k ]) h

module _ {T P : Type 0} (ros : Ros T P) (transform_stamp : T → Stamp)
    (keeping : IsStampKeeping ros transform_stamp) where
  -- For a node whose constructor accepts its parameters, libraries that keep stamps, a buffer
  -- that interpolates at the time asked for, and messages of positive stamp: any callbacks
  -- return, and the node then passes all the accounting checks of a run that expects no
  -- untransformable cloud exactly when it received the clouds expected at the expected cadence,
  -- dropped none and has none pending.
  pub run-IsComplete :
      (frame_limit emit_every : ℤ) (target_frame : String) (capacity : ℤ) (n : AccumulatorNode)
      (es : List (NodeEvent T)) (expected clouds : ℕ)
      → make_node frame_limit emit_every target_frame capacity ≡ ok n
      → All (IsGated transform_stamp) es
      → (n' : AccumulatorNode) × (run ros es n ≡ some n')
        × ((all_passed (accounting_checks expected clouds 0 (terminal_accounting n')) ≡ true)
            ↔ IsComplete expected clouds (terminal_accounting n'))
  run-IsComplete frame_limit emit_every target_frame capacity n es expected clouds h g =
      let (n', e, (i, o, w, r)) =
        run-conserves ros frame_limit emit_every target_frame capacity n es h in
      let (n'', e', z) =
        run-no_regression ros transform_stamp keeping frame_limit emit_every target_frame capacity n
          es h g in
      let same : n'' ≡ n' = some_eq n'' n' (sym e' ∙ e) in
      let a = terminal_accounting n' in
      let regressions : a.output_stamp_regression_count ≡ 0 =
        subst (λ k. (terminal_accounting k).output_stamp_regression_count ≡ 0) same z in
      let (to, from) = accounts_iff expected clouds 0 a in
      (
        n',
        e,
        (
          (λ p.
              let k = to p in
              record {
                received = k.received;
                cadence = k.cadence;
                unrecoverable = k.unrecoverable;
                overflow = k.overflow;
                pending = k.pending;
              }),
          (λ c.
              from (complete-accounts ros.fits n'.window expected clouds a i o w r regressions c)),
        ),
      )
