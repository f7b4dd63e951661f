-- ===== src/Perception/Accumulator/Ordering.antt =====
-- Order of the accumulated clouds
-- (src/go2_perception/go2_perception/mapping_cloud_accumulator_node.py): the stamps of what is
-- published increase, so the regression counter stays at 0.
use mathlib.Core.Path.{subst}
use go2_local_navigation.Prelude.{
  ◌≡◌, refl, sym, ◌∙◌, ap, inl, inr, String, false, Option, none, some, List, [], ◌∷◌, ◌++◌, All,
  All-append, Result, ok, err, bind-returns, arith, Bool-cases,
}
use go2_local_navigation.Prelude.Int.{ℤ, pos, ◌≤ℤ◌, ◌<ℤ◌}
use go2_local_navigation.Perception.Message.{
  Stamp, Header, PointCloud2, WindowError, assertion_error, stamp_nanoseconds,
}
use go2_local_navigation.Perception.RetryQueue.{
  PendingMappingCloud, RetryQueue, not_after, enqueue, mark_head_future_waited,
  drop_head_unrecoverable, take_head_for_processing, record_output_publish,
}
use go2_local_navigation.Perception.RetryQueue.Accounting.{
  IsSorted, IsSorted-append, AtMost, Before,
}
use go2_local_navigation.Perception.Window.{CloudWindow, add, compact_xyz_cloud}
use go2_local_navigation.Perception.Window.Cadence.{Outcome, add-Outcome}
use go2_local_navigation.Perception.Accumulator.{
  Lookup, found, transform_exception, Ros, Buffer, AccumulatorNode, Pass, again, return,
  is_future_extrapolation, transformed, added, with_cloud, with_transform, NodeEvent, cloud_message,
  retry_timer,
}
use go2_local_navigation.Perception.Window.Layout.{IsHeld}

-- Stamps are positive and are those of the message headers.
abbrev pub IsStamped : PendingMappingCloud PointCloud2 → Type 0
IsStamped p =
    (stamp_nanoseconds p.cloud.header.stamp ≡ p.source_stamp_nanoseconds)
    × (pos 0 <ℤ p.source_stamp_nanoseconds)

abbrev pub After : ℤ → PendingMappingCloud PointCloud2 → Type 0
After m p = m <ℤ p.source_stamp_nanoseconds

-- The last output stamp is before every pending one, and not after the largest one seen.
abbrev pub Past : Option ℤ → Option ℤ → List (PendingMappingCloud PointCloud2) → Type 0
Past none largest ps = Unit
Past (some m) none ps = ⊥
Past (some m) (some l) ps = (m ≤ℤ l) × All (After m) ps

pub record InOrder (q : RetryQueue PointCloud2) : Type 0 where
  pub sorted : IsSorted q.largest_source_stamp_nanoseconds q.pending
  pub stamped : All IsStamped q.pending
  pub past : Past q.last_output_stamp_nanoseconds q.largest_source_stamp_nanoseconds q.pending
  pub regressions : q.output_stamp_regression_count ≡ 0

Past-append :
    (last largest : Option ℤ) (ps : List (PendingMappingCloud PointCloud2))
    (p : PendingMappingCloud PointCloud2)
    → not_after p.source_stamp_nanoseconds largest ≡ false
    → Past last largest ps
    → Past last (some p.source_stamp_nanoseconds) (ps ++ p ∷ [])
Past-append none largest ps p n h = tt
Past-append (some m) none ps p n h = absurd h
Past-append (some m) (some l) ps p n h =
    let k : l <ℤ p.source_stamp_nanoseconds = ground arith in
    (omega (arith, h.0), All-append (After m) ps (p ∷ []) h.1 (omega (arith, h.0), tt))

Past-head :
    (largest : Option ℤ) (p : PendingMappingCloud PointCloud2)
    (ps : List (PendingMappingCloud PointCloud2))
    → AtMost largest p
    → All (Before p) ps
    → Past (some p.source_stamp_nanoseconds) largest ps
Past-head none p ps h k = absurd h
Past-head (some l) p ps h k = (h, k)

Past-increases :
    (last largest : Option ℤ) (p : PendingMappingCloud PointCloud2)
    (ps : List (PendingMappingCloud PointCloud2))
    → Past last largest (p ∷ ps)
    → not_after p.source_stamp_nanoseconds last ≡ false
Past-increases none largest p ps h = refl
Past-increases (some m) none p ps h = absurd h
Past-increases (some m) (some l) p ps h = ground (arith, h.1.0)

pub enqueue-InOrder :
    (c : PointCloud2) (q : RetryQueue PointCloud2)
    → pos 0 <ℤ stamp_nanoseconds c.header.stamp
    → InOrder q
    → InOrder (enqueue c (stamp_nanoseconds c.header.stamp) q).0
unfolding enqueue
enqueue-InOrder c q positive h =
    let p : PendingMappingCloud PointCloud2 = record {
      cloud = c;
      source_stamp_nanoseconds = stamp_nanoseconds c.header.stamp;
      waited_for_future = false;
    } in
    ground (
      arith,
      IsSorted-append q.largest_source_stamp_nanoseconds q.pending p,
      All-append IsStamped q.pending (p ∷ []) h.stamped ((refl, positive), tt),
      Past-append q.last_output_stamp_nanoseconds q.largest_source_stamp_nanoseconds q.pending p,
    )

module _ (q : RetryQueue PointCloud2) (h : InOrder q) where
  mark-InOrder : InOrder (mark_head_future_waited q)
  unfolding mark_head_future_waited
  mark-InOrder = ground arith

module _ (q : RetryQueue PointCloud2) (h : InOrder q) (p : PendingMappingCloud PointCloud2)
    (ps : List (PendingMappingCloud PointCloud2)) (e : q.pending ≡ p ∷ ps) where
  drop-InOrder : InOrder (drop_head_unrecoverable q).0
  unfolding drop_head_unrecoverable
  drop-InOrder = ground arith

  take-InOrder : InOrder (take_head_for_processing q).0
  unfolding take_head_for_processing
  take-InOrder = ground arith

  -- The head's stamp, once the head is taken, is a stamp to publish.
  publish-InOrder :
      InOrder (record_output_publish p.source_stamp_nanoseconds (take_head_for_processing q).0)
  unfolding take_head_for_processing record_output_publish
  publish-InOrder =
      let s = subst (IsSorted q.largest_source_stamp_nanoseconds) e h.sorted in
      let t =
        subst (Past q.last_output_stamp_nanoseconds q.largest_source_stamp_nanoseconds) e h.past in
      ground (
        arith,
        Past-head q.largest_source_stamp_nanoseconds p ps s.0 s.1,
        Past-increases q.last_output_stamp_nanoseconds q.largest_source_stamp_nanoseconds p ps t,
      )

-- What the node relies on in the libraries that it calls: a compact cloud has the header that it is
-- given, a transformed cloud has the stamp of the transform, and the buffer interpolates at the
-- positive time that it is asked for.
pub record IsStampKeeping {T P : Type 0} (ros : Ros T P) (transform_stamp : T → Stamp)
    : Type 0 where
  pub create_keeps : (h : Header) (p : P) → (ros.create_cloud_xyz32 h p).header ≡ h
  pub transform_keeps :
      (c : PointCloud2) (t : T) (out : PointCloud2)
      → ros.do_transform_cloud c t ≡ some out
      → out.header.stamp ≡ transform_stamp t

abbrev pub IsInterpolating : {T : Type 0} → (T → Stamp) → Buffer T → Type 0
IsInterpolating {T} transform_stamp buffer =
    (target source : String) (stamp : Stamp) (t : T)
    → pos 0 <ℤ stamp_nanoseconds stamp
    → buffer target source stamp ≡ found t
    → transform_stamp t ≡ stamp

-- Messages have positive stamps, as the mapping cloud gate requires.
abbrev pub IsGated : {T : Type 0} → (T → Stamp) → NodeEvent T → Type 0
IsGated transform_stamp (cloud_message message) = pos 0 <ℤ stamp_nanoseconds message.header.stamp
IsGated transform_stamp (retry_timer buffer) = IsInterpolating transform_stamp buffer

abbrev pub Ordered : AccumulatorNode → Type 0
Ordered n = InOrder n.retry_queue

abbrev pub NextOrdered : Pass → Type 0
NextOrdered (again n') = Ordered n'
NextOrdered (return n') = Ordered n'

module _ {T P : Type 0} (ros : Ros T P) (transform_stamp : T → Stamp)
    (keeping : IsStampKeeping ros transform_stamp) where
  transformed-stamp :
      (c : PointCloud2) (t : T) (out : PointCloud2)
      → transformed ros c t ≡ ok out
      → out.header.stamp ≡ transform_stamp t
  unfolding transformed
  transformed-stamp c t out h =
      let (compact, h1, e) =
        bind-returns (compact_xyz_cloud ros.read_points_list ros.create_cloud_xyz32 c) _ h in
      go (ros.do_transform_cloud compact t) refl h1
    where
      go :
          {compact : PointCloud2}
          → (o : Option PointCloud2) → ros.do_transform_cloud compact t ≡ o
          → elim o [ none ↦ err assertion_error | some c ↦ ok c ] ≡ ok out
          → out.header.stamp ≡ transform_stamp t
      go none e h = cc
      go {compact} (some d) e h =
          let k : d ≡ out = ground arith in
          subst (λ (d : PointCloud2). d.header.stamp ≡ transform_stamp t) k
            (keeping.transform_keeps compact t d e)

  module _ (n : AccumulatorNode) (p : PendingMappingCloud PointCloud2)
      (ps : List (PendingMappingCloud PointCloud2)) (e : n.retry_queue.pending ≡ p ∷ ps)
      (held : IsHeld n.window) (h : Ordered n) where
    added-Ordered :
        (cloud : PointCloud2) (r : CloudWindow × Result WindowError (Option PointCloud2))
        → cloud.header.stamp ≡ p.cloud.header.stamp
        → Outcome ros.fits cloud n.window r
        → NextOrdered (added ros r.1 (record n { window = r.0 }))
    unfolding added
    added-Ordered cloud r s (inl (x, o, _)) = rw o (drop-InOrder n.retry_queue h p ps e)
    added-Ordered cloud r s (inr (inl (w', o, _, _, _))) =
        rw o (take-InOrder n.retry_queue h p ps e)
    added-Ordered cloud r s (inr (inr (inl (w', o, _, _, _)))) =
        rw o (drop-InOrder n.retry_queue h p ps e)
    added-Ordered cloud r s (inr (inr (inr (w', out, o, _, _, m)))) =
        let st = subst (All IsStamped) e h.stamped in
        let k : stamp_nanoseconds out.header.stamp ≡ p.source_stamp_nanoseconds =
          ap stamp_nanoseconds (m.stamp ∙ s) ∙ st.0.0 in
        rw o (
          subst
            (λ (z : ℤ).
              InOrder (record_output_publish z (take_head_for_processing n.retry_queue).0))
            (sym k) (publish-InOrder n.retry_queue h p ps e))

    with_cloud-Ordered :
        (r : Result WindowError PointCloud2)
        → ((c : PointCloud2) → r ≡ ok c → c.header.stamp ≡ p.cloud.header.stamp)
        → NextOrdered (with_cloud ros r n)
    unfolding with_cloud
    with_cloud-Ordered (err x) s = drop-InOrder n.retry_queue h p ps e
    with_cloud-Ordered (ok cloud) s =
        added-Ordered cloud (add ros.fits cloud n.window) (s cloud refl)
          (add-Outcome ros.fits cloud n.window held)

    pub with_transform-Ordered :
        (l : Lookup T)
        → ((t : T) → l ≡ found t → transform_stamp t ≡ p.cloud.header.stamp)
        → NextOrdered (with_transform ros l p.cloud n)
    unfolding with_transform
    with_transform-Ordered (found t) s =
        with_cloud-Ordered (transformed ros p.cloud t)
          (λ c q. transformed-stamp p.cloud t c q ∙ s t refl)
    with_transform-Ordered (transform_exception text) s =
        elim (Bool-cases (is_future_extrapolation text)) [
          | inl f ↦ rw f (mark-InOrder n.retry_queue h)
          | inr f ↦ rw f (drop-InOrder n.retry_queue h p ps e)
        ]
