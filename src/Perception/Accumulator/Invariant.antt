-- ===== src/Perception/Accumulator/Invariant.antt =====
-- The invariant of the accumulator node,
-- src/go2_perception/go2_perception/mapping_cloud_accumulator_node.py, under one pass of its loop and
-- under a message.
use go2_local_navigation.Prelude.{
  ◌+◌, ◌<◌, ◌≤◌, ◌≡◌, Bool, refl, sym, ◌∙◌, inl, inr, Option, some, List, [], ◌∷◌, length, Result,
  ok, err, arith, Bool-cases,
}
use go2_local_navigation.Prelude.Int.{ℤ}
use go2_local_navigation.Perception.Message.{PointCloud2, WindowError, stamp_nanoseconds}
use go2_local_navigation.Perception.RetryQueue.{
  PendingMappingCloud, RetryQueue, enqueue, mark_head_future_waited, drop_head_unrecoverable,
  take_head_for_processing, record_output_publish,
}
use go2_local_navigation.Perception.RetryQueue.Accounting.{
  IsAccounted, enqueue-IsAccounted, mark_head_future_waited-IsAccounted,
  drop_head_unrecoverable-IsAccounted, take_head_for_processing-IsAccounted,
  record_output_publish-IsAccounted,
}
use go2_local_navigation.Perception.Window.{CloudWindow, add}
use go2_local_navigation.Perception.Window.Cadence.{SameWindow, Refused, Outcome, add-Outcome}
use go2_local_navigation.Perception.Accumulator.Balance.{
  Refusal, Balance, Balance-dropped, Balance-held, Balance-emitted, Balance-refused,
}
use go2_local_navigation.Perception.Window.Layout.{IsHeld}
use go2_local_navigation.Perception.Accumulator.{
  Lookup, found, transform_exception, Ros, Buffer, AccumulatorNode, on_cloud, Pass, again,
  is_future_extrapolation, transformed, added, with_cloud, with_transform, pass,
  process_pending_clouds, dropped,
}
use go2_local_navigation.Perception.Accumulator.Loop.{Keeps, process_pending_clouds-Keeps}

pub record IsConserved (fits : PointCloud2 → Bool) (n : AccumulatorNode) : Type 0 where
  pub accounted : IsAccounted n.retry_queue
  pub held : IsHeld n.window
  pub same_cadence : n.window.emit_every ≡ n.retry_queue.emit_every
  pub cadence_pos : 0 < n.window.emit_every
  -- emit_every > 1
  pub batch :
      1 < n.window.emit_every
      → Balance
          (Refusal fits n.window)
          n.window.emit_every
          n.retry_queue.output_published
          (length n.window.clouds)
          n.retry_queue.processed
          n.retry_queue.dropped_unrecoverable
  pub sliding : n.window.emit_every ≡ 1 → n.retry_queue.output_published ≡ n.retry_queue.processed

-- A pass keeps the invariant, and one more cloud has left the queue when the loop goes on.
abbrev pub PassOk : (PointCloud2 → Bool) → AccumulatorNode → Pass → Type 0
PassOk fits = Keeps (IsConserved fits)

module _ (q : RetryQueue PointCloud2) (p : PendingMappingCloud PointCloud2)
    (ps : List (PendingMappingCloud PointCloud2)) (e : q.pending ≡ p ∷ ps) where
  pub drop-fields :
      let q' = (drop_head_unrecoverable q).0 in
      (q'.pending ≡ ps)
      × (q'.processed ≡ q.processed)
      × (q'.output_published ≡ q.output_published)
      × (q'.emit_every ≡ q.emit_every)
      × (q'.dropped_unrecoverable ≡ q.dropped_unrecoverable + 1)
  unfolding drop_head_unrecoverable
  drop-fields = ground arith

  pub take-fields :
      let q' = (take_head_for_processing q).0 in
      (q'.pending ≡ ps)
      × (q'.processed ≡ q.processed + 1)
      × (q'.output_published ≡ q.output_published)
      × (q'.emit_every ≡ q.emit_every)
      × (q.dropped_unrecoverable ≡ q'.dropped_unrecoverable)
  unfolding take_head_for_processing
  take-fields = ground arith

pub publish-fields :
    (stamp : ℤ) (q : RetryQueue PointCloud2)
    → let q' = record_output_publish stamp q in
      (q'.pending ≡ q.pending)
      × (q'.processed ≡ q.processed)
      × (q'.output_published ≡ q.output_published + 1)
      × (q'.emit_every ≡ q.emit_every)
      × (q.dropped_unrecoverable ≡ q'.dropped_unrecoverable)
unfolding record_output_publish
publish-fields stamp q = (refl, refl, refl, refl, refl)

mark-fields :
    (q : RetryQueue PointCloud2)
    → let q' = mark_head_future_waited q in
      (q'.processed ≡ q.processed)
      × (q'.output_published ≡ q.output_published)
      × (q'.emit_every ≡ q.emit_every)
      × (q.dropped_unrecoverable ≡ q'.dropped_unrecoverable)
unfolding mark_head_future_waited
mark-fields q = ground arith

enqueue-fields :
    (c : PointCloud2) (stamp : ℤ) (q : RetryQueue PointCloud2)
    → let q' = (enqueue c stamp q).0 in
      (q'.processed ≡ q.processed)
      × (q'.output_published ≡ q.output_published)
      × (q'.emit_every ≡ q.emit_every)
      × (q.dropped_unrecoverable ≤ q'.dropped_unrecoverable)
unfolding enqueue
enqueue-fields c stamp q = ground arith

module _ {T P : Type 0} (ros : Ros T P) where
  module _ (n : AccumulatorNode) (p : PendingMappingCloud PointCloud2)
      (ps : List (PendingMappingCloud PointCloud2)) (e : n.retry_queue.pending ≡ p ∷ ps)
      (h : IsConserved ros.fits n) where
    dropped-PassOk : PassOk ros.fits n (again (dropped ros n))
    dropped-PassOk =
        let f = drop-fields n.retry_queue p ps e in
        (
          record {
            accounted = drop_head_unrecoverable-IsAccounted n.retry_queue h.accounted;
            held = h.held;
            same_cadence = omega (arith, h.same_cadence, f);
            cadence_pos = h.cadence_pos;
            batch = λ b.
                rw (f.1, f.2)
                  (Balance-dropped (Refusal ros.fits n.window) _ _ _ _ _ (h.batch b) _
                    (omega (arith, f.4)));
            sliding = λ b. rw (f.1, f.2) (h.sliding b);
          },
          ground arith,
        )

    -- The window keeps the cloud that is dropped.
    Refused-PassOk :
        (cloud : PointCloud2) (w' : CloudWindow)
        → IsHeld w'
        → SameWindow n.window w'
        → Refused ros.fits n.window w' cloud
        → PassOk ros.fits n (again (dropped ros (record n { window = w' })))
    Refused-PassOk cloud w' hw s d =
        let f = drop-fields n.retry_queue p ps e in
        (
          record {
            accounted = drop_head_unrecoverable-IsAccounted n.retry_queue h.accounted;
            held = hw;
            same_cadence = omega (arith, h.same_cadence, s.emit_every, f);
            cadence_pos = omega (arith, h.cadence_pos, s.emit_every);
            batch = λ (b : 1 < w'.emit_every).
                let b' : 1 < n.window.emit_every = omega (arith, b, s.emit_every) in
                rw (f.1, f.2, s.emit_every, d.full b')
                  (Balance-refused (Refusal ros.fits n.window) _ _ _ _ _ (h.batch b')
                    (Refusal ros.fits w') (d.complete b') _ (omega (arith, f.4))
                    (d.out, d.output, d.refused));
            sliding = λ (b : w'.emit_every ≡ 1). rw (f.1, f.2) (h.sliding (sym s.emit_every ∙ b));
          },
          ground arith,
        )

    added-PassOk :
        (cloud : PointCloud2) (r : CloudWindow × Result WindowError (Option PointCloud2))
        → Outcome ros.fits cloud n.window r
        → PassOk ros.fits n (added ros r.1 (record n { window = r.0 }))
    unfolding added
    added-PassOk cloud r (inl (x, o, _)) = rw o dropped-PassOk
    added-PassOk cloud r (inr (inl (w', o, hw, s, d))) =
        let f = take-fields n.retry_queue p ps e in
        rw o (
          record {
            accounted = take_head_for_processing-IsAccounted n.retry_queue h.accounted;
            held = hw;
            same_cadence = omega (arith, h.same_cadence, s.emit_every, f);
            cadence_pos = omega (arith, h.same_cadence, h.cadence_pos, s.emit_every);
            batch = λ (b : 1 < w'.emit_every).
                rw (f.1, f.2, ← f.4, s.emit_every, d.grown)
                  (Balance-held (Refusal ros.fits n.window) _ _ _ _ _ (h.batch d.batch)
                    (Refusal ros.fits w') (omega (arith, d.grown, d.incomplete)));
            sliding = λ (b : w'.emit_every ≡ 1). absurd (omega (arith, d.batch, s.emit_every));
          },
          ground arith,
        )
    added-PassOk cloud r (inr (inr (inl (w', o, hw, s, d)))) = rw o (Refused-PassOk cloud w' hw s d)
    added-PassOk cloud r (inr (inr (inr (w', out, o, hw, s, m)))) =
        let f = take-fields n.retry_queue p ps e in
        let q = (take_head_for_processing n.retry_queue).0 in
        let g = publish-fields (stamp_nanoseconds out.header.stamp) q in
        rw o (
          record {
            accounted =
                record_output_publish-IsAccounted q
                  (take_head_for_processing-IsAccounted n.retry_queue h.accounted)
                  (stamp_nanoseconds out.header.stamp);
            held = hw;
            same_cadence = omega (arith, h.same_cadence, s.emit_every, f, g);
            cadence_pos = omega (arith, h.same_cadence, h.cadence_pos, s.emit_every);
            batch = λ (b : 1 < w'.emit_every).
                let b' : 1 < n.window.emit_every = omega (arith, s.emit_every) in
                rw (g.1, g.2, f.1, f.2, ← g.4, ← f.4, s.emit_every, m.cleared b')
                  (Balance-emitted (Refusal ros.fits n.window) _ _ _ _ _ (h.batch b')
                    (Refusal ros.fits (record w' { clouds = [] })) (m.complete b') b');
            sliding = λ (b : w'.emit_every ≡ 1).
                rw (g.1, g.2, f.1, f.2) (omega (arith, h.sliding (sym s.emit_every ∙ b)));
          },
          ground arith,
        )

    marked-IsConserved :
        IsConserved ros.fits (record n { retry_queue = mark_head_future_waited n.retry_queue })
    marked-IsConserved =
        let f = mark-fields n.retry_queue in
        record {
          accounted = mark_head_future_waited-IsAccounted n.retry_queue h.accounted;
          held = h.held;
          same_cadence = omega (arith, h.same_cadence, f);
          cadence_pos = h.cadence_pos;
          batch = λ b. rw (f.0, f.1, ← f.3) (h.batch b);
          sliding = λ b. rw (f.0, f.1) (h.sliding b);
        }

    with_cloud-PassOk :
        (r : Result WindowError PointCloud2) → PassOk ros.fits n (with_cloud ros r n)
    unfolding with_cloud
    with_cloud-PassOk (err x) = dropped-PassOk
    with_cloud-PassOk (ok cloud) =
        added-PassOk cloud (add ros.fits cloud n.window)
          (add-Outcome ros.fits cloud n.window h.held)

    with_transform-PassOk : (t : Lookup T) → PassOk ros.fits n (with_transform ros t p.cloud n)
    unfolding with_transform
    with_transform-PassOk (found t) = with_cloud-PassOk (transformed ros p.cloud t)
    with_transform-PassOk (transform_exception text) =
        elim (Bool-cases (is_future_extrapolation text)) [
          | inl e ↦ rw e marked-IsConserved
          | inr e ↦ rw e dropped-PassOk
        ]

  pub pass-PassOk :
      (buffer : Buffer T) (ps : List (PendingMappingCloud PointCloud2)) (n : AccumulatorNode)
      → n.retry_queue.pending ≡ ps
      → IsConserved ros.fits n
      → PassOk ros.fits n (pass ros buffer ps n)
  unfolding pass
  pass-PassOk buffer [] n e h = h
  pass-PassOk buffer (p ∷ ps) n e h =
      with_transform-PassOk n p ps e h
        (buffer n.target_frame p.cloud.header.frame_id p.cloud.header.stamp)

  pub process_pending_clouds-IsConserved :
      (buffer : Buffer T) (n : AccumulatorNode)
      → IsConserved ros.fits n
      → (n' : AccumulatorNode) × (process_pending_clouds ros buffer n ≡ some n')
        × IsConserved ros.fits n'
  process_pending_clouds-IsConserved buffer n h =
      process_pending_clouds-Keeps ros (IsConserved ros.fits) buffer
        (λ m k. pass-PassOk buffer m.retry_queue.pending m refl k) n h

pub on_cloud-IsConserved :
    (fits : PointCloud2 → Bool) (message : PointCloud2) (n : AccumulatorNode)
    → IsConserved fits n
    → IsConserved fits (on_cloud message n)
unfolding on_cloud
on_cloud-IsConserved fits message n h =
    let stamp = stamp_nanoseconds message.header.stamp in
    let f = enqueue-fields message stamp n.retry_queue in
    record {
      accounted = enqueue-IsAccounted n.retry_queue h.accounted message stamp;
      held = h.held;
      same_cadence = omega (arith, h.same_cadence, f);
      cadence_pos = h.cadence_pos;
      batch =
          λ b. rw (f.0, f.1) (Balance-dropped (Refusal fits n.window) _ _ _ _ _ (h.batch b) _ f.3);
      sliding = λ b. rw (f.0, f.1) (h.sliding b);
    }
