-- ===== src/Estimation/Adapter/Accounting.antt =====
-- The counters and the outputs of
-- src/go2_state_estimation/go2_state_estimation/odometry_adapter_node.py, whatever the order of its
-- callbacks.
use go2_local_navigation.Prelude.{
  ◌+◌, ◌≤◌, ◌≡◌, inl, inr, refl, ◌∙◌, Bool, true, not, ◌||◌, Option, List, [], ◌∷◌, map, length,
  arith, if◌then◌else◌, Bool-cases,
}
use mathlib.Core.Path.{subst}
use go2_local_navigation.Prelude.Int.{ℤ, pos, ◌<ℤ◌}
use go2_local_navigation.Prelude.Ordered.{Descending, Descending-later}
use go2_local_navigation.Prelude.Float.{Float, Trig}
use go2_local_navigation.Perception.Message.{stamp_nanoseconds}
use go2_local_navigation.Estimation.Profile.{ContinuityProfile, suppresses_continuity_failure}
use go2_local_navigation.Estimation.Contract.{IsSound, motion_is_finite}
use go2_local_navigation.Estimation.Continuity.{assess_odometry_loss}
use go2_local_navigation.Estimation.Continuity.Recovery.{
  IsCounting, fresh-IsCounting, mark_odometry_loss-needs, is_healthy,
}
use go2_local_navigation.Estimation.Adapter.{
  Odometry, OdometryAdapter, make_adapter, on_odometry, check_loss, Call, receive, timer, call,
  run_calls, sample_of, output_of, transform_of,
}
use go2_local_navigation.Estimation.Adapter.Outcome.{
  Outcome, Exposed, Rejected, stream, on_odometry-Outcome,
}

module _ {F : Type 0} ⦃fl : Float F⦄ where
  pub record IsOutput (o : Odometry F) : Type 0 where
    pub header_odom : o.header.frame_id ≡ "odom"
    pub child_base : o.child_frame_id ≡ "base"
    pub stamp_positive : pos 0 <ℤ stamp_nanoseconds o.header.stamp
    pub motion_finite : motion_is_finite (sample_of o) ≡ true

  abbrev pub stamp_of : Odometry F → ℤ
  stamp_of o = stamp_nanoseconds o.header.stamp

  abbrev pub Published : Option ℤ → List (Odometry F) → Type 0
  Published latest os = Descending IsOutput stamp_of latest os

  sound-IsOutput :
      (message : Odometry F) (previous : Option ℤ)
      → IsSound (sample_of message) previous
      → IsOutput (output_of message)
  unfolding motion_is_finite
  sound-IsOutput message previous h = record {
    header_odom = h.header_odom;
    child_base = refl;
    stamp_positive = h.stamp_positive;
    motion_finite = h.motion_finite;
  }

module _ {F : Type 0} ⦃fl : Float F⦄ ⦃m : Trig F⦄ where
  pub record IsAccounted (n : OdometryAdapter F) : Type 0 where
    pub recovery_positive : 1 ≤ n.continuity_profile.recovery_consecutive_valid_samples
    pub counting : IsCounting n.continuity_profile n.continuity_state
    pub conserved : n.received_sample_count ≡ n.published_sample_count + n.rejected_sample_count
    pub published : n.published_sample_count ≡ length n.odometry
    pub broadcast : n.transforms ≡ map transform_of n.odometry
    pub outputs : Published n.previous_timestamp_nanoseconds n.odometry

  make_adapter-IsAccounted :
      (p : ContinuityProfile F)
      → 1 ≤ p.recovery_consecutive_valid_samples
      → IsAccounted (make_adapter p)
  unfolding make_adapter
  make_adapter-IsAccounted p n = record {
    recovery_positive = n;
    counting = fresh-IsCounting p n;
    conserved = refl;
    published = refl;
    broadcast = refl;
    outputs = tt;
  }

  -- What one message does to the counters and to the outputs.
  Rejected-IsAccounted :
      (message : Odometry F) (s t : OdometryAdapter F)
      → IsAccounted s
      → Outcome message s t
      → Rejected s t
      → Published t.previous_timestamp_nanoseconds s.odometry
      → IsAccounted t
  Rejected-IsAccounted message s t h o r p = record {
    recovery_positive = rw o.profile h.recovery_positive;
    counting = o.counting;
    conserved = omega (arith, o.received, h.conserved, r.rejected, r.published);
    published = rw r.odometry (r.published ∙ h.published);
    broadcast = rw (r.odometry, r.transforms) h.broadcast;
    outputs = rw r.odometry p;
  }

  Exposed-IsAccounted :
      (message : Odometry F) (s t : OdometryAdapter F)
      → IsAccounted s
      → Outcome message s t
      → Exposed message s t
      → Published t.previous_timestamp_nanoseconds (output_of message ∷ s.odometry)
      → IsAccounted t
  Exposed-IsAccounted message s t h o x p = record {
    recovery_positive = rw o.profile h.recovery_positive;
    counting = o.counting;
    conserved = omega (arith, o.received, h.conserved, x.rejected, x.published);
    published = rw x.odometry (omega (arith, x.published, h.published));
    broadcast = rw (x.odometry, x.transforms, h.broadcast) refl;
    outputs = rw x.odometry p;
  }

  unsound-Rejected :
      (s t : OdometryAdapter F)
      → t ≡ record s {
        received_sample_count = s.received_sample_count + 1;
        rejected_sample_count = s.rejected_sample_count + 1;
      }
      → Rejected s t × (t.previous_timestamp_nanoseconds ≡ s.previous_timestamp_nanoseconds)
  unsound-Rejected s t e = (
    record {
      rejected = rw e refl;
      published = rw e refl;
      odometry = rw e refl;
      transforms = rw e refl;
      loss_reported = rw e refl;
      warnings = rw e refl;
    },
    rw e refl,
  )

  on_odometry-IsAccounted :
      (message : Odometry F) (now : ℤ) (s : OdometryAdapter F)
      → IsAccounted s
      → IsAccounted (on_odometry message now s)
  on_odometry-IsAccounted message now s h =
      let t = on_odometry message now s in
      let o = on_odometry-Outcome message now s h.recovery_positive h.counting in
      elim o.branch [
        | inl (_, e) ↦
            let (r, p) = unsound-Rejected s t e in
            Rejected-IsAccounted message s t h o r (rw p h.outputs)
        | inr (sound, p, _, _, e) ↦
            let later =
              Descending-later IsOutput stamp_of s.previous_timestamp_nanoseconds
                (stamp_nanoseconds message.header.stamp) s.odometry sound.stamp_ordered h.outputs in
            elim (Bool-cases
              (is_healthy (stream t) || not (suppresses_continuity_failure s.continuity_profile))) [
                | inl b ↦
                    Exposed-IsAccounted message s t h o
                      (subst (λ (c : Bool). if c then Exposed message s t else Rejected s t) b e)
                      (rw p (
                        sound-IsOutput message s.previous_timestamp_nanoseconds sound,
                        omega arith,
                        later,
                      ))
                | inr b ↦
                    Rejected-IsAccounted message s t h o
                      (subst (λ (c : Bool). if c then Exposed message s t else Rejected s t) b e)
                      (rw p later)
              ]
      ]

  check_loss-IsAccounted :
      (now : ℤ) (s : OdometryAdapter F) → IsAccounted s → IsAccounted (check_loss now s)
  unfolding check_loss
  check_loss-IsAccounted now s h =
      elim (Bool-cases (
        (assess_odometry_loss s.continuity_state now s.continuity_profile).continuity_valid
        || s.loss_reported)) [
          | inl quiet ↦ rw quiet h
          | inr lost ↦ rw lost (record {
            recovery_positive = h.recovery_positive;
            counting =
                (mark_odometry_loss-needs s.continuity_state s.continuity_profile
                  h.recovery_positive).0;
            conserved = h.conserved;
            published = h.published;
            broadcast = h.broadcast;
            outputs = h.outputs;
          })
        ]

  call-IsAccounted : (c : Call F) (s : OdometryAdapter F) → IsAccounted s → IsAccounted (call c s)
  call-IsAccounted (receive message now) s h = on_odometry-IsAccounted message now s h
  call-IsAccounted (timer now) s h = check_loss-IsAccounted now s h

  run_calls-keeps :
      (cs : List (Call F)) (s : OdometryAdapter F) → IsAccounted s → IsAccounted (run_calls cs s)
  unfolding run_calls
  run_calls-keeps [] s h = h
  run_calls-keeps (c ∷ cs) s h = run_calls-keeps cs (call c s) (call-IsAccounted c s h)

  -- From start-up with a profile that asks for at least one sample, whatever the callbacks: every
  -- sample received is published or rejected, each output on `/odom` goes with its transform, and
  -- the outputs are finite, carry the frames odom and base and positive stamps, and never go back
  -- in time.
  pub run_calls-IsAccounted :
      (cs : List (Call F)) (p : ContinuityProfile F)
      → 1 ≤ p.recovery_consecutive_valid_samples
      → IsAccounted (run_calls cs (make_adapter p))
  run_calls-IsAccounted cs p n = run_calls-keeps cs (make_adapter p) (make_adapter-IsAccounted p n)
