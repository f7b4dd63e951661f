-- ===== src/Estimation/Adapter/Outcome.antt =====
-- What one callback of src/go2_state_estimation/go2_state_estimation/odometry_adapter_node.py does, on
-- every branch.
use go2_local_navigation.Prelude.{
  ◌+◌, ◌≤◌, ◌≡◌, ◌⊎◌, inl, inr, refl, sym, String, false, not, ◌||◌, Option, some, List, ◌∷◌, arith,
  if◌then◌else◌, is_none,
}
use go2_local_navigation.Prelude.Int.{ℤ}
use go2_local_navigation.Prelude.Float.{Float, Trig}
use go2_local_navigation.Perception.Message.{stamp_nanoseconds}
use go2_local_navigation.Estimation.Profile.{suppresses_continuity_failure}
use go2_local_navigation.Estimation.Contract.{
  IsSound, assess_odometry_adapter, assess_odometry_adapter-Verdict,
}
use go2_local_navigation.Estimation.Continuity.{
  ContinuityState, ContinuityAssessment, advance_continuity,
}
use go2_local_navigation.Estimation.Continuity.Recovery.{
  IsCounting, advance_continuity-Advances, view, is_valid, is_healthy, stream_step, Stream,
}
use go2_local_navigation.Estimation.Adapter.{
  Odometry, OdometryAdapter, on_odometry, judge, expose, sample_of, output_of, transform_of,
}

module _ {F : Type 0} ⦃fl : Float F⦄ ⦃m : Trig F⦄ where
  -- the sample goes no further
  pub record Rejected (s t : OdometryAdapter F) : Type 0 where
    pub rejected : t.rejected_sample_count ≡ s.rejected_sample_count + 1
    pub published : t.published_sample_count ≡ s.published_sample_count
    pub odometry : t.odometry ≡ s.odometry
    pub transforms : t.transforms ≡ s.transforms
    pub loss_reported : t.loss_reported ≡ s.loss_reported
    pub warnings : t.seen_warning_codes ≡ s.seen_warning_codes

  -- one message and one transform go out
  pub record Exposed (message : Odometry F) (s t : OdometryAdapter F) : Type 0 where
    pub rejected : t.rejected_sample_count ≡ s.rejected_sample_count
    pub published : t.published_sample_count ≡ s.published_sample_count + 1
    pub odometry : t.odometry ≡ (output_of message ∷ s.odometry)
    pub transforms : t.transforms ≡ (transform_of message ∷ s.transforms)
    pub loss_reported : t.loss_reported ≡ false

  abbrev pub stream : OdometryAdapter F → Stream
  stream n = view n.continuity_profile n.continuity_state

  pub record Outcome (message : Odometry F) (s t : OdometryAdapter F) : Type 0 where
    pub profile : t.continuity_profile ≡ s.continuity_profile
    pub received : t.received_sample_count ≡ s.received_sample_count + 1
    pub counting : IsCounting t.continuity_profile t.continuity_state
    pub branch :
        ((¬ IsSound (sample_of message) s.previous_timestamp_nanoseconds)
          × (t ≡ record s {
            received_sample_count = s.received_sample_count + 1;
            rejected_sample_count = s.rejected_sample_count + 1;
          }))
        ⊎ (IsSound (sample_of message) s.previous_timestamp_nanoseconds
            × (t.previous_timestamp_nanoseconds ≡ some (stamp_nanoseconds message.header.stamp))
            × (stream t
                ≡ stream_step s.continuity_profile.recovery_consecutive_valid_samples
                    (is_valid (sample_of message) s.continuity_state s.continuity_profile)
                    (stream s))
            × (t.continuity_violation_count ≡ (
                if is_healthy (stream t)
                then s.continuity_violation_count
                else s.continuity_violation_count + 1))
            × (if is_healthy (stream t) || not (suppresses_continuity_failure s.continuity_profile)
                then Exposed message s t
                else Rejected s t))

  judge-branch :
      (a : ContinuityAssessment) (message : Odometry F) (ws : List String) (s : OdometryAdapter F)
      (previous : Option ℤ) (state : ContinuityState F)
      → a.publish ≡ (a.continuity_valid || not (suppresses_continuity_failure s.continuity_profile))
      → is_none a.reason_code ≡ a.continuity_valid
      → let n = record s {
        received_sample_count = s.received_sample_count + 1;
        previous_timestamp_nanoseconds = previous;
        continuity_state = state;
      } in
        let t = judge a message ws n in
        (t.continuity_profile ≡ s.continuity_profile)
        × (t.continuity_state ≡ state)
        × (t.received_sample_count ≡ s.received_sample_count + 1)
        × (t.previous_timestamp_nanoseconds ≡ previous)
        × (t.continuity_violation_count ≡ (
            if a.continuity_valid
            then s.continuity_violation_count
            else s.continuity_violation_count + 1))
        × (if a.continuity_valid || not (suppresses_continuity_failure s.continuity_profile)
            then Exposed message s t
            else Rejected s t)
  unfolding judge expose
  judge-branch a message ws s previous state p r =
      (ground arith, ground arith, ground arith, ground arith, ground arith, ground arith)

  -- One odometry message, from any state that counts fewer valid samples than the profile asks for.
  -- An unsound sample counts as received and rejected, and the state is otherwise the same. A sound
  -- one becomes the last stamp and moves the continuity stream, and counts as a violation unless the
  -- stream is then healthy; one message and one transform go out if it is healthy or the profile only
  -- observes, and otherwise the sample is rejected.
  pub on_odometry-Outcome :
      (message : Odometry F) (now : ℤ) (s : OdometryAdapter F)
      → 1 ≤ s.continuity_profile.recovery_consecutive_valid_samples
      → IsCounting s.continuity_profile s.continuity_state
      → Outcome message s (on_odometry message now s)
  unfolding on_odometry
  on_odometry-Outcome message now s n h =
      elim (assess_odometry_adapter-Verdict (sample_of message) s.previous_timestamp_nanoseconds) [
        | inl (sound, e, _, _, _) ↦
            let sample = sample_of message in
            let g =
              advance_continuity-Advances s.continuity_state sample now s.continuity_profile n h in
            let (kp, ks, kr, kt, kv, kb) =
              judge-branch
                (advance_continuity s.continuity_state sample now s.continuity_profile).assessment
                message (assess_odometry_adapter sample s.previous_timestamp_nanoseconds).warnings s
                (some sample.timestamp_nanoseconds)
                (advance_continuity s.continuity_state sample now s.continuity_profile).state
                g.published g.reasonless_valid in
            record {
              profile = rw e kp;
              received = rw e kr;
              counting = rw e (rw (kp, ks) g.counting);
              branch = inr (
                sound,
                rw e kt,
                rw e (rw (kp, ks) g.viewed),
                rw e (rw (kp, ks, sym g.healthy_valid) kv),
                rw e (rw (kp, ks, sym g.healthy_valid) kb),
              );
            }
        | inr (unsound, e, _, _) ↦ record {
          profile = rw e;
          received = rw e;
          counting = rw e h;
          branch = inl (unsound, rw e refl);
        }
      ]
