-- ===== src/Bringup/Topic/Counts.antt =====
-- What the statistics of src/bringup/bringup/preflight_accumulator.py say of the messages seen.
use go2_local_navigation.Prelude.{
  ◌+◌, ◌≤◌, ◌≡◌, ◌⊎◌, ◌∙◌, refl, sym, true, Option, none, some, List, [], ◌∷◌, arith, if◌then◌else◌,
}
use mathlib.Core.Path.{subst}
use go2_local_navigation.Prelude.Int.{ℤ, pos, leb_ℤ, ◌≤ℤ◌}
use go2_local_navigation.Prelude.Ordered.{NotBefore}
use go2_local_navigation.Prelude.Float.{Float, Trig}
use go2_local_navigation.Bringup.Metrics.{frame_passed, schema_passed, timing_passed}
use go2_local_navigation.Bringup.Topic.Frames.{
  FrameMatches, OnlyExpected, expected_frame, passed-OnlyExpected,
}
use go2_local_navigation.Bringup.Topic.{
  TopicContract, ObservedMessage, TopicAccumulator, make_topic, observe, observe_stamp,
  observe_present, observe_receipt, summary, observe_frames, observe_pose, add_frame,
}

-- A stamp that is there and positive is not before the last one.
abbrev pub StampFollows : Option ℤ → Option ℤ → Type 0
StampFollows previous none = Unit
StampFollows previous (some stamp) = (stamp ≤ℤ pos 0) ⊎ NotBefore previous stamp

-- The last positive stamp.
abbrev pub latest : Option ℤ → Option ℤ → Option ℤ
latest previous none = previous
latest previous (some stamp) = if leb_ℤ stamp (pos 0) then previous else some stamp

module _ {F : Type 0} where
  regressions_grow :
      (stamp : Option ℤ) (s : TopicAccumulator F)
      → s.timestamp_regressions ≤ (observe_stamp stamp s).timestamp_regressions
  unfolding observe_stamp
  regressions_grow none s = omega arith
  regressions_grow (some stamp) s = unfold observe_present in ground arith

  stamp-same :
      (stamp : Option ℤ) (s : TopicAccumulator F)
      → (observe_stamp stamp s).timestamp_regressions ≡ s.timestamp_regressions
      → StampFollows s.previous_stamp_nanoseconds stamp
        × ((observe_stamp stamp s).previous_stamp_nanoseconds
            ≡ latest s.previous_stamp_nanoseconds stamp)
  unfolding observe_stamp
  stamp-same none s h = (tt, refl)
  stamp-same (some stamp) s h = unfold observe_present in ground arith

  same-stamp :
      (stamp : Option ℤ) (s : TopicAccumulator F)
      → StampFollows s.previous_stamp_nanoseconds stamp
      → (observe_stamp stamp s).timestamp_regressions ≡ s.timestamp_regressions
  unfolding observe_stamp
  same-stamp none s h = refl
  same-stamp (some stamp) s h = unfold observe_present in ground arith

module _ {F : Type 0} ⦃fl : Float F⦄ ⦃m : Trig F⦄ where
  pub record Observed (x : ObservedMessage F) (s t : TopicAccumulator F) : Type 0 where
    pub contract : t.contract ≡ s.contract
    pub received : t.received_messages ≡ s.received_messages + 1
    pub invalid :
        t.invalid_messages ≡ (if x.is_valid then s.invalid_messages else s.invalid_messages + 1)
    pub frames : t.observed_frames ≡ add_frame x.frame_id s.observed_frames
    pub child_frames : t.observed_child_frames ≡ add_frame x.child_frame_id s.observed_child_frames
    pub regressions :
        t.timestamp_regressions ≡ (observe_stamp x.stamp_nanoseconds s).timestamp_regressions
    pub previous :
        t.previous_stamp_nanoseconds
        ≡ (observe_stamp x.stamp_nanoseconds s).previous_stamp_nanoseconds

  observe-Observed : (x : ObservedMessage F) (s : TopicAccumulator F) → Observed x s (observe x s)
  unfolding observe observe_pose observe_frames observe_stamp observe_receipt
  observe-Observed x s = ground arith

module _ {F : Type 0} ⦃fl : Float F⦄ ⦃m : Trig F⦄ (contract : TopicContract F) where
  unfoldable pub observe_all : List (ObservedMessage F) → TopicAccumulator F → TopicAccumulator F
  observe_all [] s = s
  observe_all (x ∷ xs) s = observe_all xs (observe x s)

  -- messages that are valid, in the frames that the contract names, with stamps in order
  abbrev pub IsClean : Option ℤ → List (ObservedMessage F) → Type 0
  IsClean previous [] = Unit
  IsClean previous (x ∷ xs) =
      (x.is_valid ≡ true)
      × FrameMatches contract.expected_frame x.frame_id
      × FrameMatches contract.expected_child_frame x.child_frame_id
      × StampFollows previous x.stamp_nanoseconds
      × IsClean (latest previous x.stamp_nanoseconds) xs

  record IsPassing (s : TopicAccumulator F) : Type 0 where
    pub invalid : s.invalid_messages ≡ 0
    pub regressions : s.timestamp_regressions ≡ 0
    pub frames : OnlyExpected contract.expected_frame s.observed_frames
    pub child_frames : OnlyExpected contract.expected_child_frame s.observed_child_frames

  observe-IsPassing :
      (x : ObservedMessage F) (s : TopicAccumulator F)
      → IsPassing (observe x s)
      → IsPassing s
        × (x.is_valid ≡ true)
        × FrameMatches contract.expected_frame x.frame_id
        × FrameMatches contract.expected_child_frame x.child_frame_id
        × StampFollows s.previous_stamp_nanoseconds x.stamp_nanoseconds
        × ((observe x s).previous_stamp_nanoseconds
            ≡ latest s.previous_stamp_nanoseconds x.stamp_nanoseconds)
  observe-IsPassing x s h =
      let o = observe-Observed x s in
      let zero : (observe_stamp x.stamp_nanoseconds s).timestamp_regressions ≡ 0 =
        sym o.regressions ∙ h.regressions in
      let before : s.timestamp_regressions ≡ 0 =
        omega (arith, regressions_grow x.stamp_nanoseconds s, zero) in
      let (follows, previous) = stamp-same x.stamp_nanoseconds s (zero ∙ sym before) in
      let (f1, f2) =
        expected_frame contract.expected_frame x.frame_id s.observed_frames
          (subst (OnlyExpected contract.expected_frame) o.frames h.frames) in
      let (c1, c2) =
        expected_frame contract.expected_child_frame x.child_frame_id s.observed_child_frames
          (subst (OnlyExpected contract.expected_child_frame) o.child_frames h.child_frames) in
      let counted : (if x.is_valid then s.invalid_messages else s.invalid_messages + 1) ≡ 0 =
        sym o.invalid ∙ h.invalid in
      (
        record {
          invalid = ground (arith, counted);
          regressions = before;
          frames = f2;
          child_frames = c2;
        },
        ground (arith, counted),
        f1,
        c1,
        follows,
        o.previous ∙ previous,
      )

  observe_all-IsPassing :
      (xs : List (ObservedMessage F)) (s : TopicAccumulator F)
      → IsPassing (observe_all xs s)
      → IsPassing s × IsClean s.previous_stamp_nanoseconds xs
  unfolding observe_all
  observe_all-IsPassing [] s h = (h, tt)
  observe_all-IsPassing (x ∷ xs) s h =
      let (k, clean) = observe_all-IsPassing xs (observe x s) h in
      let (p, v, f, c, t, e) = observe-IsPassing x s k in
      (p, (v, f, c, t, subst (λ q. IsClean q xs) e clean))

  observe_all-contract :
      (xs : List (ObservedMessage F)) (s : TopicAccumulator F)
      → (observe_all xs s).contract ≡ s.contract
  unfolding observe_all
  observe_all-contract [] s = refl
  observe_all-contract (x ∷ xs) s =
      observe_all-contract xs (observe x s) ∙ (observe-Observed x s).contract

  passed-IsPassing :
      (t : TopicAccumulator F)
      → t.contract ≡ contract
      → schema_passed (summary t) ≡ true
      → timing_passed (summary t) ≡ true
      → IsPassing t
  unfolding summary
  passed-IsPassing t e schema timing =
      let frame : frame_passed t.contract.expected_frame t.observed_frames ≡ true = ground arith in
      let child : frame_passed t.contract.expected_child_frame t.observed_child_frames ≡ true =
        ground arith in
      record {
        invalid = ground arith;
        regressions = ground arith;
        frames =
            subst (λ (c : TopicContract F). OnlyExpected c.expected_frame t.observed_frames) e
              (passed-OnlyExpected t.contract.expected_frame t.observed_frames frame);
        child_frames =
            subst
              (λ (c : TopicContract F). OnlyExpected c.expected_child_frame t.observed_child_frames)
              e (passed-OnlyExpected t.contract.expected_child_frame t.observed_child_frames child);
      }

  -- If the schema check and the timing check of a topic pass, then every message that the preflight
  -- saw was valid and in the frames that the contract names, where it had a frame, and the positive
  -- stamps never went back.
  pub passed-IsClean :
      (xs : List (ObservedMessage F))
      → schema_passed (summary (observe_all xs (make_topic contract))) ≡ true
      → timing_passed (summary (observe_all xs (make_topic contract))) ≡ true
      → IsClean none xs
  passed-IsClean xs schema timing =
      let t = observe_all xs (make_topic contract) in
      (observe_all-IsPassing xs (make_topic contract)
        (passed-IsPassing t (observe_all-contract xs (make_topic contract)) schema timing)).1
