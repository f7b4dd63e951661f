-- ===== src/Estimation/Continuity/Recovery.antt =====
-- What advance_continuity, assess_odometry_loss and mark_odometry_loss of
-- src/go2_state_estimation/go2_state_estimation/odometry_contract.py promise: a stream is healthy,
-- or it waits for a number of valid samples in a row.
use go2_local_navigation.Prelude.{
  ℕ, ◌-◌, ◌≤◌, ◌<◌, ◌≡◌, Bool, true, false, not, ◌||◌, List, [], ◌∷◌, leb, arith, if◌then◌else◌,
  is_none, length, ap, ◌∙◌,
}
use go2_local_navigation.Prelude.Int.{ℤ}
use go2_local_navigation.Prelude.Float.{Float, Trig}
use go2_local_navigation.Estimation.Profile.{ContinuityProfile, suppresses_continuity_failure}
use go2_local_navigation.Estimation.Contract.{OdometrySample}
use go2_local_navigation.Estimation.Continuity.{
  ContinuityState, ContinuityTransition, advance_continuity, assess_sample_continuity,
  mark_odometry_loss, fresh_state,
}

-- The abstract stream: the number of valid samples that it still needs.
pub data Stream : Type 0 where
  healthy : Stream
  needs : ℕ → Stream

-- `n` is the number that the profile asks for.
abbrev pub stream_step : ℕ → Bool → Stream → Stream
stream_step n false t = needs n
stream_step n true healthy = healthy
stream_step n true (needs k) = if leb k 1 then healthy else needs (k - 1)

abbrev pub is_healthy : Stream → Bool
is_healthy healthy = true
is_healthy (needs k) = false

module _ {F : Type 0} ⦃fl : Float F⦄ ⦃m : Trig F⦄ where
  abbrev pub view : ContinuityProfile F → ContinuityState F → Stream
  view p s =
      if s.recovery_required
      then needs (p.recovery_consecutive_valid_samples - s.consecutive_valid_samples)
      else healthy

  abbrev pub is_valid : OdometrySample F → ContinuityState F → ContinuityProfile F → Bool
  is_valid sample s p = (assess_sample_continuity sample s.previous_sample p).continuity_valid

  -- fewer valid samples than the profile asks for are counted, and none outside recovery
  pub record IsCounting (p : ContinuityProfile F) (s : ContinuityState F) : Type 0 where
    pub fewer : s.consecutive_valid_samples < p.recovery_consecutive_valid_samples
    pub idle : s.recovery_required ≡ false → s.consecutive_valid_samples ≡ 0

  pub fresh-IsCounting :
      (p : ContinuityProfile F)
      → 1 ≤ p.recovery_consecutive_valid_samples
      → IsCounting p fresh_state
  fresh-IsCounting p n = ground arith

  -- a failed sample always has a reason
  reasoned :
      (sample : OdometrySample F) (s : ContinuityState F) (p : ContinuityProfile F)
      → is_valid sample s p
        ≡ is_none (assess_sample_continuity sample s.previous_sample p).reason_code
  unfolding assess_sample_continuity
  reasoned sample s p = ground arith

  pub record Advances (p : ContinuityProfile F) (s : ContinuityState F) (valid : Bool)
      (t : ContinuityTransition F) : Type 0 where
    pub counting : IsCounting p t.state
    pub viewed : view p t.state ≡ stream_step p.recovery_consecutive_valid_samples valid (view p s)
    pub healthy_valid : t.assessment.continuity_valid ≡ is_healthy (view p t.state)
    pub reasonless_valid : is_none t.assessment.reason_code ≡ t.assessment.continuity_valid
    pub published :
        t.assessment.publish
        ≡ (t.assessment.continuity_valid || not (suppresses_continuity_failure p))

  -- From a state that counts fewer valid samples than the profile asks for, one sample moves the
  -- stream as the profile says: a valid one is let through only if no other is still needed, a failed one starts the wait for the full number again, and the
  -- output is suppressed exactly when the stream is not healthy and the profile enforces it.
  pub advance_continuity-Advances :
      (s : ContinuityState F) (sample : OdometrySample F) (at : ℤ) (p : ContinuityProfile F)
      → 1 ≤ p.recovery_consecutive_valid_samples
      → IsCounting p s
      → Advances p s (is_valid sample s p) (advance_continuity s sample at p)
  unfolding advance_continuity
  advance_continuity-Advances s sample at p n h = rw (reasoned sample s p) (ground arith)

  -- Loss of the stream starts the wait for valid samples again, from any state.
  pub mark_odometry_loss-needs :
      (s : ContinuityState F) (p : ContinuityProfile F)
      → 1 ≤ p.recovery_consecutive_valid_samples
      → IsCounting p (mark_odometry_loss s)
        × (view p (mark_odometry_loss s) ≡ needs p.recovery_consecutive_valid_samples)
  unfolding mark_odometry_loss
  mark_odometry_loss-needs s p n = (ground arith, ground arith)

-- Waiting for no sample is being healthy.
abbrev pub wait : ℕ → Stream
wait k = if leb k 0 then healthy else needs k

valid_step : (n k : ℕ) (t : Stream) → t ≡ wait k → stream_step n true t ≡ wait (k - 1)
valid_step n k t h = rw h (ground arith)

module _ {F : Type 0} ⦃fl : Float F⦄ ⦃m : Trig F⦄ (p : ContinuityProfile F) where
  abbrev pub advance_all : List (OdometrySample F × ℤ) → ContinuityState F → ContinuityState F
  advance_all [] s = s
  advance_all ((sample, at) ∷ rest) s = advance_all rest (advance_continuity s sample at p).state

  abbrev pub AllValid : List (OdometrySample F × ℤ) → ContinuityState F → Type 0
  AllValid [] s = Unit
  AllValid ((sample, at) ∷ rest) s =
      (is_valid sample s p ≡ true) × AllValid rest (advance_continuity s sample at p).state

  -- From a state that counts fewer valid samples than the profile asks for, samples that are all valid, each after the one before, bring the stream out of its wait after
  -- exactly the number that it still needs, and not one sample sooner.
  pub advance_all-wait :
      (samples : List (OdometrySample F × ℤ)) (s : ContinuityState F) (k : ℕ)
      → 1 ≤ p.recovery_consecutive_valid_samples
      → IsCounting p s
      → view p s ≡ wait k
      → AllValid samples s
      → view p (advance_all samples s) ≡ wait (k - length samples)
  advance_all-wait [] s k n h v a = v ∙ ap wait (omega arith)
  advance_all-wait ((sample, at) ∷ rest) s k n h v a =
      let g = advance_continuity-Advances s sample at p n h in
      let next = (advance_continuity s sample at p).state in
      let viewed : view p next ≡ wait (k - 1) =
        g.viewed
        ∙ ap (λ b. stream_step p.recovery_consecutive_valid_samples b (view p s)) a.0
        ∙ valid_step p.recovery_consecutive_valid_samples k (view p s) v in
      advance_all-wait rest next (k - 1) n g.counting viewed a.1 ∙ ap wait (omega arith)
