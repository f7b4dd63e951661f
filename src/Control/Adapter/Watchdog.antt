-- ===== src/Control/Adapter/Watchdog.antt =====
-- Silence on the command topic (src/go2_control/go2_control/motion_adapter_node.py): the watchdog
-- sends one stop after the timeout, and a command that is rejected does not keep it off.
use mathlib.Core.Path.{subst}
use go2_local_navigation.Prelude.{
  ℕ, ◌+◌, ◌≡◌, refl, sym, Bool, true, false, Option, none, some, List, [], ◌∷◌, All, any, ok, arith,
  if◌then◌else◌, ◌&&◌,
}
use go2_local_navigation.Prelude.Int.{ℤ, sub_ℕ, ◌<ℤ◌, ltb_ℤ}
use go2_local_navigation.Prelude.Float.{Float, IsOrdered, IsRounded}
use go2_local_navigation.Control.Motion.{
  MotionCommand, gate_open, stopped, command_is_finite, assess_motion_input,
}
use go2_local_navigation.Control.Motion.Bounds.{IsValidLimits, IsWithin-finite}
use go2_local_navigation.Control.SportRequest.{build_stop_request}
use go2_local_navigation.Control.Adapter.{
  MotionAdapter, on_twist, on_watchdog, watch, publish, Event, twist, watchdog, step, run,
}
use go2_local_navigation.Control.Adapter.Safety.{IsSafe}

abbrev pub is_watchdog : {F : Type 0} → Event F → Bool
is_watchdog (twist now_ns message) = false
is_watchdog (watchdog now_ns) = true

-- Since `last`, only rejected commands and late ticks of the watchdog.
abbrev pub IsSilent : {F : Type 0} ⦃fl : Float F⦄ → ℕ → ℤ → Event F → Type 0
IsSilent last timeout (twist now_ns message) = command_is_finite message ≡ false
IsSilent last timeout (watchdog now_ns) = timeout <ℤ sub_ℕ now_ns last

module _ {F : Type 0} ⦃fl : Float F⦄ where
  -- The fields that a stop writes.
  record Stopped (s s' : MotionAdapter F) : Type 0 where
    previews : s'.previews ≡ build_stop_request ∷ s.previews
    controls :
        s'.controls ≡ (if gate_open s.gate then build_stop_request ∷ s.controls else s.controls)
    previous : s'.previous_command ≡ stopped
    sent : s'.stop_sent ≡ true
    limits : s'.limits ≡ s.limits
    last : s'.last_command_time_ns ≡ s.last_command_time_ns

  on_twist-rejected :
      (now_ns : ℕ) (message : MotionCommand F) (s : MotionAdapter F)
      → command_is_finite message ≡ false
      → on_twist now_ns message s ≡ ok (record s { rejected_count = s.rejected_count + 1 })
  unfolding on_twist assess_motion_input
  on_twist-rejected now_ns message s h = rw h

  watch-late :
      (last now_ns : ℕ) (s : MotionAdapter F)
      → command_is_finite s.previous_command ≡ true
      → s.stop_sent ≡ false
      → s.control_publisher_created ≡ gate_open s.gate
      → s.limits.timeout_nanoseconds <ℤ sub_ℕ now_ns last
      → (s' : MotionAdapter F) × (watch (some last) now_ns s ≡ ok s') × Stopped s s'
  unfolding watch assess_motion_input
  watch-late last now_ns s f q g h =
      let late : ltb_ℤ s.limits.timeout_nanoseconds (sub_ℕ now_ns last) ≡ true = ground arith in
      (
        record (publish (gate_open s.gate) build_stop_request s) {
          previous_command = stopped;
          stop_sent = true;
        },
        ground arith,
        ground arith,
      )

  watch-sent :
      (last : Option ℕ) (now_ns : ℕ) (s : MotionAdapter F)
      → s.stop_sent ≡ true
      → watch last now_ns s ≡ ok s
  unfolding watch
  watch-sent none now_ns s h = refl
  watch-sent (some last) now_ns s h = rw h

  -- What the topics and the last command look like after a silence, given whether it was noticed.
  pub record After (noticed : Bool) (s s' : MotionAdapter F) : Type 0 where
    pub previews : s'.previews ≡ (if noticed then build_stop_request ∷ s.previews else s.previews)
    pub controls :
        s'.controls
        ≡ (if noticed && gate_open s.gate then build_stop_request ∷ s.controls else s.controls)
    pub previous : s'.previous_command ≡ (if noticed then stopped else s.previous_command)

  silence_sent :
      (last : ℕ) (timeout : ℤ) (es : List (Event F)) (s : MotionAdapter F)
      → s.stop_sent ≡ true
      → All (IsSilent last timeout) es
      → (s' : MotionAdapter F) × (run es s ≡ ok s') × After false s s'
  unfolding run step on_watchdog
  silence_sent last timeout [] s q h = (s, refl, ground arith)
  silence_sent last timeout (twist now_ns message ∷ es) s q h =
      let (s', e, a) =
        silence_sent last timeout es (record s { rejected_count = s.rejected_count + 1 }) q h.1 in
      (
        s',
        rw (on_twist-rejected now_ns message s h.0) e,
        record { previews = a.previews; controls = a.controls; previous = a.previous },
      )
  silence_sent last timeout (watchdog now_ns ∷ es) s q h =
      let (s', e, a) = silence_sent last timeout es s q h.1 in
      (s', rw (watch-sent s.last_command_time_ns now_ns s q) e, a)

  silence :
      (last : ℕ) (es : List (Event F)) (s : MotionAdapter F)
      → command_is_finite s.previous_command ≡ true
      → s.control_publisher_created ≡ gate_open s.gate
      → s.last_command_time_ns ≡ some last
      → s.stop_sent ≡ false
      → All (IsSilent last s.limits.timeout_nanoseconds) es
      → (s' : MotionAdapter F) × (run es s ≡ ok s') × After (any is_watchdog es) s s'
  unfolding run step on_watchdog
  silence last [] s f g l q h = (s, refl, ground arith)
  silence last (twist now_ns message ∷ es) s f g l q h =
      let (s', e, a) =
        silence last es (record s { rejected_count = s.rejected_count + 1 }) f g l q h.1 in
      (
        s',
        rw (on_twist-rejected now_ns message s h.0) e,
        record { previews = a.previews; controls = a.controls; previous = a.previous },
      )
  silence last (watchdog now_ns ∷ es) s f g l q h =
      let (t, et, k) = watch-late last now_ns s f q g h.0 in
      let (u, eu, a) = silence_sent last s.limits.timeout_nanoseconds es t k.sent h.1 in
      let et' = subst (λ (x : Option ℕ). watch x now_ns s ≡ ok t) (sym l) et in
      (u, rw et' eu, ground arith)

  module _ (o : IsOrdered F) (r : IsRounded F) where
    -- With floats that meet the assumptions, in a safe state whose last accepted command was at
    -- a known time and with no stop sent yet, any sequence of rejected commands and of watchdog
    -- ticks later than the timeout sends exactly one stop if there was a tick, on the control
    -- topic only with an open gate, and none otherwise; the stop also clears the command from
    -- which the next one is limited.
    pub silence-stops_once :
        (last : ℕ) (es : List (Event F)) (s : MotionAdapter F)
        → IsValidLimits s.limits
        → IsSafe s
        → s.last_command_time_ns ≡ some last
        → s.stop_sent ≡ false
        → All (IsSilent last s.limits.timeout_nanoseconds) es
        → (s' : MotionAdapter F) × (run es s ≡ ok s') × After (any is_watchdog es) s s'
    silence-stops_once last es s v i l q h =
        silence last es s (IsWithin-finite o r s.limits s.previous_command v i.within) i.owner l q h
