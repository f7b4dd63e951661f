-- ===== src/Control/Adapter/Safety.antt =====
-- Safety of the motion adapter (src/go2_control/go2_control/motion_adapter_node.py): what reaches
-- the two topics, whatever the order of its callbacks.
use go2_local_navigation.Prelude.{
  ℕ, ◌+◌, ◌^◌, ◌<◌, ◌≡◌, refl, sym, ◌∙◌, not, ◌||◌, ◌⊎◌, inl, inr, Bool, true, false, Option, none,
  some, List, [], ◌∷◌, All, length, ok, arith, if◌then◌else◌, Option-cases, Bool-cases,
}
use go2_local_navigation.Prelude.Int.{pos, sub_ℕ}
use mathlib.Core.Path.{subst}
use go2_local_navigation.Prelude.Float.{Float, IsFinite, IsOrdered, IsRounded}
use go2_local_navigation.Control.Motion.{
  MotionInput, MotionCommand, MotionLimits, ActuationGate, gate_open, stopped, assess_motion_input,
  command_is_finite,
}
use go2_local_navigation.Control.Motion.Bounds.{
  IsValidLimits, IsWithin, stopped-IsWithin, IsWithin-finite, assess_motion_input-IsWithin,
}
use go2_local_navigation.Control.SportRequest.{
  SportRequestData, build_move_request, build_stop_request, move_parameter, move_api_id,
}
use go2_local_navigation.Control.Adapter.{
  MotionAdapter, init, publish, on_twist, watch, Event, twist, watchdog, step, run, twist_decision,
  watchdog_decision, elapsed_since, is_rejected, is_stop,
}

-- A request that may go out: a stop, or a move within the velocity limits.
abbrev pub IsAllowed : {F : Type 0} ⦃fl : Float F⦄ → MotionLimits F → SportRequestData → Type 0
IsAllowed l message =
    (message ≡ build_stop_request)
    ⊎ ((c : MotionCommand _) × IsWithin l.velocity c × (build_move_request c ≡ ok message))

abbrev pub OnClock : ℕ → Type 0
OnClock t = t < 2 ^ 63

-- `monotonic_ns` returns a number of 63 bits.
abbrev pub IsTimed : {F : Type 0} → Event F → Type 0
IsTimed (twist now_ns message) = OnClock now_ns
IsTimed (watchdog now_ns) = OnClock now_ns

abbrev pub LastOnClock : Option ℕ → Type 0
LastOnClock none = Unit
LastOnClock (some t) = OnClock t

pub record IsSafe {F : Type 0} ⦃fl : Float F⦄ (s : MotionAdapter F) : Type 0 where
  pub within : IsWithin s.limits.velocity s.previous_command
  pub on_clock : LastOnClock s.last_command_time_ns
  pub owner : s.control_publisher_created ≡ gate_open s.gate
  pub allowed : All (IsAllowed s.limits) s.previews
  pub controls : s.controls ≡ (if gate_open s.gate then s.previews else [])
  pub preview_count : s.preview_count ≡ length s.previews
  pub published_count : s.published_count ≡ length s.controls

-- The configuration is never written.
pub record SameConfig {F : Type 0} (s t : MotionAdapter F) : Type 0 where
  pub limits : t.limits ≡ s.limits
  pub gate : t.gate ≡ s.gate

module _ {F : Type 0} ⦃fl : Float F⦄ (o : IsOrdered F) (r : IsRounded F) where
  init-IsSafe : (l : MotionLimits F) (gate : ActuationGate) → IsValidLimits l → IsSafe (init l gate)
  unfolding init
  init-IsSafe l gate v = record {
    within = stopped-IsWithin o r l v;
    on_clock = tt;
    owner = refl;
    allowed = tt;
    controls = ground arith;
    preview_count = refl;
    published_count = refl;
  }

  elapsed_since-IsFinite :
      (last : Option ℕ) (now_ns : ℕ)
      → LastOnClock last
      → OnClock now_ns
      → IsFinite {F = F} (elapsed_since last now_ns)
  elapsed_since-IsFinite none now_ns h k =
      r.ratio_finite (pos 1) (pos 1) (omega arith) (omega arith)
  elapsed_since-IsFinite (some t) now_ns h k =
      r.ratio_finite (sub_ℕ now_ns t) (pos 1000000000) (ground arith) (omega arith)

  build_move_request-ok :
      (c : MotionCommand F)
      → command_is_finite c ≡ true
      → build_move_request c ≡ ok (record { api_id = move_api_id; parameter = move_parameter c })
  unfolding build_move_request
  build_move_request-ok c h = rw h

  publish-IsSafe :
      (s : MotionAdapter F) (message : SportRequestData)
      → IsSafe s
      → IsAllowed s.limits message
      → IsSafe (publish (gate_open s.gate) message s)
  unfolding publish
  publish-IsSafe s message h a = ground arith

  publish-SameConfig :
      (b : Bool) (message : SportRequestData) (s : MotionAdapter F)
      → SameConfig s (publish b message s)
  unfolding publish
  publish-SameConfig b message s = ground arith

  -- Callbacks write these three fields after a request has gone out.
  update-IsSafe :
      (s : MotionAdapter F) (c : MotionCommand F) (last : Option ℕ) (sent : Bool)
      → IsSafe s
      → IsWithin s.limits.velocity c
      → LastOnClock last
      → IsSafe (record s { previous_command = c; last_command_time_ns = last; stop_sent = sent })
  update-IsSafe s c last sent h w t = record {
    within = w;
    on_clock = t;
    owner = h.owner;
    allowed = h.allowed;
    controls = h.controls;
    preview_count = h.preview_count;
    published_count = h.published_count;
  }

  published-IsSafe :
      (s : MotionAdapter F) (message : SportRequestData) (c : MotionCommand F) (last : Option ℕ)
      (sent : Bool)
      → IsSafe s
      → IsAllowed s.limits message
      → IsWithin s.limits.velocity c
      → LastOnClock last
      → let t = publish (gate_open s.gate) message s in
        let u = record t { previous_command = c; last_command_time_ns = last; stop_sent = sent } in
        IsSafe u × SameConfig s u
  published-IsSafe s message c last sent h a w t =
      let p = publish (gate_open s.gate) message s in
      let k = publish-SameConfig (gate_open s.gate) message s in
      let w' : IsWithin p.limits.velocity c =
        subst (λ (l : MotionLimits F). IsWithin l.velocity c) (sym k.limits) w in
      (
        update-IsSafe p c last sent (publish-IsSafe s message h a) w' t,
        record { limits = k.limits; gate = k.gate },
      )

  decided :
      (input : MotionInput F) (l : MotionLimits F) (gate : ActuationGate) (c : MotionCommand F)
      → (assess_motion_input input l gate).command ≡ some c
      → (is_rejected (assess_motion_input input l gate).kind ≡ false)
        × ((assess_motion_input input l gate).should_publish ≡ gate_open gate)
  unfolding assess_motion_input
  decided input l gate c h = ground arith

  undecided :
      (input : MotionInput F) (l : MotionLimits F) (gate : ActuationGate)
      → (assess_motion_input input l gate).command ≡ none
      → is_rejected (assess_motion_input input l gate).kind ≡ true
  unfolding assess_motion_input
  undecided input l gate h = ground arith

  stop-some :
      (input : MotionInput F) (l : MotionLimits F) (gate : ActuationGate)
      → is_stop (assess_motion_input input l gate).kind ≡ true
      → (c : MotionCommand F) × ((assess_motion_input input l gate).command ≡ some c)
  unfolding assess_motion_input
  stop-some input l gate h = (stopped, ground arith)

  on_twist-IsSafe :
      (now_ns : ℕ) (message : MotionCommand F) (s : MotionAdapter F)
      → IsValidLimits s.limits
      → OnClock now_ns
      → IsSafe s
      → (s' : MotionAdapter F) × (on_twist now_ns message s ≡ ok s') × IsSafe s' × SameConfig s s'
  unfolding on_twist
  on_twist-IsSafe now_ns message s v n h =
      let d = twist_decision now_ns message s in
      let fe = elapsed_since-IsFinite s.last_command_time_ns now_ns h.on_clock n in
      elim (Option-cases d.command) [
        | inl e ↦ (
          record s { rejected_count = s.rejected_count + 1 },
          rw (undecided _ s.limits s.gate e),
          record {
            within = h.within;
            on_clock = h.on_clock;
            owner = h.owner;
            allowed = h.allowed;
            controls = h.controls;
            preview_count = h.preview_count;
            published_count = h.published_count;
          },
          record { limits = refl; gate = refl },
        )
        | inr (c, e) ↦
            let w = (assess_motion_input-IsWithin o r _ s.limits s.gate c v h.within fe e).0 in
            let b = build_move_request-ok c (IsWithin-finite o r s.limits c v w) in
            let m : SportRequestData = record {
              api_id = move_api_id;
              parameter = move_parameter c;
            } in
            let (k, p) = decided _ s.limits s.gate c e in
            let (safe, same) = published-IsSafe s m c (some now_ns) false h (inr (c, w, b)) w n in
            (
              record (publish (gate_open s.gate) m s) {
                previous_command = c;
                last_command_time_ns = some now_ns;
                stop_sent = false;
              },
              rw (k, e, b, p),
              safe,
              same,
            )
      ]

  watch-IsSafe :
      (last : Option ℕ) (now_ns : ℕ) (s : MotionAdapter F)
      → IsValidLimits s.limits
      → LastOnClock last
      → IsSafe s
      → (s' : MotionAdapter F) × (watch last now_ns s ≡ ok s') × IsSafe s' × SameConfig s s'
  unfolding watch
  watch-IsSafe none now_ns s v n h = (s, refl, h, record { limits = refl; gate = refl })
  watch-IsSafe (some last) now_ns s v n h =
      let d = watchdog_decision last now_ns s in
      elim (Bool-cases (s.stop_sent || not (is_stop d.kind))) [
        | inl quiet ↦ (s, rw quiet, h, record { limits = refl; gate = refl })
        | inr stop ↦
            let z = stopped-IsWithin o r s.limits v in
            let stops : is_stop d.kind ≡ true = ground arith in
            let (c, e) = stop-some _ s.limits s.gate stops in
            let p = (decided _ s.limits s.gate c e).1 in
            let (safe, same) =
              published-IsSafe s build_stop_request stopped s.last_command_time_ns true h (inl refl)
                z h.on_clock in
            (
              record (publish (gate_open s.gate) build_stop_request s) {
                previous_command = stopped;
                last_command_time_ns = s.last_command_time_ns;
                stop_sent = true;
              },
              rw (stop, e, p) (unfold publish in ground arith),
              safe,
              same,
            )
      ]

  -- Every callback returns, keeps the invariant and leaves the configuration alone.
  pub step-IsSafe :
      (e : Event F) (s : MotionAdapter F)
      → IsValidLimits s.limits
      → IsTimed e
      → IsSafe s
      → (s' : MotionAdapter F) × (step e s ≡ ok s') × IsSafe s' × SameConfig s s'
  unfolding step
  step-IsSafe (twist now_ns message) s v n h = on_twist-IsSafe now_ns message s v n h
  step-IsSafe (watchdog now_ns) s v n h =
      watch-IsSafe s.last_command_time_ns now_ns s v h.on_clock h

  run-IsSafe :
      (es : List (Event F)) (s : MotionAdapter F)
      → IsValidLimits s.limits
      → All IsTimed es
      → IsSafe s
      → (s' : MotionAdapter F) × (run es s ≡ ok s') × IsSafe s' × SameConfig s s'
  unfolding run
  run-IsSafe [] s v n h = (s, refl, h, record { limits = refl; gate = refl })
  run-IsSafe (e ∷ es) s v n h =
      let (t, et, ht, kt) = step-IsSafe e s v n.0 h in
      let (u, eu, hu, ku) = run-IsSafe es t (subst IsValidLimits (sym kt.limits) v) n.1 ht in
      (u, rw (et, eu), hu, record { limits = ku.limits ∙ kt.limits; gate = ku.gate ∙ kt.gate })

  -- With floats that meet the assumptions and a clock of 63 bits: from start-up with valid limits,
  -- any sequence of callbacks returns. Then every request on
  -- either topic is a stop or a finite move within the velocity limits, and the control topic
  -- carries what the preview topic carries if both gate flags are set, and nothing otherwise.
  pub run-init-safe :
      (es : List (Event F)) (l : MotionLimits F) (gate : ActuationGate)
      → IsValidLimits l
      → All IsTimed es
      → (s : MotionAdapter F) × (run es (init l gate) ≡ ok s)
        × All (IsAllowed l) s.previews
        × (s.controls ≡ (if gate_open gate then s.previews else []))
        × (s.preview_count ≡ length s.previews)
        × (s.published_count ≡ length s.controls)
  run-init-safe es l gate v n =
      let (s, e, h, k) = run-IsSafe es (init l gate) (unfold init in v) n (init-IsSafe l gate v) in
      let kl : s.limits ≡ l = unfold init in k.limits in
      let kg : s.gate ≡ gate = unfold init in k.gate in
      (
        s,
        e,
        subst (λ l'. All (IsAllowed l') s.previews) kl h.allowed,
        subst (λ (g : ActuationGate). s.controls ≡ (if gate_open g then s.previews else [])) kg
            h.controls,
        h.preview_count,
        h.published_count,
      )
