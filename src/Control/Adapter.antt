-- ===== src/Control/Adapter.antt =====
-- src/go2_control/go2_control/motion_adapter_node.py: the node's state, its two callbacks and what
-- they publish. A reading of `monotonic_ns` is an argument; a topic is the list of its messages,
-- the newest first. Logging is left out.
pub mod Safety
pub mod Watchdog
use go2_local_navigation.Prelude.{
  ℕ, zero, suc, ◌+◌, Bool, true, false, not, ◌&&◌, ◌||◌, Option, none, some, List, [], ◌∷◌, Result,
  ok, err, if◌then◌else◌, ◌>>=◌,
}
use go2_local_navigation.Prelude.Int.{ℤ, pos, sub_ℕ}
use go2_local_navigation.Prelude.Float.{Float}
use go2_local_navigation.Control.Motion.{
  DecisionKind, preview, ready, rejected, stop_preview, stop_ready, MotionCommand, MotionLimits,
  ActuationGate, gate_open, CommandDecision, assess_motion_input, stopped,
}
use go2_local_navigation.Control.SportRequest.{
  SportRequestData, RequestError, build_move_request, build_stop_request,
}

pub record MotionAdapter (F : Type 0) : Type 0 where
  pub limits : MotionLimits F
  pub gate : ActuationGate
  -- `_control_publisher is not None`
  pub control_publisher_created : Bool
  pub previous_command : MotionCommand F
  pub last_command_time_ns : Option ℕ
  pub stop_sent : Bool
  pub rejected_count : ℕ
  pub preview_count : ℕ
  pub published_count : ℕ
  -- what went out on PREVIEW_TOPIC and on CONTROL_TOPIC
  pub previews : List SportRequestData
  pub controls : List SportRequestData

abbrev is_rejected : DecisionKind → Bool
is_rejected rejected = true
is_rejected _ = false

-- `decision.kind in stop_kinds`
abbrev is_stop : DecisionKind → Bool
is_stop stop_preview = true
is_stop stop_ready = true
is_stop _ = false

abbrev nanoseconds_per_second : ℤ
nanoseconds_per_second = pos 1000000000

module _ {F : Type 0} ⦃fl : Float F⦄ where
  -- `__init__`
  unfoldable pub init : MotionLimits F → ActuationGate → MotionAdapter F
  init limits gate = record {
    limits = limits;
    gate = gate;
    control_publisher_created = gate_open gate;
    previous_command = stopped;
    last_command_time_ns = none;
    stop_sent = false;
    rejected_count = 0;
    preview_count = 0;
    published_count = 0;
    previews = [];
    controls = [];
  }

  -- both publishers are called, and both counters count, only once the request is built
  publish : Bool → SportRequestData → MotionAdapter F → MotionAdapter F
  publish should_publish message s =
      let shown = record s {
        previews = message ∷ s.previews;
        preview_count = s.preview_count + 1;
      } in
      if should_publish && s.control_publisher_created
      then record shown { controls = message ∷ s.controls; published_count = s.published_count + 1 }
      else shown

  emit_request :
      CommandDecision F
      → (MotionCommand F → Result RequestError SportRequestData)
      → MotionAdapter F
      → Result RequestError (MotionAdapter F)
  unfolding publish
  emit_request decision builder s = elim decision.command [
    | none ↦ ok s
    | some command ↦ builder command >>= λ message. ok (publish decision.should_publish message s)
  ]

  abbrev elapsed_since : Option ℕ → ℕ → F
  elapsed_since none now_ns = fl.ratio (pos 1) (pos 1)
  elapsed_since (some t) now_ns = fl.ratio (sub_ℕ now_ns t) nanoseconds_per_second

  abbrev keep_command : Option (MotionCommand F) → MotionCommand F → MotionCommand F
  keep_command none previous = previous
  keep_command (some command) previous = command

  abbrev twist_decision : ℕ → MotionCommand F → MotionAdapter F → CommandDecision F
  twist_decision now_ns message s =
      assess_motion_input
        (record {
          command = message;
          age_nanoseconds = pos 0;
          previous_command = s.previous_command;
          elapsed_seconds = elapsed_since s.last_command_time_ns now_ns;
        })
        s.limits s.gate

  unfoldable pub on_twist :
      ℕ → MotionCommand F → MotionAdapter F → Result RequestError (MotionAdapter F)
  unfolding emit_request
  on_twist now_ns message s =
      let decision = twist_decision now_ns message s in
      if is_rejected decision.kind
      then ok (record s { rejected_count = s.rejected_count + 1 })
      else emit_request decision build_move_request s >>= λ s'. ok (record s' {
        previous_command = keep_command decision.command s.previous_command;
        last_command_time_ns = some now_ns;
        stop_sent = false;
      })

  abbrev watchdog_decision : ℕ → ℕ → MotionAdapter F → CommandDecision F
  watchdog_decision last now_ns s =
      assess_motion_input
        (record {
          command = s.previous_command;
          age_nanoseconds = sub_ℕ now_ns last;
          previous_command = s.previous_command;
          elapsed_seconds = fl.ratio (sub_ℕ now_ns last) nanoseconds_per_second;
        })
        s.limits s.gate

  watch : Option ℕ → ℕ → MotionAdapter F → Result RequestError (MotionAdapter F)
  unfolding emit_request
  watch none now_ns s = ok s
  watch (some last) now_ns s =
      let decision = watchdog_decision last now_ns s in
      if s.stop_sent || not (is_stop decision.kind)
      then ok s
      else emit_request decision (λ _. ok build_stop_request) s >>= λ s'.
          ok (record s' { previous_command = stopped; stop_sent = true })

  unfoldable pub on_watchdog : ℕ → MotionAdapter F → Result RequestError (MotionAdapter F)
  unfolding watch
  on_watchdog now_ns s = watch s.last_command_time_ns now_ns s

-- The callbacks that the executor runs, one at a time.
pub data Event (F : Type 0) : Type 0 where
  twist : ℕ → MotionCommand F → Event F
  watchdog : ℕ → Event F

module _ {F : Type 0} ⦃fl : Float F⦄ where
  unfoldable pub step : Event F → MotionAdapter F → Result RequestError (MotionAdapter F)
  unfolding on_twist on_watchdog
  step (twist now_ns message) s = on_twist now_ns message s
  step (watchdog now_ns) s = on_watchdog now_ns s

  unfoldable pub run : List (Event F) → MotionAdapter F → Result RequestError (MotionAdapter F)
  unfolding step
  run [] s = ok s
  run (e ∷ es) s = step e s >>= λ s'. run es s'
