-- ===== src/Control/Motion.antt =====
-- src/go2_control/go2_control/motion_contract.py: one motion command is judged and limited.
pub mod Order
pub mod Bounds
use go2_local_navigation.Prelude.{
  String, Bool, true, false, ◌&&◌, Option, none, some, List, [], ◌∷◌, not, if◌then◌else◌,
}
use go2_local_navigation.Prelude.Int.{ℤ, ltb_ℤ}
use go2_local_navigation.Prelude.Float.{Float, fmin, fmax}

pub data DecisionKind : Type 0 where
  preview ready rejected stop_preview stop_ready : DecisionKind

pub record MotionCommand (F : Type 0) : Type 0 where
  pub velocity_x : F
  pub velocity_y : F
  pub yaw_rate : F

pub record VelocityLimits (F : Type 0) : Type 0 where
  pub forward : F
  pub reverse : F
  pub lateral : F
  pub yaw : F

pub record AccelerationLimits (F : Type 0) : Type 0 where
  pub linear : F
  pub yaw : F

pub record MotionLimits (F : Type 0) : Type 0 where
  pub velocity : VelocityLimits F
  pub acceleration : AccelerationLimits F
  pub timeout_nanoseconds : ℤ

pub record ActuationGate : Type 0 where
  pub output_enabled : Bool
  pub physical_validation_approved : Bool

pub record MotionInput (F : Type 0) : Type 0 where
  pub command : MotionCommand F
  pub age_nanoseconds : ℤ
  pub previous_command : MotionCommand F
  pub elapsed_seconds : F

pub record CommandDecision (F : Type 0) : Type 0 where
  pub kind : DecisionKind
  pub command : Option (MotionCommand F)
  pub errors : List String
  pub should_publish : Bool

abbrev pub gate_open : ActuationGate → Bool
gate_open gate = gate.output_enabled && gate.physical_validation_approved

module _ {F : Type 0} ⦃fl : Float F⦄ where
  pub apply_velocity_limits : MotionCommand F → VelocityLimits F → MotionCommand F
  apply_velocity_limits command limits = record {
    velocity_x = fmin (fmax command.velocity_x (fl.neg limits.reverse)) limits.forward;
    velocity_y = fmin (fmax command.velocity_y (fl.neg limits.lateral)) limits.lateral;
    yaw_rate = fmin (fmax command.yaw_rate (fl.neg limits.yaw)) limits.yaw;
  }

  pub move_toward : F → F → F → F
  move_toward current target maximum_delta =
      fmin (fmax target (fl.sub current maximum_delta)) (fl.add current maximum_delta)

  pub apply_acceleration_limits :
      MotionCommand F → MotionCommand F → F → AccelerationLimits F → MotionCommand F
  apply_acceleration_limits command previous elapsed_seconds limits =
      let linear_delta = fl.mul (fmax elapsed_seconds fl.nought) limits.linear in
      let yaw_delta = fl.mul (fmax elapsed_seconds fl.nought) limits.yaw in
      record {
        velocity_x = move_toward previous.velocity_x command.velocity_x linear_delta;
        velocity_y = move_toward previous.velocity_y command.velocity_y linear_delta;
        yaw_rate = move_toward previous.yaw_rate command.yaw_rate yaw_delta;
      }

  abbrev pub stopped : MotionCommand F
  stopped = record { velocity_x = fl.nought; velocity_y = fl.nought; yaw_rate = fl.nought }

  abbrev pub command_is_finite : MotionCommand F → Bool
  command_is_finite c =
      fl.is_finite c.velocity_x && fl.is_finite c.velocity_y && fl.is_finite c.yaw_rate

  unfoldable pub assess_motion_input :
      MotionInput F → MotionLimits F → ActuationGate → CommandDecision F
  unfolding apply_velocity_limits apply_acceleration_limits move_toward
  assess_motion_input input limits gate =
      if not (command_is_finite input.command)
      then record {
        kind = rejected;
        command = none;
        errors = "command_must_be_finite" ∷ [];
        should_publish = false;
      }
      else if ltb_ℤ limits.timeout_nanoseconds input.age_nanoseconds
      then record {
        kind = if gate_open gate then stop_ready else stop_preview;
        command = some stopped;
        errors = [];
        should_publish = gate_open gate;
      }
      else let bounded = apply_velocity_limits input.command limits.velocity in
        record {
          kind = if gate_open gate then ready else preview;
          command = some (
              apply_acceleration_limits bounded input.previous_command input.elapsed_seconds
                limits.acceleration);
          errors = [];
          should_publish = gate_open gate;
        }
