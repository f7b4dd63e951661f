-- ===== src/Control/Motion/Bounds.antt =====
-- Limits on whole commands (src/go2_control/go2_control/motion_contract.py): velocities, steps
-- and the decision that carries them.
use go2_local_navigation.Prelude.{
  ◌≡◌, ◌↔◌, ◌⊎◌, refl, Bool, true, false, none, some, arith, Bool-cases, inl, inr,
}
use go2_local_navigation.Prelude.Int.{ltb_ℤ}
use go2_local_navigation.Prelude.Float.{Float, fmax, ◌≼◌, IsFinite, IsOrdered, IsRounded}
use go2_local_navigation.Control.Motion.{
  rejected, ready, stop_ready, stop_preview, MotionCommand, VelocityLimits, MotionLimits,
  ActuationGate, CommandDecision, MotionInput, assess_motion_input, apply_velocity_limits,
  apply_acceleration_limits, command_is_finite, stopped,
}
use go2_local_navigation.Control.Motion.Order.{
  Between, clamp-Between, move_toward-Between, move_toward-within_delta, le-fmax,
}

-- The configured limits are finite and at least 0.
pub record IsValidLimits {F : Type 0} ⦃fl : Float F⦄ (l : MotionLimits F) : Type 0 where
  pub forward_finite : IsFinite l.velocity.forward
  pub reverse_finite : IsFinite l.velocity.reverse
  pub lateral_finite : IsFinite l.velocity.lateral
  pub yaw_finite : IsFinite l.velocity.yaw
  pub linear_finite : IsFinite l.acceleration.linear
  pub yaw_rate_finite : IsFinite l.acceleration.yaw
  pub forward_pos : fl.nought ≼ l.velocity.forward
  pub reverse_pos : fl.nought ≼ l.velocity.reverse
  pub lateral_pos : fl.nought ≼ l.velocity.lateral
  pub yaw_pos : fl.nought ≼ l.velocity.yaw
  pub linear_pos : fl.nought ≼ l.acceleration.linear
  pub yaw_rate_pos : fl.nought ≼ l.acceleration.yaw

-- Every axis of a command lies in its configured range.
pub record IsWithin {F : Type 0} ⦃fl : Float F⦄ (l : VelocityLimits F) (c : MotionCommand F)
    : Type 0 where
  pub x : Between (fl.neg l.reverse) l.forward c.velocity_x
  pub y : Between (fl.neg l.lateral) l.lateral c.velocity_y
  pub yaw : Between (fl.neg l.yaw) l.yaw c.yaw_rate

-- Every axis has moved from `p` to `c` by at most its own delta.
pub record IsStep {F : Type 0} ⦃fl : Float F⦄ (linear yaw : F) (p c : MotionCommand F)
    : Type 0 where
  pub x : Between (fl.sub p.velocity_x linear) (fl.add p.velocity_x linear) c.velocity_x
  pub y : Between (fl.sub p.velocity_y linear) (fl.add p.velocity_y linear) c.velocity_y
  pub yaw_rate : Between (fl.sub p.yaw_rate yaw) (fl.add p.yaw_rate yaw) c.yaw_rate

module _ {F : Type 0} ⦃fl : Float F⦄ (o : IsOrdered F) (r : IsRounded F) where
  -- A range with 0 inside is no empty range.
  range : (a b : F) → fl.nought ≼ a → fl.nought ≼ b → fl.neg a ≼ b
  range a b ha hb = o.le_trans (fl.neg a) fl.nought b (r.neg_nonpos a ha) hb

  pub stopped-IsWithin : (l : MotionLimits F) → IsValidLimits l → IsWithin l.velocity stopped
  stopped-IsWithin l v =
      let n = r.neg_nonpos in
      record {
        x = record { above = n l.velocity.reverse v.reverse_pos; below = v.forward_pos };
        y = record { above = n l.velocity.lateral v.lateral_pos; below = v.lateral_pos };
        yaw = record { above = n l.velocity.yaw v.yaw_pos; below = v.yaw_pos };
      }

  apply_velocity_limits-IsWithin :
      (l : MotionLimits F) (c : MotionCommand F)
      → IsValidLimits l
      → command_is_finite c ≡ true
      → IsWithin l.velocity (apply_velocity_limits c l.velocity)
  unfolding apply_velocity_limits
  apply_velocity_limits-IsWithin l c v f = record {
    x =
        clamp-Between o _ _ _ (o.finite_number c.velocity_x (ground arith))
          (range l.velocity.reverse l.velocity.forward v.reverse_pos v.forward_pos);
    y =
        clamp-Between o _ _ _ (o.finite_number c.velocity_y (ground arith))
          (range l.velocity.lateral l.velocity.lateral v.lateral_pos v.lateral_pos);
    yaw =
        clamp-Between o _ _ _ (o.finite_number c.yaw_rate (ground arith))
          (range l.velocity.yaw l.velocity.yaw v.yaw_pos v.yaw_pos);
  }

  -- A command within finite limits is finite on every axis.
  pub IsWithin-finite :
      (l : MotionLimits F) (c : MotionCommand F)
      → IsValidLimits l
      → IsWithin l.velocity c
      → command_is_finite c ≡ true
  IsWithin-finite l c v w = ground (
    arith,
    r.finite_between (fl.neg l.velocity.reverse) c.velocity_x l.velocity.forward
        (r.finite_neg l.velocity.reverse v.reverse_finite) v.forward_finite w.x.above w.x.below,
    r.finite_between (fl.neg l.velocity.lateral) c.velocity_y l.velocity.lateral
        (r.finite_neg l.velocity.lateral v.lateral_finite) v.lateral_finite w.y.above w.y.below,
    r.finite_between (fl.neg l.velocity.yaw) c.yaw_rate l.velocity.yaw
        (r.finite_neg l.velocity.yaw v.yaw_finite) v.yaw_finite w.yaw.above w.yaw.below,
  )

  elapsed_nonneg :
      (e : F) → IsFinite e → (fl.nought ≼ fmax e fl.nought) × IsFinite (fmax e fl.nought)
  elapsed_nonneg e f = ground (
    arith,
    r.nought_finite,
    le-fmax o e fl.nought (o.finite_number e f) (o.finite_number fl.nought r.nought_finite),
  )

  delta_nonneg :
      (e a : F) → IsFinite e → IsFinite a → fl.nought ≼ a → fl.nought ≼ fl.mul (fmax e fl.nought) a
  delta_nonneg e a fe fa pa =
      let (p, q) = elapsed_nonneg e fe in r.mul_nonneg (fmax e fl.nought) a q fa p pa

  module _ (l : MotionLimits F) (c p : MotionCommand F) (e : F) (v : IsValidLimits l)
      (wc : IsWithin l.velocity c) (wp : IsWithin l.velocity p) (fe : IsFinite e) where
    apply_acceleration_limits-IsWithin :
        IsWithin l.velocity (apply_acceleration_limits c p e l.acceleration)
    unfolding apply_acceleration_limits
    apply_acceleration_limits-IsWithin =
        let f = IsWithin-finite l p v wp in
        let d = delta_nonneg e l.acceleration.linear fe v.linear_finite v.linear_pos in
        let dy = delta_nonneg e l.acceleration.yaw fe v.yaw_rate_finite v.yaw_rate_pos in
        record {
          x = move_toward-Between o r _ _ p.velocity_x c.velocity_x _ wp.x wc.x (ground arith) d;
          y = move_toward-Between o r _ _ p.velocity_y c.velocity_y _ wp.y wc.y (ground arith) d;
          yaw = move_toward-Between o r _ _ p.yaw_rate c.yaw_rate _ wp.yaw wc.yaw (ground arith) dy;
        }

    apply_acceleration_limits-IsStep :
        IsStep
          (fl.mul (fmax e fl.nought) l.acceleration.linear)
          (fl.mul (fmax e fl.nought) l.acceleration.yaw)
          p
          (apply_acceleration_limits c p e l.acceleration)
    unfolding apply_acceleration_limits
    apply_acceleration_limits-IsStep =
        let f = IsWithin-finite l p v wp in
        let d = delta_nonneg e l.acceleration.linear fe v.linear_finite v.linear_pos in
        let dy = delta_nonneg e l.acceleration.yaw fe v.yaw_rate_finite v.yaw_rate_pos in
        record {
          x =
              move_toward-within_delta o r p.velocity_x c.velocity_x _ (ground arith)
                (o.number_of_le _ _ wc.x.below).0 d;
          y =
              move_toward-within_delta o r p.velocity_y c.velocity_y _ (ground arith)
                (o.number_of_le _ _ wc.y.below).0 d;
          yaw_rate =
              move_toward-within_delta o r p.yaw_rate c.yaw_rate _ (ground arith)
                (o.number_of_le _ _ wc.yaw.below).0 dy;
        }

  -- With floats that meet the assumptions, valid limits, a finite elapsed time and a previous command
  -- within them: the
  -- command of a decision, if it has one, is within the velocity limits and
  -- is the stop command or one step of the configured acceleration away from the previous one.
  pub assess_motion_input-IsWithin :
      (input : MotionInput F) (l : MotionLimits F) (gate : ActuationGate) (c : MotionCommand F)
      → IsValidLimits l
      → IsWithin l.velocity input.previous_command
      → IsFinite input.elapsed_seconds
      → (assess_motion_input input l gate).command ≡ some c
      → IsWithin l.velocity c
        × ((c ≡ stopped)
            ⊎ IsStep
                (fl.mul (fmax input.elapsed_seconds fl.nought) l.acceleration.linear)
                (fl.mul (fmax input.elapsed_seconds fl.nought) l.acceleration.yaw)
                input.previous_command
                c)
  unfolding assess_motion_input
  assess_motion_input-IsWithin input l gate c v wp fe h =
      elim (Bool-cases (command_is_finite input.command)) [
        | inr bad ↦ absurd (ground arith)
        | inl fin ↦ elim (Bool-cases (ltb_ℤ l.timeout_nanoseconds input.age_nanoseconds)) [
          | inl late ↦
              let e : stopped ≡ c = ground arith in rw (← e) (stopped-IsWithin l v, inl refl)
          | inr fresh ↦
              let b = apply_velocity_limits input.command l.velocity in
              let w = apply_velocity_limits-IsWithin l input.command v fin in
              let e : apply_acceleration_limits b input.previous_command input.elapsed_seconds
                    l.acceleration
                  ≡ c =
                ground arith in
              rw (← e) (
                apply_acceleration_limits-IsWithin l b input.previous_command input.elapsed_seconds
                    v w wp fe,
                inr (
                    apply_acceleration_limits-IsStep l b input.previous_command
                      input.elapsed_seconds v w wp fe),
              )
        ]
      ]

-- What a decision says beside its command.
pub record IsConsistent {F : Type 0} ⦃fl : Float F⦄ (input : MotionInput F) (gate : ActuationGate)
    (timeout_passed : Bool) (d : CommandDecision F) : Type 0 where
  pub rejected_iff : (d.kind ≡ rejected) ↔ (command_is_finite input.command ≡ false)
  pub command_iff : (d.command ≡ none) ↔ (d.kind ≡ rejected)
  pub publishes : (d.should_publish ≡ true) ↔ (
      (command_is_finite input.command ≡ true)
      × (gate.output_enabled ≡ true)
      × (gate.physical_validation_approved ≡ true))
  pub ready_publishes : (d.should_publish ≡ true) ↔ ((d.kind ≡ ready) ⊎ (d.kind ≡ stop_ready))
  pub stops :
      ((d.kind ≡ stop_ready) ⊎ (d.kind ≡ stop_preview))
      ↔ ((command_is_finite input.command ≡ true) × (timeout_passed ≡ true))

module _ {F : Type 0} ⦃fl : Float F⦄ where
  -- On every branch, the kind of a decision, its command and its publication agree with the
  -- finiteness of the input, the timeout and the two gate flags.
  pub assess_motion_input-IsConsistent :
      (input : MotionInput F) (l : MotionLimits F) (gate : ActuationGate)
      → IsConsistent input gate
          (ltb_ℤ l.timeout_nanoseconds input.age_nanoseconds)
          (assess_motion_input input l gate)
  unfolding assess_motion_input
  assess_motion_input-IsConsistent input l gate = ground arith
