-- ===== src/Perception/Accumulator/Balance.antt =====
-- The frames that the accumulator node counts against its outputs.
use go2_local_navigation.Prelude.{ℕ, ◌+◌, ◌*◌, ◌≤◌, ◌<◌, ◌≡◌, ◌⊎◌, inl, inr, Bool, false, ok, arith}
use go2_local_navigation.Perception.Message.{PointCloud2}
use go2_local_navigation.Perception.Window.{CloudWindow, concatenate_clouds}

-- The message class refuses the output of the clouds that the window holds.
abbrev pub Refusal : (PointCloud2 → Bool) → CloudWindow → Type 0
Refusal fits w =
    (out : PointCloud2) × (concatenate_clouds w.clouds w.target_frame ≡ ok out) × (fits out ≡ false)

-- The batch is not complete, and each frame processed was emitted or is held. Or the output of the
-- complete batch that is still held was refused (`R`), and its last frame was dropped.
abbrev pub Balance : Type 0 → ℕ → ℕ → ℕ → ℕ → ℕ → Type 0
Balance R emit_every published held processed dropped =
    ((held < emit_every) × (published * emit_every + held ≡ processed))
    ⊎ ((held ≡ emit_every) × (published * emit_every + held ≡ processed + 1) × (1 ≤ dropped) × R)

module _ (R : Type 0) (e published held processed dropped : ℕ)
    (b : Balance R e published held processed dropped) where
  pub Balance-dropped : (more : ℕ) → dropped ≤ more → Balance R e published held processed more
  Balance-dropped more l = elim b [
    | inl (room, balanced) ↦ inl (room, balanced)
    | inr (full, unsent, one, refusal) ↦ inr (full, unsent, omega (arith, one, l), refusal)
  ]

  -- the window has changed, and with it what a refusal says
  module _ (S : Type 0) where
    pub Balance-held : held + 1 < e → Balance S e published (held + 1) (processed + 1) dropped
    Balance-held l = elim b [
      | inl (room, balanced) ↦ inl (l, omega (arith, balanced))
      | inr (full, unsent, one, refusal) ↦ absurd (omega (arith, l, full))
    ]

    module _ (complete : (held + 1 ≡ e) ⊎ (held ≡ e)) where
      pub Balance-emitted : 1 < e → Balance S e (published + 1) 0 (processed + 1) dropped
      Balance-emitted l = elim b [
        | inl (room, balanced) ↦ inl (omega (arith, l), ground (arith, balanced, room, complete))
        | inr (full, unsent, one, refusal) ↦ inl (omega (arith, l), ground (arith, full, unsent))
      ]

      pub Balance-refused : (more : ℕ) → 1 ≤ more → S → Balance S e published e processed more
      Balance-refused more one refusal = elim b [
        | inl (room, balanced) ↦
            inr (omega arith, ground (arith, balanced, room, complete), one, refusal)
        | inr (full, unsent, _, _) ↦ inr (omega arith, ground (arith, full, unsent), one, refusal)
      ]
