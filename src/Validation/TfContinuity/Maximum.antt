-- ===== src/Validation/TfContinuity/Maximum.antt =====
-- A maximum that is kept against a limit, as the accumulators of src/go2_validation keep theirs.
use go2_local_navigation.Prelude.{
  ◌≡◌, ◌∙◌, ap, inl, inr, false, not, Bool-cases, if◌then◌else◌, arith,
}
use mathlib.Core.Path.{subst}
use go2_local_navigation.Prelude.Float.{Float, ◌≼◌, IsOrdered}

module _ {F : Type 0} ⦃fl : Float F⦄ (o : IsOrdered F) where
  not_lt_of_le : (a b : F) → a ≼ b → fl.lt b a ≡ false
  not_lt_of_le a b h = let (na, nb) = o.number_of_le a b h in o.lt-eq-not-le b a nb na ∙ ap not h

  le_of_not_lt : (a b : F) → a ≼ a → b ≼ b → fl.lt a b ≡ false → b ≼ a
  le_of_not_lt a b na nb h = ground (arith, o.lt-eq-not-le a b na nb)

  -- The maximum of an old maximum and a step, against a limit.
  pub below_maximum :
      (old step limit : F)
      → (if fl.lt old step then step else old) ≼ limit
      → (old ≼ limit) × (fl.lt limit step ≡ false)
  below_maximum old step limit h = elim (Bool-cases (fl.lt old step)) [
    | inl e ↦
        let k : step ≼ limit = subst (λ b. (if b then step else old) ≼ limit) e h in
        (o.le_trans old step limit (o.le_of_lt old step e) k, not_lt_of_le step limit k)
    | inr e ↦
        let k : old ≼ limit = subst (λ b. (if b then step else old) ≼ limit) e h in
        (
          k,
          elim (Bool-cases (fl.lt limit step)) [
            | inr f ↦ f
            | inl f ↦
                let n = (o.number_of_le limit step (o.le_of_lt limit step f)).1 in
                let l = le_of_not_lt old step (o.number_of_le old limit k).0 n e in
                not_lt_of_le step limit (o.le_trans step old limit l k)
          ],
        )
  ]

  pub above_maximum :
      (old step limit : F)
      → old ≼ limit
      → fl.lt limit step ≡ false
      → (if fl.lt old step then step else old) ≼ limit
  above_maximum old step limit h k = elim (Bool-cases (fl.lt old step)) [
    | inl e ↦
        let n = (o.number_of_le old step (o.le_of_lt old step e)).1 in
        let l = (o.number_of_le old limit h).1 in rw e (le_of_not_lt limit step l n k)
    | inr e ↦ rw e h
  ]
