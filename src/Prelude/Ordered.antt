-- ===== src/Prelude/Ordered.antt =====
-- Stamped items that a node has sent, the newest first.
use mathlib.Core.Option.{Option, none, some}
use mathlib.Core.List.{List, [], ◌∷◌}
use native.Mathlib.Omega.{arith}
use go2_local_navigation.Prelude.Int.{ℤ, ◌≤ℤ◌}

-- A stamp against an earlier one, where there is one.
abbrev pub NotBefore : Option ℤ → ℤ → Type 0
NotBefore none stamp = Unit
NotBefore (some previous) stamp = previous ≤ℤ stamp

module _ {A : Type 0} (P : A → Type 0) (stamp : A → ℤ) where
  -- All meet P, their stamps are in order, and none is later than the latest one.
  abbrev pub Descending : Option ℤ → List A → Type 0
  Descending latest [] = Unit
  Descending none (x ∷ xs) = ⊥
  Descending (some t) (x ∷ xs) = P x × (stamp x ≤ℤ t) × Descending (some (stamp x)) xs

  pub Descending-later :
      (previous : Option ℤ) (t : ℤ) (xs : List A)
      → NotBefore previous t
      → Descending previous xs
      → Descending (some t) xs
  Descending-later previous t [] n h = tt
  Descending-later none t (x ∷ xs) n h = elim h [ ]
  Descending-later (some p) t (x ∷ xs) n h = (h.0, omega (arith, n, h.1), h.2)

  pub Descending-newest :
      (previous : Option ℤ) (x : A) (xs : List A)
      → P x
      → NotBefore previous (stamp x)
      → Descending previous xs
      → Descending (some (stamp x)) (x ∷ xs)
  Descending-newest previous x xs p n h =
      (p, omega arith, Descending-later previous (stamp x) xs n h)
