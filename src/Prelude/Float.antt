-- ===== src/Prelude/Float.antt =====
-- Python's `float` as a parameter: the operations that the code uses, and the IEEE 754 facts that
-- the proofs need. A comparison with NaN is false, so a value is a number when `x <= x`.
use mathlib.Core.Path.{◌≡◌}
use mathlib.Core.Bool.{Bool, true, false, not, ◌&&◌}
use mathlib.Core.List.{List}
use Prim.Native.Nat.{ℕ, ◌+◌, ◌^◌, ◌<◌, ◌≤◌}
use Prim.Native.String.{String}
use go2_local_navigation.Prelude.Tests.{if◌then◌else◌}
use go2_local_navigation.Prelude.Int.{ℤ, pos, pos_part, neg_part, ◌≤ℤ◌}

pub record Float (F : Type 0) : Type 0 where
  -- 0.0
  pub nought : F
  -- int / int and int -> float
  pub ratio : ℤ → ℤ → F
  pub lt : F → F → Bool
  pub le : F → F → Bool
  -- ==
  pub eq : F → F → Bool
  pub neg : F → F
  pub add : F → F → F
  pub sub : F → F → F
  pub mul : F → F → F
  pub is_finite : F → Bool
  -- the shortest decimal text, which `json.dumps` writes
  pub repr : F → String

-- The functions of Python's `math` that the code calls, on the arguments that it passes.
pub record Trig (F : Type 0) : Type 0 where
  pub sin : F → F
  pub cos : F → F
  pub atan2 : F → F → F
  pub hypot : F → F → F
  pub fabs : F → F
  pub dist : List F → List F → F
  pub sqrt : F → F
  pub inf : F

-- int(x) of a finite float: toward zero.
pub record Truncation (F : Type 0) : Type 0 where
  pub trunc : F → ℤ

infix 50 ◌≼◌
abbrev pub ◌≼◌ : {F : Type 0} ⦃fl : Float F⦄ → F → F → Type 0
◌≼◌ ⦃fl⦄ x y = fl.le x y ≡ true

abbrev pub IsFinite : {F : Type 0} ⦃fl : Float F⦄ → F → Type 0
IsFinite ⦃fl⦄ x = fl.is_finite x ≡ true

module _ {F : Type 0} ⦃fl : Float F⦄ where
  -- Python's min(a, b) is a unless b < a; max(a, b) is a unless b > a.
  abbrev pub fmin : F → F → F
  fmin a b = if fl.lt b a then b else a

  abbrev pub fmax : F → F → F
  fmax a b = if fl.lt a b then b else a

-- Orders of numbers (values that are not NaN), and what rounding keeps.
pub record IsOrdered (F : Type 0) ⦃fl : Float F⦄ : Type 0 where
  pub finite_number : (x : F) → IsFinite x → x ≼ x
  pub number_of_le : (x y : F) → x ≼ y → (x ≼ x) × (y ≼ y)
  pub le_trans : (x y z : F) → x ≼ y → y ≼ z → x ≼ z
  pub lt-eq-not-le : (x y : F) → x ≼ x → y ≼ y → fl.lt x y ≡ not (fl.le y x)
  pub le_of_lt : (x y : F) → fl.lt x y ≡ true → x ≼ y

-- Equality of numbers is the order both ways, and a sign turns the order round.
pub record IsSigned (F : Type 0) ⦃fl : Float F⦄ : Type 0 where
  pub eq-le-le : (x y : F) → x ≼ x → y ≼ y → fl.eq x y ≡ fl.le x y && fl.le y x
  pub neg_le : (x y : F) → x ≼ y → fl.neg y ≼ fl.neg x
  pub le_of_neg : (x y : F) → fl.neg x ≼ fl.neg y → y ≼ x

pub record IsRounded (F : Type 0) ⦃fl : Float F⦄ : Type 0 where
  pub nought_finite : IsFinite fl.nought
  pub finite_between : (x y z : F) → IsFinite x → IsFinite z → x ≼ y → y ≼ z → IsFinite y
  pub finite_neg : (x : F) → IsFinite x → IsFinite (fl.neg x)
  pub neg_nonpos : (x : F) → fl.nought ≼ x → fl.neg x ≼ fl.nought
  -- x - d <= x <= x + d for d >= 0; d may be infinite
  pub sub_le : (x d : F) → IsFinite x → fl.nought ≼ d → fl.sub x d ≼ x
  pub le_add : (x d : F) → IsFinite x → fl.nought ≼ d → x ≼ fl.add x d
  pub mul_nonneg :
      (x y : F) → IsFinite x → IsFinite y → fl.nought ≼ x → fl.nought ≼ y → fl.nought ≼ fl.mul x y
  -- the quotient of integers of 64 bits is finite
  pub ratio_finite :
      (n d : ℤ) → pos_part n + neg_part n < 2 ^ 63 → 1 ≤ pos_part d → IsFinite (fl.ratio n d)
  pub ratio_nonneg : (n d : ℕ) → n < 2 ^ 63 → 1 ≤ d → fl.nought ≼ fl.ratio (pos n) (pos d)

-- Rounding keeps the order of sums, of products by a number that is at least 0, of quotients and of
-- truncated values; an integer of 63 bits times a fraction of one, plus such a fraction, is finite.
pub record IsMonotone (F : Type 0) ⦃fl : Float F⦄ ⦃tr : Truncation F⦄ : Type 0 where
  pub add_le : (x y c : F) → IsFinite c → x ≼ y → fl.add x c ≼ fl.add y c
  pub mul_le :
      (x y z : F)
      → IsFinite x
      → IsFinite y
      → IsFinite z
      → fl.nought ≼ x
      → fl.nought ≼ y
      → y ≼ z
      → fl.mul x y ≼ fl.mul x z
  pub ratio_le :
      (n m d : ℕ) → n ≤ m → m < 2 ^ 63 → 1 ≤ d → fl.ratio (pos n) (pos d) ≼ fl.ratio (pos m) (pos d)
  pub trunc_le : (x y : F) → IsFinite x → IsFinite y → x ≼ y → tr.trunc x ≤ℤ tr.trunc y
  pub sum_finite :
      (n m d k e : ℕ)
      → n < 2 ^ 63
      → m ≤ d
      → k ≤ e
      → 1 ≤ d
      → 1 ≤ e
      → IsFinite (
          fl.add
            (fl.mul (fl.ratio (pos n) (pos 1)) (fl.ratio (pos m) (pos d)))
            (fl.ratio (pos k) (pos e)))

-- Infinity is above every finite value.
abbrev pub IsUnbounded : (F : Type 0) ⦃fl : Float F⦄ ⦃m : Trig F⦄ → Type 0
IsUnbounded F ⦃fl⦄ ⦃m⦄ = (x : F) → IsFinite x → fl.le m.inf x ≡ false
