-- ===== src/Samples/Fixed.antt =====
-- Thousandths in place of floats, with `none` for NaN: the assumptions on `Float` can be met.
use go2_local_navigation.Prelude.{
  ℕ, ◌≤◌, ◌+◌, ◌*◌, ◌/◌, ◌≡◌, refl, Bool, true, false, Option, none, some, List, ◌∷◌, if◌then◌else◌,
  arith,
}
use native.Mathlib.Nat.{div-mul-le_self, le-div_iff_mul-le, mul-le-mul_left}
use go2_local_navigation.Prelude.Int.{
  ℤ, pos, negsuc, pos_part, neg_part, sub_ℕ, ltb_ℤ, leb_ℤ, eqb_ℤ,
}
use go2_local_navigation.Prelude.Float.{
  Float, Trig, Truncation, IsOrdered, IsSigned, IsRounded, IsMonotone, IsUnbounded,
}

abbrev pub Fixed : Type 0
Fixed = Option ℤ

abbrev pub on_numbers : (ℤ → ℤ → Bool) → Fixed → Fixed → Bool
on_numbers f (some a) (some b) = f a b
on_numbers f _ _ = false

abbrev pub on_both : (ℤ → ℤ → ℤ) → Fixed → Fixed → Fixed
on_both f (some a) (some b) = some (f a b)
on_both f _ _ = none

abbrev pub opposite : Fixed → Fixed
opposite (some a) = some (sub_ℕ (neg_part a) (pos_part a))
opposite none = none

abbrev pub is_number : Fixed → Bool
is_number (some a) = true
is_number none = false

abbrev plus : ℤ → ℤ → ℤ
plus a b = sub_ℕ (pos_part a + pos_part b) (neg_part a + neg_part b)

abbrev minus : ℤ → ℤ → ℤ
minus a b = sub_ℕ (pos_part a + neg_part b) (neg_part a + pos_part b)

abbrev times : ℤ → ℤ → ℤ
times a b =
    sub_ℕ ((pos_part a * pos_part b + neg_part a * neg_part b) / 1000)
      ((pos_part a * neg_part b + neg_part a * pos_part b) / 1000)

instance abbrev pub fixed_float : Float Fixed
fixed_float = record {
  nought = some (pos 0);
  ratio = λ n d. some (sub_ℕ (pos_part n * 1000 / pos_part d) (neg_part n * 1000 / pos_part d));
  lt = on_numbers ltb_ℤ;
  le = on_numbers leb_ℤ;
  eq = on_numbers eqb_ℤ;
  neg = opposite;
  add = on_both plus;
  sub = on_both minus;
  mul = on_both times;
  is_finite = is_number;
  repr = λ x. "0.0";
}

abbrev whole : Fixed → ℤ
whole (some a) = sub_ℕ (pos_part a / 1000) (neg_part a / 1000)
whole none = pos 0

abbrev distance : Fixed → Fixed → Fixed
distance a b = if fixed_float.lt a b then on_both minus b a else on_both minus a b

abbrev total_distance : List Fixed → List Fixed → Fixed
total_distance (a ∷ rest) (b ∷ others) = on_both plus (distance a b) (total_distance rest others)
total_distance _ _ = some (pos 0)

-- Functions that serve for small angles.
instance abbrev pub fixed_trig : Trig Fixed
fixed_trig = record {
  sin = λ x. x;
  cos = λ x. some (pos 1000);
  atan2 = λ y x. y;
  hypot = λ x y. on_both plus (distance x (some (pos 0))) (distance y (some (pos 0)));
  fabs = λ x. distance x (some (pos 0));
  dist = total_distance;
  sqrt = λ x. x;
  inf = none;
}

instance abbrev pub fixed_truncation : Truncation Fixed
fixed_truncation = record { trunc = whole }

pub fixed-IsOrdered : IsOrdered Fixed
fixed-IsOrdered = record {
  finite_number = λ x h. ground arith;
  number_of_le = λ x y h. ground arith;
  le_trans = λ x y z h k. ground arith;
  lt-eq-not-le = λ x y h k. ground arith;
  le_of_lt = λ x y h. ground arith;
}

pub fixed-IsSigned : IsSigned Fixed
fixed-IsSigned = record {
  eq-le-le = λ x y h k. ground arith;
  neg_le = λ x y h. ground arith;
  le_of_neg = λ x y h. ground arith;
}

-- Products of numbers that are at least 0 have no negative part.
mul_nonneg :
    (x y : Fixed)
    → fixed_float.le (some (pos 0)) x ≡ true
    → fixed_float.le (some (pos 0)) y ≡ true
    → fixed_float.le (some (pos 0)) (fixed_float.mul x y) ≡ true
mul_nonneg (some (pos a)) (some (pos b)) h k = grind arith
mul_nonneg (some (pos a)) (some (negsuc b)) h k = absurd (ground arith)
mul_nonneg (some (negsuc a)) y h k = absurd (ground arith)
mul_nonneg none y h k = absurd (ground arith)
mul_nonneg (some (pos a)) none h k = absurd (ground arith)

pub fixed-IsRounded : IsRounded Fixed
fixed-IsRounded = record {
  nought_finite = ground arith;
  finite_between = λ x y z f g h k. ground arith;
  finite_neg = λ x h. ground arith;
  neg_nonpos = λ x h. ground arith;
  sub_le = λ x d h k. ground arith;
  le_add = λ x d h k. ground arith;
  mul_nonneg = λ x y f g h k. mul_nonneg x y h k;
  ratio_finite = λ n d h k. ground arith;
  ratio_nonneg = λ n d h k. ground arith;
}

pub fixed-IsUnbounded : IsUnbounded Fixed
fixed-IsUnbounded x h = refl

div_mono : (d a b : ℕ) → 1 ≤ d → a ≤ b → a / d ≤ b / d
div_mono d a b h l =
    let low = div-mul-le_self a d in (le-div_iff_mul-le h).1 (omega (arith, low, l))

ratio_le :
    (n m d : ℕ)
    → n ≤ m
    → 1 ≤ d
    → fixed_float.le (fixed_float.ratio (pos n) (pos d)) (fixed_float.ratio (pos m) (pos d)) ≡ true
ratio_le n m d h k =
    let more = div_mono d (n * 1000) (m * 1000) k (omega (arith, h)) in
    let none_below = div_mono d 0 0 k (omega arith) in ground (arith, more)

mul_le :
    (x y z : Fixed)
    → fixed_float.le (some (pos 0)) x ≡ true
    → fixed_float.le (some (pos 0)) y ≡ true
    → fixed_float.le y z ≡ true
    → fixed_float.le (fixed_float.mul x y) (fixed_float.mul x z) ≡ true
mul_le (some (pos a)) (some (pos b)) (some (pos c)) h k l =
    let more = mul-le-mul_left {m = b} {n = c} a (ground (arith, l)) in ground (arith, more)
mul_le none y z h k l = absurd (ground arith)
mul_le (some (negsuc a)) y z h k l = absurd (ground arith)
mul_le x none z h k l = absurd (ground arith)
mul_le x (some (negsuc a)) z h k l = absurd (ground arith)
mul_le x (some (pos b)) none h k l = absurd (ground arith)
mul_le x (some (pos b)) (some (negsuc c)) h k l = absurd (ground arith)

pub fixed-IsMonotone : IsMonotone Fixed
fixed-IsMonotone = record {
  add_le = λ x y c f h. ground arith;
  mul_le = λ x y z f g i h k l. mul_le x y z h k l;
  ratio_le = λ n m d h k l. ratio_le n m d h l;
  trunc_le = λ x y f g h. ground arith;
  sum_finite = λ n m d k e h i j f g. ground arith;
}
