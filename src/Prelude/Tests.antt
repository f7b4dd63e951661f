-- ===== src/Prelude/Tests.antt =====
-- Boolean tests on the native numbers, the conditional, and results of code that may raise.
use Prim.Native.Nat.{ℕ, compare, Ordering}
use mathlib.Core.Path.{◌≡◌, refl, ap}
use mathlib.Core.Logic.{◌⊎◌, inl, inr}
use mathlib.Core.Bool.{Bool, true, false, not}
use mathlib.Core.Option.{Option, none, some}

-- These compute to `compare`, which `ground` and `grind` read with no lemma listed.
abbrev pub ltb : ℕ → ℕ → Bool
ltb a b = elim (compare a b) [ Ordering.lt ↦ true | _ ↦ false ]

abbrev pub leb : ℕ → ℕ → Bool
leb a b = elim (compare a b) [ Ordering.gt ↦ false | _ ↦ true ]

infix 50 ◌==◌
abbrev pub ◌==◌ : ℕ → ℕ → Bool
a == b = elim (compare a b) [ Ordering.eq ↦ true | _ ↦ false ]

infix 1 if◌then◌else◌
abbrev pub if◌then◌else◌ {ℓ} : {A : Type ℓ} → Bool → A → A → A
if true then x else y = x
if false then x else y = y

-- To split on a computed value and keep the equation.
pub Bool-cases : (b : Bool) → (b ≡ true) ⊎ (b ≡ false)
Bool-cases true = inl refl
Bool-cases false = inr refl

pub Option-cases {ℓ} : {A : Type ℓ} (o : Option A) → (o ≡ none) ⊎ ((a : A) × (o ≡ some a))
Option-cases none = inl refl
Option-cases (some a) = inr (a, refl)

abbrev pub is_none {ℓ} : {A : Type ℓ} → Option A → Bool
is_none none = true
is_none (some a) = false

-- The value of a call, or the exception that it raised.
pub data Result {ℓ κ} (E : Type ℓ) (A : Type κ) : Type (ℓ ⊔ κ) where
  ok : A → Result E A
  err : E → Result E A

infixl 5 ◌>>=◌
abbrev pub ◌>>=◌ {ℓ κ υ} :
    {E : Type ℓ} {A : Type κ} {B : Type υ} → Result E A → (A → Result E B) → Result E B
ok a >>= f = f a
err e >>= f = err e

-- A check that may raise, and what runs after it.
infixl 5 ◌>>◌
abbrev pub ◌>>◌ {ℓ κ} : {A : Type ℓ} {E : Type κ} → Result E (Unit {0}) → Result E A → Result E A
err raised >> rest = err raised
ok _ >> rest = rest

-- When a call after another one returned, both of them did.
pub bind-returns {ℓ κ υ} :
    {B : Type υ} {E : Type ℓ} {v : B} {A : Type κ} (first : Result E A)
    → (next : A → Result E B) → (first >>= next) ≡ ok v
    → (a : A) × (next a ≡ ok v) × (first ≡ ok a)
bind-returns (err raised) next returned = cc
bind-returns (ok a) next returned = (a, returned, refl)

-- What holds after every call that returned holds after both.
pub bind-post {ℓ κ υ ω} :
    {B : Type υ} {E : Type ℓ} {v : B} {A : Type κ} {Q : Type ω} (first : Result E A)
    {next : A → Result E B}
    → (first >>= next) ≡ ok v
    → ((a : A) → next a ≡ ok v → Q)
    → Q
bind-post (err raised) returned post = cc
bind-post (ok a) returned post = post a returned

-- What runs after a check that did not raise.
pub skip_check {ℓ κ} :
    {A : Type ℓ} {E : Type κ} {v : A} (check : Result E (Unit {0})) {rest : Result E A}
    → (check >> rest) ≡ ok v
    → rest ≡ ok v
skip_check (ok u) h = h
skip_check (err e) h = cc

pub not-false : (b : Bool) → not b ≡ false → b ≡ true
not-false true h = refl
not-false false h = cc

abbrev pub returned {ℓ κ} : {A : Type ℓ} (E : Type κ) → A → Result E A
returned E x = ok x

pub ok-injective {ℓ κ} : {A : Type ℓ} {E : Type κ} {x y : A} → returned E x ≡ ok y → x ≡ y
ok-injective {x} h = ap (λ r. elim r [ ok a ↦ a | err e ↦ x ]) h
