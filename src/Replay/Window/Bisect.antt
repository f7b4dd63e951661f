-- ===== src/Replay/Window/Bisect.antt =====
-- What the two bisections of the sorted times count.
use go2_local_navigation.Prelude.{
  ℕ, ◌+◌, ◌-◌, ◌≤◌, ◌≡◌, ◌∙◌, refl, ap, Bool, true, false, ◌&&◌, List, [], ◌∷◌, map, All, inl, inr,
  ltb, leb, if◌then◌else◌, arith, Bool-cases,
}
use go2_local_navigation.Replay.Window.{MessageRecord, insert, sorted, bisect_left, record_below}

-- The times from `s` on that are before `e`, counted one by one.
abbrev pub within : ℕ → ℕ → List ℕ → ℕ
within s e [] = 0
within s e (t ∷ ts) = (if leb s t && ltb t e then 1 else 0) + within s e ts

abbrev below_count : ℕ → List ℕ → ℕ
below_count x [] = 0
below_count x (t ∷ ts) = (if ltb t x then 1 else 0) + below_count x ts

below_count-within :
    (s e : ℕ) (ts : List ℕ) → s ≤ e → below_count e ts ≡ below_count s ts + within s e ts
below_count-within s e [] h = refl
below_count-within s e (t ∷ ts) h = let ih = below_count-within s e ts h in ground (arith, ih)

abbrev Ascending : List ℕ → Type 0
Ascending [] = Unit
Ascending (t ∷ ts) = All (λ u. t ≤ u) ts × Ascending ts

below_count-late : (x t : ℕ) (ts : List ℕ) → All (λ u. t ≤ u) ts → x ≤ t → below_count x ts ≡ 0
below_count-late x t [] h l = refl
below_count-late x t (u ∷ ts) h l =
    let ih = below_count-late x t ts h.1 l in ground (arith, ih, h.0)

bisect_left-below_count : (x : ℕ) (ts : List ℕ) → Ascending ts → bisect_left ts x ≡ below_count x ts
unfolding bisect_left
bisect_left-below_count x [] h = refl
bisect_left-below_count x (t ∷ ts) h =
    let ih = bisect_left-below_count x ts h.1 in
    elim (Bool-cases (ltb t x)) [
      | inl before ↦ rw before (omega (arith, ih))
      | inr late ↦ rw late (rw (below_count-late x t ts h.0 (ground (arith, late))) (omega arith))
    ]

All-above : (s t : ℕ) (ts : List ℕ) → s ≤ t → All (λ u. t ≤ u) ts → All (λ u. s ≤ u) ts
All-above s t [] l h = tt
All-above s t (u ∷ ts) l h = (omega (arith, l, h.0), All-above s t ts l h.1)

module _ {A : Type 0} (below : A → A → Bool) (time : A → ℕ)
    (before : (a b : A) → below a b ≡ true → time a ≤ time b)
    (after : (a b : A) → below a b ≡ false → time b ≤ time a) where
  insert-below_count :
      (x : ℕ) (a : A) (bs : List A)
      → below_count x (map time (insert below a bs))
        ≡ (if ltb (time a) x then 1 else 0) + below_count x (map time bs)
  unfolding insert
  insert-below_count x a [] = refl
  insert-below_count x a (b ∷ bs) = let ih = insert-below_count x a bs in ground (arith, ih)

  sorted-below_count :
      (x : ℕ) (bs : List A)
      → below_count x (map time (sorted below bs)) ≡ below_count x (map time bs)
  unfolding sorted
  sorted-below_count x [] = refl
  sorted-below_count x (a ∷ bs) =
      insert-below_count x a (sorted below bs)
      ∙ ap (λ n. (if ltb (time a) x then 1 else 0) + n) (sorted-below_count x bs)

  All-insert :
      (t : ℕ) (a : A) (bs : List A)
      → t ≤ time a
      → All (λ u. t ≤ u) (map time bs)
      → All (λ u. t ≤ u) (map time (insert below a bs))
  unfolding insert
  All-insert t a [] l h = (l, tt)
  All-insert t a (b ∷ bs) l h = let ih = All-insert t a bs l h.1 in ground (arith, ih, h.0, h.1)

  Ascending-insert :
      (a : A) (bs : List A) → Ascending (map time bs) → Ascending (map time (insert below a bs))
  unfolding insert
  Ascending-insert a [] h = (tt, tt)
  Ascending-insert a (b ∷ bs) h = elim (Bool-cases (below b a)) [
    | inl first ↦
        rw first (All-insert (time b) a bs (before b a first) h.0, Ascending-insert a bs h.1)
    | inr later ↦
        rw later
          ((after b a later, All-above (time a) (time b) (map time bs) (after b a later) h.0), h)
  ]

  Ascending-sorted : (bs : List A) → Ascending (map time (sorted below bs))
  unfolding sorted
  Ascending-sorted [] = tt
  Ascending-sorted (a ∷ bs) = Ascending-insert a (sorted below bs) (Ascending-sorted bs)

bisected :
    (s e : ℕ) (sorted_times times : List ℕ)
    → s ≤ e
    → Ascending sorted_times
    → ((x : ℕ) → below_count x sorted_times ≡ below_count x times)
    → bisect_left sorted_times e - bisect_left sorted_times s ≡ within s e times
bisected s e sorted_times times l a same =
    let p = bisect_left-below_count e sorted_times a in
    let q = bisect_left-below_count s sorted_times a in
    omega (arith, p, q, same e, same s, below_count-within s e times l)

map_self : (ts : List ℕ) → map (λ t. t) ts ≡ ts
map_self [] = refl
map_self (t ∷ ts) = ap (λ rest. t ∷ rest) (map_self ts)

pub cloud_counts :
    (s e : ℕ) (times : List ℕ)
    → s ≤ e
    → bisect_left (sorted ltb times) e - bisect_left (sorted ltb times) s ≡ within s e times
cloud_counts s e times l =
    bisected s e (sorted ltb times) times l
      (rw (← map_self (sorted ltb times)) (
        Ascending-sorted ltb (λ t. t) (λ a b h. ground (arith, h)) (λ a b h. ground (arith, h))
          times))
      (λ x. rw (← map_self (sorted ltb times)) (
        rw
          (sorted-below_count ltb (λ t. t) (λ a b h. ground (arith, h)) (λ a b h. ground (arith, h))
            x times)
          (rw (map_self times) refl)))

module _ {F : Type 0} where
  abbrev pub time_of : MessageRecord F → ℕ
  time_of r = r.log_time_ns

  pub odometry_counts :
      (s e : ℕ) (odometry : List (MessageRecord F))
      → s ≤ e
      → (bisect_left (map time_of (sorted record_below odometry)) e
          - bisect_left (map time_of (sorted record_below odometry)) s)
        ≡ within s e (map time_of odometry)
  odometry_counts s e odometry l =
      bisected s e (map time_of (sorted record_below odometry)) (map time_of odometry) l
        (Ascending-sorted record_below time_of (λ a b h. ground (arith, h))
          (λ a b h. ground (arith, h)) odometry)
        (λ x.
          sorted-below_count record_below time_of (λ a b h. ground (arith, h))
            (λ a b h. ground (arith, h)) x odometry)
