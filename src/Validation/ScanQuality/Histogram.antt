-- ===== src/Validation/ScanQuality/Histogram.antt =====
-- The histogram counts the samples.
use go2_local_navigation.Prelude.{
  ℕ, zero, suc, ◌+◌, ◌-◌, ◌≤◌, ◌<◌, ◌≡◌, refl, ap, true, some, List, [], ◌∷◌, ◌++◌, length,
  length-append, sum, ltb, leb, arith, Bool-cases, Option-cases, inl, inr,
}
use go2_local_navigation.Validation.ScanQuality.{
  QualityAccumulator, zeros, count_at, observe_count, first_positive, last_positive, rank_index,
}

-- The counts add up to the number of samples.
abbrev pub IsCounted : QualityAccumulator → Type 0
IsCounted a = sum a.histogram ≡ a.sample_count

sum-append : (xs ys : List ℕ) → sum (xs ++ ys) ≡ sum xs + sum ys
sum-append [] ys = omega arith
sum-append (x ∷ xs) ys = let ih = sum-append xs ys in omega (arith, ih)

sum-zeros : (n : ℕ) → sum (zeros n) ≡ 0
unfolding zeros
sum-zeros zero = refl
sum-zeros (suc n) = let ih = sum-zeros n in omega (arith, ih)

pub length-zeros : (n : ℕ) → length (zeros n) ≡ n
unfolding zeros
length-zeros zero = refl
length-zeros (suc n) = ap suc (length-zeros n)

sum-count_at : (i : ℕ) (ns : List ℕ) → i < length ns → sum (count_at i ns) ≡ sum ns + 1
unfolding count_at
sum-count_at i [] h = absurd (omega arith)
sum-count_at zero (n ∷ ns) h = omega arith
sum-count_at (suc i) (n ∷ ns) h = let ih = sum-count_at i ns (omega arith) in omega (arith, ih)

pub observe_count-IsCounted :
    (beams : ℕ) (a : QualityAccumulator) → IsCounted a → IsCounted (observe_count beams a)
unfolding observe_count
observe_count-IsCounted beams a h = elim (Bool-cases (leb (length a.histogram) beams)) [
  | inl grows ↦
      let n = beams - length a.histogram + 1 in
      let grown = sum-append a.histogram (zeros n) in
      let size = length-append a.histogram (zeros n) in
      let counted =
        sum-count_at beams (a.histogram ++ zeros n) (ground (arith, size, length-zeros n, grows)) in
      rw grows (omega (arith, counted, grown, sum-zeros n, h))
  | inr fits ↦
      let counted = sum-count_at beams a.histogram (ground (arith, fits)) in
      rw fits (omega (arith, counted, h))
]

-- The beam counts of the scans, in their order.
abbrev pub observe_counts : List ℕ → QualityAccumulator → QualityAccumulator
observe_counts [] a = a
observe_counts (beams ∷ rest) a = observe_counts rest (observe_count beams a)

pub observe_counts-IsCounted :
    (counts : List ℕ) (a : QualityAccumulator)
    → IsCounted a
    → IsCounted (observe_counts counts a)
      × ((observe_counts counts a).sample_count ≡ a.sample_count + length counts)
unfolding observe_count
observe_counts-IsCounted [] a h = (h, omega arith)
observe_counts-IsCounted (beams ∷ rest) a h =
    let (counted, size) =
      observe_counts-IsCounted rest (observe_count beams a) (observe_count-IsCounted beams a h) in
    (counted, omega (arith, size))

above_zero : (n : ℕ) → ltb 0 (suc n) ≡ true
above_zero n = ground arith

pub first_positive-sum :
    (i : ℕ) (ns : List ℕ) → 1 ≤ sum ns → (k : ℕ) × (first_positive i ns ≡ some k)
unfolding first_positive
first_positive-sum i [] h = absurd (omega arith)
first_positive-sum i (zero ∷ ns) h = first_positive-sum (suc i) ns (omega arith)
first_positive-sum i (suc n ∷ ns) h = (i, rw (above_zero n) refl)

pub last_positive-sum : (i : ℕ) (ns : List ℕ) → 1 ≤ sum ns → (k : ℕ) × (last_positive i ns ≡ some k)
unfolding last_positive
last_positive-sum i [] h = absurd (omega arith)
last_positive-sum i (n ∷ ns) h = elim (Bool-cases (ltb 0 n)) [
  | inr none_here ↦
      let (k, found) = last_positive-sum (suc i) ns (ground (arith, none_here, h)) in
      rw found (k, refl)
  | inl here ↦ elim (Option-cases (last_positive (suc i) ns)) [
    | inr (k, found) ↦ rw found (k, refl)
    | inl nothing ↦ rw nothing (rw here (i, refl))
  ]
]

pub rank_index-above :
    (rank index cumulative : ℕ) (ns : List ℕ) → index ≤ rank_index rank (suc index) cumulative ns
unfolding rank_index
rank_index-above rank index cumulative [] = omega arith
rank_index-above rank index cumulative (n ∷ ns) =
    let ih = rank_index-above rank (suc index) (cumulative + n) ns in ground (arith, ih)

pub rank_index_mono :
    (low high index cumulative : ℕ) (ns : List ℕ)
    → low ≤ high
    → rank_index low index cumulative ns ≤ rank_index high index cumulative ns
unfolding rank_index
rank_index_mono low high index cumulative [] h = omega arith
rank_index_mono low high index cumulative (n ∷ ns) h =
    let ih = rank_index_mono low high (suc index) (cumulative + n) ns h in
    let above = rank_index-above high index (cumulative + n) ns in ground (arith, ih, above)
