-- ===== src/Validation/ScanQuality/Extremes.antt =====
-- The ends of the histogram: what the first and the last positive entry are, and that the percentiles
-- lie between them.
use go2_local_navigation.Prelude.{
  ℕ, zero, suc, ◌+◌, ◌-◌, ◌≤◌, ◌<◌, ◌≡◌, ◌∙◌, ◌⊎◌, refl, ap, sym, Bool, true, false, Option, none,
  some, List, [], ◌∷◌, ◌++◌, length, length-append, sum, ltb, leb, arith, if◌then◌else◌, Bool-cases,
  inl, inr, All, Mem,
}
use mathlib.Core.Path.{subst}
use go2_local_navigation.Validation.ScanQuality.{
  QualityAccumulator, make_quality, zeros, count_at, observe_count, first_positive, last_positive,
  rank_index,
}
use go2_local_navigation.Validation.ScanQuality.Histogram.{
  observe_counts, rank_index-above, last_positive-sum, length-zeros,
}

-- the entry at an index, 0 past the end
abbrev pub at : ℕ → List ℕ → ℕ
at i [] = 0
at zero (n ∷ ns) = n
at (suc i) (n ∷ ns) = at i ns

at-zeros : (j n : ℕ) → at j (zeros n) ≡ 0
unfolding zeros
at-zeros j zero = refl
at-zeros zero (suc n) = refl
at-zeros (suc j) (suc n) = at-zeros j n

at-append_zeros : (j n : ℕ) (ns : List ℕ) → at j (ns ++ zeros n) ≡ at j ns
at-append_zeros j n [] = at-zeros j n
at-append_zeros zero n (x ∷ ns) = refl
at-append_zeros (suc j) n (x ∷ ns) = at-append_zeros j n ns

at-count_at_self : (i : ℕ) (ns : List ℕ) → i < length ns → 1 ≤ at i (count_at i ns)
unfolding count_at
at-count_at_self i [] h = absurd (omega arith)
at-count_at_self zero (n ∷ ns) h = omega arith
at-count_at_self (suc i) (n ∷ ns) h = at-count_at_self i ns (omega arith)

at-count_at-grows : (i j : ℕ) (ns : List ℕ) → at j ns ≤ at j (count_at i ns)
unfolding count_at
at-count_at-grows i j [] = omega arith
at-count_at-grows zero zero (n ∷ ns) = omega arith
at-count_at-grows zero (suc j) (n ∷ ns) = omega arith
at-count_at-grows (suc i) zero (n ∷ ns) = omega arith
at-count_at-grows (suc i) (suc j) (n ∷ ns) = at-count_at-grows i j ns

at-count_at-other : (i j : ℕ) (ns : List ℕ) → 1 ≤ at j (count_at i ns) → (j ≡ i) ⊎ (1 ≤ at j ns)
unfolding count_at
at-count_at-other i j [] h = absurd (omega (arith, h))
at-count_at-other zero zero (n ∷ ns) h = inl refl
at-count_at-other zero (suc j) (n ∷ ns) h = inr h
at-count_at-other (suc i) zero (n ∷ ns) h = inr h
at-count_at-other (suc i) (suc j) (n ∷ ns) h = elim (at-count_at-other i j ns h) [
  | inl same ↦ inl (omega (arith, same))
  | inr more ↦ inr more
]

pub first_positive-at :
    (i : ℕ) (ns : List ℕ) (k : ℕ)
    → first_positive i ns ≡ some k
    → (j : ℕ) × (k ≡ i + j) × (1 ≤ at j ns) × ((l : ℕ) → 1 ≤ at l ns → j ≤ l)
unfolding first_positive
first_positive-at i [] k h = cc
first_positive-at i (zero ∷ ns) k h =
    let (j, e, here, least) = first_positive-at (suc i) ns k h in
    (suc j, omega (arith, e), here, go j least)
  where
    go : (j : ℕ) → ((l : ℕ) → 1 ≤ at l ns → j ≤ l) → (l : ℕ) → 1 ≤ at l (zero ∷ ns) → suc j ≤ l
    go j least zero p = absurd (omega (arith, p))
    go j least (suc l) p = let q = least l p in omega (arith, q)
first_positive-at i (suc n ∷ ns) k h =
    let e : i ≡ k = ground (arith, h) in (0, omega (arith, e), omega arith, λ l p. omega arith)

pub at_le_sum : (l : ℕ) (ns : List ℕ) → at l ns ≤ sum ns
at_le_sum l [] = omega arith
at_le_sum zero (n ∷ ns) = omega arith
at_le_sum (suc l) (n ∷ ns) = let ih = at_le_sum l ns in omega (arith, ih)

last_positive-none : (i : ℕ) (ns : List ℕ) → last_positive i ns ≡ none → (l : ℕ) → 1 ≤ at l ns → ⊥
last_positive-none i ns h l p =
    let (k, found) = last_positive-sum i ns (let q = at_le_sum l ns in omega (arith, p, q)) in
    none_some (sym h ∙ found)
  where
    none_some : {k : ℕ} → none ≡ some k → ⊥
    none_some e = cc

-- where a positive entry is, after which there is none
abbrev pub IsLast : ℕ → List ℕ → ℕ → Type 0
IsLast i ns k = (j : ℕ) × (k ≡ i + j) × (1 ≤ at j ns) × ((l : ℕ) → 1 ≤ at l ns → l ≤ j)

IsLast-here : (i n : ℕ) (ns : List ℕ) → 1 ≤ n → ((l : ℕ) → 1 ≤ at l ns → ⊥) → IsLast i (n ∷ ns) i
IsLast-here i n ns p later = (0, omega arith, p, go)
  where
    go : (l : ℕ) → 1 ≤ at l (n ∷ ns) → l ≤ 0
    go zero q = omega arith
    go (suc l) q = absurd (later l q)

IsLast-later : (i n : ℕ) (ns : List ℕ) (k : ℕ) → IsLast (suc i) ns k → IsLast i (n ∷ ns) k
IsLast-later i n ns k (j, e, here, most) = (suc j, omega (arith, e), here, go)
  where
    go : (l : ℕ) → 1 ≤ at l (n ∷ ns) → l ≤ suc j
    go zero q = omega arith
    go (suc l) q = let m = most l q in omega (arith, m)

pub last_positive-IsLast :
    (i : ℕ) (ns : List ℕ) (k : ℕ) → last_positive i ns ≡ some k → IsLast i ns k
unfolding last_positive
last_positive-IsLast i [] k h = cc
last_positive-IsLast i (n ∷ ns) k h =
    go (λ e. last_positive-IsLast (suc i) ns k e) (last_positive (suc i) ns) refl (ltb 0 n) refl h
  where
    go :
        (last_positive (suc i) ns ≡ some k → IsLast (suc i) ns k)
        → (r : Option ℕ) → last_positive (suc i) ns ≡ r
        → (b : Bool) → ltb 0 n ≡ b
        → elim r [ some j ↦ some j | none ↦ if b then some i else none ] ≡ some k
        → IsLast i (n ∷ ns) k
    go ih (some j) e b p h = IsLast-later i n ns k (ih (e ∙ h))
    go ih none e true p h =
        let same : i ≡ k = ground (arith, h) in
        subst (IsLast i (n ∷ ns)) same
          (IsLast-here i n ns (ground (arith, p)) (last_positive-none (suc i) ns e))
    go ih none e false p h = cc

-- The first positive entry is no later than where the sum reaches a rank.
pub first_positive-rank_index :
    (rank i cumulative : ℕ) (ns : List ℕ) (k : ℕ)
    → first_positive i ns ≡ some k
    → suc cumulative ≤ rank
    → k ≤ rank_index rank i cumulative ns
unfolding first_positive rank_index
first_positive-rank_index rank i cumulative [] k h l = cc
first_positive-rank_index rank i cumulative (zero ∷ ns) k h l =
    let ih = first_positive-rank_index rank (suc i) (cumulative + 0) ns k h (omega (arith, l)) in
    ground (arith, ih, l)
first_positive-rank_index rank i cumulative (suc n ∷ ns) k h l =
    let e : i ≡ k = ground (arith, h) in
    let above = rank_index-above rank i (cumulative + suc n) ns in ground (arith, e, above)

at-observe_count_self :
    (beams : ℕ) (a : QualityAccumulator) → 1 ≤ at beams (observe_count beams a).histogram
unfolding observe_count
at-observe_count_self beams a = elim (Bool-cases (leb (length a.histogram) beams)) [
  | inl grows ↦
      let n = beams - length a.histogram + 1 in
      let size = length-append a.histogram (zeros n) in
      rw grows (
        at-count_at_self beams (a.histogram ++ zeros n)
          (ground (arith, size, length-zeros n, grows)))
  | inr fits ↦ rw fits (at-count_at_self beams a.histogram (ground (arith, fits)))
]

at-observe_count-grows :
    (beams j : ℕ) (a : QualityAccumulator)
    → at j a.histogram ≤ at j (observe_count beams a).histogram
unfolding observe_count
at-observe_count-grows beams j a = elim (Bool-cases (leb (length a.histogram) beams)) [
  | inl grows ↦
      let n = beams - length a.histogram + 1 in
      let more = at-count_at-grows beams j (a.histogram ++ zeros n) in
      rw grows (omega (arith, more, at-append_zeros j n a.histogram))
  | inr fits ↦ rw fits (at-count_at-grows beams j a.histogram)
]

at-observe_count-other :
    (beams j : ℕ) (a : QualityAccumulator)
    → 1 ≤ at j (observe_count beams a).histogram
    → (j ≡ beams) ⊎ (1 ≤ at j a.histogram)
unfolding observe_count
at-observe_count-other beams j a = elim (Bool-cases (leb (length a.histogram) beams)) [
  | inl grows ↦
      let n = beams - length a.histogram + 1 in
      rw grows (λ h. elim (at-count_at-other beams j (a.histogram ++ zeros n) h) [
        | inl same ↦ inl same
        | inr more ↦ inr (omega (arith, more, at-append_zeros j n a.histogram))
      ])
  | inr fits ↦ rw fits (λ h. at-count_at-other beams j a.histogram h)
]

-- The positive entries are the counts that were observed.
at-observe_counts-grows :
    (j : ℕ) (counts : List ℕ) (a : QualityAccumulator)
    → at j a.histogram ≤ at j (observe_counts counts a).histogram
at-observe_counts-grows j [] a = omega arith
at-observe_counts-grows j (beams ∷ counts) a =
    let ih = at-observe_counts-grows j counts (observe_count beams a) in
    omega (arith, ih, at-observe_count-grows beams j a)

pub observe_counts-positive :
    (counts : List ℕ) (a : QualityAccumulator)
    → All (λ c. 1 ≤ at c (observe_counts counts a).histogram) counts
observe_counts-positive [] a = tt
observe_counts-positive (beams ∷ counts) a = (
  let more = at-observe_counts-grows beams counts (observe_count beams a) in
      omega (arith, more, at-observe_count_self beams a),
  observe_counts-positive counts (observe_count beams a),
)

pub positive-Mem :
    (j : ℕ) (counts : List ℕ) (a : QualityAccumulator)
    → 1 ≤ at j (observe_counts counts a).histogram
    → Mem j counts ⊎ (1 ≤ at j a.histogram)
positive-Mem j [] a h = inr h
positive-Mem j (beams ∷ counts) a h = elim (positive-Mem j counts (observe_count beams a) h) [
  | inl later ↦ inl (inr later)
  | inr before ↦ elim (at-observe_count-other beams j a before) [
    | inl same ↦ inl (inl same)
    | inr more ↦ inr more
  ]
]

-- The last entry of the histogram is positive.
abbrev pub IsTopped : List ℕ → Type 0
IsTopped ns = (1 ≤ length ns) × (1 ≤ at (length ns - 1) ns)

length-count_at : (i : ℕ) (ns : List ℕ) → length (count_at i ns) ≡ length ns
unfolding count_at
length-count_at i [] = refl
length-count_at zero (n ∷ ns) = refl
length-count_at (suc i) (n ∷ ns) = ap suc (length-count_at i ns)

IsTopped-at : (j : ℕ) (ns : List ℕ) → length ns ≡ suc j → 1 ≤ at j ns → IsTopped ns
IsTopped-at j ns size h =
    let here : j ≡ length ns - 1 = omega (arith, size) in
    (omega (arith, size), subst (λ k. 1 ≤ at k ns) here h)

-- A count at or beyond the end becomes the last entry; a smaller one leaves the last entry in its
-- place.
observe_count-IsTopped :
    (beams : ℕ) (a : QualityAccumulator)
    → (length a.histogram ≤ suc beams) ⊎ IsTopped a.histogram
    → IsTopped (observe_count beams a).histogram
unfolding observe_count
observe_count-IsTopped beams a h = elim (Bool-cases (leb (length a.histogram) beams)) [
  | inl grows ↦
      let longer = a.histogram ++ zeros (beams - length a.histogram + 1) in
      let longer_size : length longer ≡ suc beams = ground (
        arith,
        grows,
        length-append a.histogram (zeros (beams - length a.histogram + 1)),
        length-zeros (beams - length a.histogram + 1),
      ) in
      let size = length-count_at beams longer in
      rw grows (
        IsTopped-at beams (count_at beams longer) (omega (arith, size, longer_size))
          (at-count_at_self beams longer (omega (arith, longer_size))))
  | inr fits ↦
      let size = length-count_at beams a.histogram in
      rw fits (elim h [
        | inl short ↦
            IsTopped-at beams (count_at beams a.histogram) (ground (arith, size, short, fits))
              (at-count_at_self beams a.histogram (ground (arith, fits)))
        | inr (some_entry, top) ↦
            let more = at-count_at-grows beams (length a.histogram - 1) a.histogram in
            IsTopped-at (length a.histogram - 1) (count_at beams a.histogram)
              (omega (arith, size, some_entry)) (omega (arith, more, top))
      ])
]

observe_counts-IsTopped_more :
    (counts : List ℕ) (a : QualityAccumulator)
    → IsTopped a.histogram
    → IsTopped (observe_counts counts a).histogram
observe_counts-IsTopped_more [] a h = h
observe_counts-IsTopped_more (beams ∷ counts) a h =
    observe_counts-IsTopped_more counts (observe_count beams a)
      (observe_count-IsTopped beams a (inr h))

pub observe_counts-IsTopped :
    (counts : List ℕ) → 1 ≤ length counts → IsTopped (observe_counts counts make_quality).histogram
observe_counts-IsTopped [] h = absurd (omega arith)
observe_counts-IsTopped (beams ∷ counts) h =
    observe_counts-IsTopped_more counts (observe_count beams make_quality)
      (observe_count-IsTopped beams make_quality (inl (omega arith)))

rank_index_within :
    (rank i cumulative : ℕ) (ns : List ℕ)
    → 1 ≤ length ns
    → rank_index rank i cumulative ns ≤ i + (length ns - 1)
unfolding rank_index
rank_index_within rank i cumulative [] h = absurd (omega arith)
rank_index_within rank i cumulative (n ∷ []) h = ground arith
rank_index_within rank i cumulative (n ∷ m ∷ ns) h =
    let ih = rank_index_within rank (suc i) (cumulative + n) (m ∷ ns) (omega arith) in
    elim (Bool-cases (leb rank (cumulative + n))) [
      | inl reached ↦ rw reached (omega arith)
      | inr below ↦ rw below (omega (arith, ih))
    ]

-- A percentile is at most the last positive entry.
pub rank_index-IsLast :
    (rank : ℕ) (ns : List ℕ) (k : ℕ) → IsTopped ns → IsLast 0 ns k → rank_index rank 0 0 ns ≤ k
rank_index-IsLast rank ns k (some_entry, top) (j, e, here, most) =
    let within = rank_index_within rank 0 0 ns some_entry in
    omega (arith, within, e, most (length ns - 1) top)
