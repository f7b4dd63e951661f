-- ===== src/Validation/ScanQuality/Summary.antt =====
-- What the scans are summed up to.
use go2_local_navigation.Prelude.{
  ℕ, ◌^◌, ◌<◌, ◌≤◌, ◌≡◌, refl, some, List, [], ◌∷◌, length, sum, arith, ◌==◌, Bool-cases, inl, inr,
  All, Mem,
}
use mathlib.Core.Path.{subst}
use go2_local_navigation.Prelude.Int.{pos}
use go2_local_navigation.Prelude.Float.{Float, Truncation, IsFinite, IsRounded, IsMonotone}
use go2_local_navigation.Validation.ScanQuality.{
  MappingScanQualityObservation, QualityAccumulator, make_quality, empty_quality, first_positive,
  last_positive, percent, target_rank, percentile, quality_of,
}
use go2_local_navigation.Validation.ScanQuality.Histogram.{
  IsCounted, observe_counts, observe_counts-IsCounted, first_positive-sum, last_positive-sum,
  rank_index_mono,
}
use go2_local_navigation.Validation.ScanQuality.Extremes.{
  at, at_le_sum, first_positive-at, IsLast, last_positive-IsLast, first_positive-rank_index,
  rank_index-IsLast, IsTopped, observe_counts-IsTopped, observe_counts-positive, positive-Mem,
}

-- As many samples as scans, the least and the greatest count, and the percentiles between them.
pub record IsSummary (counts : List ℕ) (q : MappingScanQualityObservation) : Type 0 where
  pub samples : q.sample_count ≡ length counts
  pub least : All (λ c. q.minimum_valid_beams ≤ c) counts
  pub greatest : All (λ c. c ≤ q.maximum_valid_beams) counts
  pub attained :
      1 ≤ length counts → Mem q.minimum_valid_beams counts × Mem q.maximum_valid_beams counts
  pub lowest : q.minimum_valid_beams ≤ q.percentile_10_valid_beams
  pub lower_half : q.percentile_10_valid_beams ≤ q.median_valid_beams
  pub upper_half : q.median_valid_beams ≤ q.percentile_90_valid_beams
  pub highest : q.percentile_90_valid_beams ≤ q.maximum_valid_beams

All-map : (P Q : ℕ → Type 0) (counts : List ℕ) → ((c : ℕ) → P c → Q c) → All P counts → All Q counts
All-map P Q [] f h = tt
All-map P Q (c ∷ counts) f h = (f c h.0, All-map P Q counts f h.1)

empty-IsSummary : (counts : List ℕ) → length counts ≡ 0 → IsSummary counts empty_quality
empty-IsSummary [] h = record {
  samples = refl;
  least = tt;
  greatest = tt;
  attained = λ l. absurd (omega (arith, l));
  lowest = omega arith;
  lower_half = omega arith;
  upper_half = omega arith;
  highest = omega arith;
}
empty-IsSummary (c ∷ counts) h = absurd (omega (arith, h))

observed :
    (counts : List ℕ) (j : ℕ)
    → 1 ≤ at j (observe_counts counts make_quality).histogram
    → Mem j counts
observed counts j h = elim (positive-Mem j counts make_quality h) [
  | inl here ↦ here
  | inr before ↦ absurd (let l = at_le_sum j (0 ∷ []) in omega (arith, before, l))
]

module _ {F : Type 0} ⦃fl : Float F⦄ ⦃tr : Truncation F⦄ where
  -- A greater fraction has a rank that is no lower.
  target_rank_mono :
      IsRounded F
      → IsMonotone F
      → (count low high : ℕ) → count < 2 ^ 63
      → low ≤ high
      → high ≤ 100
      → target_rank count (percent F low) ≤ target_rank count (percent F high)
  unfolding target_rank
  target_rank_mono rounded monotone count low high size order bound =
      let nines = fl.ratio (pos 999999999) (pos 1000000000) in
      let n = fl.ratio (pos count) (pos 1) in
      let product =
        monotone.mul_le n (percent F low) (percent F high)
          (rounded.ratio_finite (pos count) (pos 1) (omega (arith, size)) (omega arith))
          (rounded.ratio_finite (pos low) (pos 100) (omega (arith, order, bound)) (omega arith))
          (rounded.ratio_finite (pos high) (pos 100) (omega (arith, bound)) (omega arith))
          (rounded.ratio_nonneg count 1 size (omega arith))
          (rounded.ratio_nonneg low 100 (omega (arith, order, bound)) (omega arith))
          (monotone.ratio_le low high 100 order (omega (arith, bound)) (omega arith)) in
      let finite : (m : ℕ) → m ≤ 100 → IsFinite (fl.add (fl.mul n (percent F m)) nines) = λ m h.
        monotone.sum_finite count m 100 999999999 1000000000 size h (omega arith) (omega arith)
          (omega arith) in
      let ranks =
        monotone.trunc_le (fl.add (fl.mul n (percent F low)) nines)
          (fl.add (fl.mul n (percent F high)) nines) (finite low (omega (arith, order, bound)))
          (finite high bound)
          (monotone.add_le _ _ nines
            (rounded.ratio_finite (pos 999999999) (pos 1000000000) (omega arith) (omega arith))
            product) in
      ground (arith, ranks)

  percentile_above :
      (fraction : F) (a : QualityAccumulator) (k : ℕ)
      → first_positive 0 a.histogram ≡ some k
      → k ≤ percentile fraction a
  unfolding percentile target_rank
  percentile_above fraction a k h = first_positive-rank_index _ 0 0 a.histogram k h (ground arith)

  percentile_below :
      (fraction : F) (a : QualityAccumulator) (k : ℕ)
      → IsTopped a.histogram
      → IsLast 0 a.histogram k
      → percentile fraction a ≤ k
  unfolding percentile
  percentile_below fraction a k topped last = rank_index-IsLast _ a.histogram k topped last

module _ (F : Type 0) ⦃fl : Float F⦄ ⦃tr : Truncation F⦄ (rounded : IsRounded F)
    (monotone : IsMonotone F) where
  percentile_mono :
      (low high : ℕ) (a : QualityAccumulator)
      → a.sample_count < 2 ^ 63
      → low ≤ high
      → high ≤ 100
      → percentile (percent F low) a ≤ percentile (percent F high) a
  unfolding percentile
  percentile_mono low high a size order bound =
      rank_index_mono _ _ 0 0 a.histogram
        (target_rank_mono rounded monotone a.sample_count low high size order bound)

  abbrev summary_between : QualityAccumulator → ℕ → ℕ → MappingScanQualityObservation
  summary_between a first last = record {
    sample_count = a.sample_count;
    minimum_valid_beams = first;
    percentile_10_valid_beams = percentile (percent F 10) a;
    median_valid_beams = percentile (percent F 50) a;
    percentile_90_valid_beams = percentile (percent F 90) a;
    maximum_valid_beams = last;
  }

  between-IsSummary :
      (counts : List ℕ) (first last : ℕ)
      → let a = observe_counts counts make_quality in
        a.sample_count ≡ length counts
        → 1 ≤ a.sample_count
        → first_positive 0 a.histogram ≡ some first
        → last_positive 0 a.histogram ≡ some last
        → length counts < 2 ^ 63
        → IsSummary counts (summary_between a first last)
  between-IsSummary counts first last size some_scan found found_last few =
      let a = observe_counts counts make_quality in
      let (j, e, here, least) = first_positive-at 0 a.histogram first found in
      let (k, e', here', most) = last_positive-IsLast 0 a.histogram last found_last in
      let first_is : j ≡ first = omega (arith, e) in
      let last_is : k ≡ last = omega (arith, e') in
      let positive = observe_counts-positive counts make_quality in
      record {
        samples = size;
        least = All-map _ _ counts (λ c p. let l = least c p in omega (arith, l, e)) positive;
        greatest = All-map _ _ counts (λ c p. let l = most c p in omega (arith, l, e')) positive;
        attained = λ _. (
          subst (λ m. Mem m counts) first_is (observed counts j here),
          subst (λ m. Mem m counts) last_is (observed counts k here'),
        );
        lowest = percentile_above (percent F 10) a first found;
        lower_half = percentile_mono 10 50 a (omega (arith, size, few)) (omega arith) (omega arith);
        upper_half = percentile_mono 50 90 a (omega (arith, size, few)) (omega arith) (omega arith);
        highest =
            percentile_below (percent F 90) a last
              (observe_counts-IsTopped counts (omega (arith, size, some_scan)))
              (k, e', here', most);
      }

  quality_of-counted :
      (counts : List ℕ)
      → let a = observe_counts counts make_quality in
        IsCounted a
        → a.sample_count ≡ length counts
        → length counts < 2 ^ 63
        → (q : MappingScanQualityObservation) × (quality_of F a ≡ some q) × IsSummary counts q
  unfolding quality_of
  quality_of-counted counts h size few =
      let a = observe_counts counts make_quality in
      elim (Bool-cases (a.sample_count == 0)) [
        | inl nothing ↦
            rw nothing (empty_quality, refl, empty-IsSummary counts (ground (arith, nothing, size)))
        | inr some_scan ↦
            let positive : 1 ≤ sum a.histogram = ground (arith, some_scan, h) in
            let (first, found) = first_positive-sum 0 a.histogram positive in
            let (last, found_last) = last_positive-sum 0 a.histogram positive in
            let whole =
              between-IsSummary counts first last size (ground (arith, some_scan)) found found_last
                few in
            rw some_scan (rw found (rw found_last (summary_between a first last, refl, whole)))
      ]

  -- After any scans, fewer than 2^63, the distribution can be read: it has as many samples as there
  -- were scans, its minimum is at most and its maximum at least the count of every scan, both are counts
  -- of a scan if there was one, and its percentiles of 10, 50 and 90 lie between them in that order. The
  -- floats are assumed to round as IEEE 754 does (IsRounded, IsMonotone).
  pub quality_of-IsSummary :
      (counts : List ℕ)
      → length counts < 2 ^ 63
      → (q : MappingScanQualityObservation) × (quality_of F (observe_counts counts make_quality)
          ≡ some q)
        × IsSummary counts q
  quality_of-IsSummary counts few =
      let (counted, size) = observe_counts-IsCounted counts make_quality refl in
      quality_of-counted counts counted (omega (arith, size)) few
