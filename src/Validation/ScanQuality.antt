-- ===== src/Validation/ScanQuality.antt =====
-- src/go2_validation/go2_validation/mapping_scan_quality.py: the distribution of the valid beams of the
-- scans. `int(...)` of a float is `Truncation`.
pub mod Histogram
pub mod Extremes
pub mod Summary
use go2_local_navigation.Prelude.{
  ℕ, zero, suc, ◌+◌, ◌-◌, String, Bool, true, false, not, ◌&&◌, ◌||◌, Option, none, some, List, [],
  ◌∷◌, ◌++◌, length, ltb, leb, ◌==◌, if◌then◌else◌,
}
use go2_local_navigation.Prelude.Int.{pos, pos_part}
use go2_local_navigation.Prelude.Float.{Float, Truncation}

pub record MappingScanQualityObservation : Type 0 where
  pub sample_count : ℕ
  pub minimum_valid_beams : ℕ
  pub percentile_10_valid_beams : ℕ
  pub median_valid_beams : ℕ
  pub percentile_90_valid_beams : ℕ
  pub maximum_valid_beams : ℕ

abbrev pub empty_quality : MappingScanQualityObservation
empty_quality = record {
  sample_count = 0;
  minimum_valid_beams = 0;
  percentile_10_valid_beams = 0;
  median_valid_beams = 0;
  percentile_90_valid_beams = 0;
  maximum_valid_beams = 0;
}

pub record QualityAccumulator : Type 0 where
  pub sample_count : ℕ
  pub histogram : List ℕ

abbrev pub make_quality : QualityAccumulator
make_quality = record { sample_count = 0; histogram = 0 ∷ [] }

module _ {F : Type 0} ⦃fl : Float F⦄ where
  -- `isfinite(value) and range_min <= value <= range_max`
  abbrev pub is_valid_beam : F → F → F → Bool
  is_valid_beam range_min range_max value =
      fl.is_finite value && fl.le range_min value && fl.le value range_max

  unfoldable pub valid_beams : F → F → List F → ℕ
  valid_beams range_min range_max [] = 0
  valid_beams range_min range_max (value ∷ ranges) =
      let rest = valid_beams range_min range_max ranges in
      if is_valid_beam range_min range_max value then suc rest else rest

-- `histogram.extend(0 for _ in range(n))`
unfoldable pub zeros : ℕ → List ℕ
zeros zero = []
zeros (suc n) = 0 ∷ zeros n

-- `histogram[index] += 1`, for an index in range
unfoldable pub count_at : ℕ → List ℕ → List ℕ
count_at i [] = []
count_at zero (n ∷ ns) = (n + 1) ∷ ns
count_at (suc i) (n ∷ ns) = n ∷ count_at i ns

unfoldable pub observe_count : ℕ → QualityAccumulator → QualityAccumulator
unfolding zeros count_at
observe_count beams a =
    let grown =
      if leb (length a.histogram) beams
      then a.histogram ++ zeros (beams - length a.histogram + 1)
      else a.histogram in
    record { sample_count = a.sample_count + 1; histogram = count_at beams grown }

-- `next(index for index, count in enumerate(histogram) if count > 0)`, from an index on
unfoldable pub first_positive : ℕ → List ℕ → Option ℕ
first_positive i [] = none
first_positive i (n ∷ ns) = let rest = first_positive (suc i) ns in if ltb 0 n then some i else rest

-- the same from the last index down
unfoldable pub last_positive : ℕ → List ℕ → Option ℕ
last_positive i [] = none
last_positive i (n ∷ ns) = elim (last_positive (suc i) ns) [
  | some j ↦ some j
  | none ↦ if ltb 0 n then some i else none
]

-- the index at which the running sum reaches the rank
unfoldable pub rank_index : ℕ → ℕ → ℕ → List ℕ → ℕ
rank_index rank index cumulative [] = index - 1
rank_index rank index cumulative (n ∷ ns) =
    let rest = rank_index rank (suc index) (cumulative + n) ns in
    if leb rank (cumulative + n) then index else rest

module _ {F : Type 0} ⦃fl : Float F⦄ ⦃tr : Truncation F⦄ where
  -- `max(1, int(count * fraction + 0.999999999))`
  unfoldable pub target_rank : ℕ → F → ℕ
  target_rank count fraction =
      let rank = pos_part (
        tr.trunc (
          fl.add (fl.mul (fl.ratio (pos count) (pos 1)) fraction)
            (fl.ratio (pos 999999999) (pos 1000000000)))) in
      if ltb 1 rank then rank else 1

  -- `_percentile`
  unfoldable pub percentile : F → QualityAccumulator → ℕ
  unfolding rank_index target_rank
  percentile fraction a = rank_index (target_rank a.sample_count fraction) 0 0 a.histogram

module _ (F : Type 0) ⦃fl : Float F⦄ ⦃tr : Truncation F⦄ where
  -- the literals 0.10, 0.50 and 0.90
  abbrev pub percent : ℕ → F
  percent p = fl.ratio (pos p) (pos 100)

  abbrev quality_between :
      QualityAccumulator → Option ℕ → Option ℕ → Option MappingScanQualityObservation
  quality_between a (some minimum) (some maximum) = some (record {
    sample_count = a.sample_count;
    minimum_valid_beams = minimum;
    percentile_10_valid_beams = percentile (percent 10) a;
    median_valid_beams = percentile (percent 50) a;
    percentile_90_valid_beams = percentile (percent 90) a;
    maximum_valid_beams = maximum;
  })
  quality_between a _ _ = none

  -- `observation`; `none` is a StopIteration, of a histogram without a sample
  unfoldable pub quality_of : QualityAccumulator → Option MappingScanQualityObservation
  unfolding first_positive last_positive percentile
  quality_of a =
      if a.sample_count == 0
      then some empty_quality
      else quality_between a (first_positive 0 a.histogram) (last_positive 0 a.histogram)
