-- ===== src/Replay/Window.antt =====
-- src/go2_validation/go2_validation/external_replay_window.py: the candidates for the short replay,
-- and the choice among them. Log times are unsigned; `round(score, 9)` is a parameter.
pub mod Bisect
pub mod Counts
pub mod Best
use go2_local_navigation.Prelude.{
  ℕ, zero, suc, ◌+◌, ◌-◌, ◌*◌, ◌/◌, String, Bool, true, false, not, ◌&&◌, ◌||◌, Option, none, some,
  List, [], ◌∷◌, map, Result, ok, err, ltb, leb, ◌==◌, if◌then◌else◌,
}
use go2_local_navigation.Prelude.Float.{Float, Trig}
use go2_local_navigation.Replay.Contract.{ContractConflict}

abbrev pub nanoseconds : ℕ
nanoseconds = 1000000000

abbrev pub short_duration_ns : ℕ
short_duration_ns = 120000000000

pub record MessageRecord (F : Type 0) : Type 0 where
  pub channel : String
  pub log_time_ns : ℕ
  pub sequence : ℕ
  pub planar_xy : Option (F × F)

pub record ShortWindow (F : Type 0) : Type 0 where
  pub start_ns : ℕ
  pub end_ns : ℕ
  pub cloud_count : ℕ
  pub odometry_count : ℕ
  pub path_score : F

-- `sorted` is stable: an item goes before the first one that is not below it.
module _ {A : Type 0} (below : A → A → Bool) where
  unfoldable pub insert : A → List A → List A
  insert x [] = x ∷ []
  insert x (y ∷ ys) = let rest = insert x ys in if below y x then y ∷ rest else x ∷ y ∷ ys

  unfoldable pub sorted : List A → List A
  unfolding insert
  sorted [] = []
  sorted (x ∷ xs) = insert x (sorted xs)

-- `bisect_left`: how many items at the front are below the bound
unfoldable pub bisect_left : List ℕ → ℕ → ℕ
bisect_left [] x = 0
bisect_left (t ∷ ts) x = let rest = bisect_left ts x in if ltb t x then suc rest else 0

abbrev has_second : ℕ → List ℕ → Bool
has_second second [] = false
has_second second (s ∷ ss) = second == s || has_second second ss

module _ {F : Type 0} where
  -- the order of the pairs (log time, sequence)
  abbrev pub record_below : MessageRecord F → MessageRecord F → Bool
  record_below a b =
      ltb a.log_time_ns b.log_time_ns
      || (a.log_time_ns == b.log_time_ns && ltb a.sequence b.sequence)

  abbrev second_of : MessageRecord F → ℕ
  second_of r = r.log_time_ns / nanoseconds * nanoseconds

  -- the first record of each second, of records in the order of their times
  unfoldable pub first_by_second : List ℕ → List (MessageRecord F) → List (ℕ × MessageRecord F)
  first_by_second known [] = []
  first_by_second known (r ∷ rs) =
      let skipped = first_by_second known rs in
      let kept = (second_of r, r) ∷ first_by_second (second_of r ∷ known) rs in
      if has_second (second_of r) known then skipped else kept

  -- those that have a position
  unfoldable pub path_samples : List (ℕ × MessageRecord F) → List (ℕ × (F × F))
  path_samples [] = []
  path_samples ((second, r) ∷ rest) = elim r.planar_xy [
    | none ↦ path_samples rest
    | some xy ↦ (second, xy) ∷ path_samples rest
  ]

module _ {F : Type 0} ⦃fl : Float F⦄ ⦃m : Trig F⦄ where
  -- `edge_prefix` after an entry
  unfoldable pub edges_after : F → List (ℕ × (F × F)) → List F
  edges_after total ((s, (x, y)) ∷ (t, (x', y')) ∷ rest) =
      let next = fl.add total (m.hypot (fl.sub x' x) (fl.sub y' y)) in
      next ∷ edges_after next ((t, (x', y')) ∷ rest)
  edges_after total _ = []

  unfoldable pub edge_prefix : List (ℕ × (F × F)) → List F
  unfolding edges_after
  edge_prefix samples = fl.nought ∷ edges_after fl.nought samples

  -- the index is in range: the prefix is as long as the samples, or longer
  abbrev nth : List F → ℕ → F
  nth [] i = fl.nought
  nth (x ∷ xs) zero = x
  nth (x ∷ xs) (suc i) = nth xs i

  unfoldable pub path_score : List (ℕ × (F × F)) → ℕ → ℕ → F
  unfolding edge_prefix bisect_left
  path_score samples start end =
      let seconds = map (λ (p : ℕ × (F × F)). p.0) samples in
      let prefix = edge_prefix samples in
      let left = bisect_left seconds start in
      let right = bisect_left seconds end in
      if ltb 1 (right - left) then fl.sub (nth prefix (right - 1)) (nth prefix left) else fl.nought

-- What the loop over the starts reads.
pub record Index (F : Type 0) : Type 0 where
  pub cloud_times : List ℕ
  pub odometry_times : List ℕ
  pub samples : List (ℕ × (F × F))
  pub minimum_cloud_count : ℕ
  pub minimum_odometry_count : ℕ

-- `len(range(first, interval_end - SHORT + 1, NANOSECONDS))`
abbrev pub range_length : ℕ → ℕ → ℕ
range_length first interval_end =
    if leb (first + short_duration_ns) interval_end
    then (interval_end - short_duration_ns - first) / nanoseconds + 1
    else 0

abbrev pub first_start : ℕ → ℕ
first_start interval_start = (interval_start + nanoseconds - 1) / nanoseconds * nanoseconds

module _ {F : Type 0} where
  abbrev pub too_few : Index F → ShortWindow F → Bool
  too_few index w =
      ltb w.cloud_count index.minimum_cloud_count
      || ltb w.odometry_count index.minimum_odometry_count

  unfoldable pub index_of : List (MessageRecord F) → List ℕ → ℕ → ℕ → Index F
  unfolding sorted first_by_second path_samples
  index_of odometry cloud_log_times minimum_clouds minimum_odometry =
      let ordered = sorted record_below odometry in
      record {
        cloud_times = sorted ltb cloud_log_times;
        odometry_times = map (λ (r : MessageRecord F). r.log_time_ns) ordered;
        samples = path_samples (first_by_second [] ordered);
        minimum_cloud_count = minimum_clouds;
        minimum_odometry_count = minimum_odometry;
      }

module _ {F : Type 0} ⦃fl : Float F⦄ where
  -- the order of the pairs (-score, start)
  abbrev pub better : ShortWindow F → ShortWindow F → Bool
  better a b =
      fl.lt (fl.neg a.path_score) (fl.neg b.path_score)
      || (fl.eq (fl.neg a.path_score) (fl.neg b.path_score) && ltb a.start_ns b.start_ns)

  -- `min` keeps the first of the least
  unfoldable pub best_of : ShortWindow F → List (ShortWindow F) → ShortWindow F
  best_of best [] = best
  best_of best (w ∷ ws) = if better w best then best_of w ws else best_of best ws

  abbrev pub chosen : List (ShortWindow F) → Result ContractConflict (ShortWindow F)
  chosen [] = err (record { reason = "short_window_candidate_absent"; detail = "" })
  chosen (w ∷ ws) = ok (best_of w ws)

module _ {F : Type 0} ⦃fl : Float F⦄ ⦃m : Trig F⦄ (round9 : F → F) where
  unfoldable pub window_at : Index F → ℕ → ShortWindow F
  unfolding path_score bisect_left
  window_at index start =
      let end = start + short_duration_ns in
      record {
        start_ns = start;
        end_ns = end;
        cloud_count = bisect_left index.cloud_times end - bisect_left index.cloud_times start;
        odometry_count =
            bisect_left index.odometry_times end - bisect_left index.odometry_times start;
        path_score = round9 (path_score index.samples start end);
      }

  -- the loop over `range`, with the number of starts that are left
  unfoldable pub windows_from : ℕ → Index F → ℕ → List (ShortWindow F)
  unfolding window_at
  windows_from zero index start = []
  windows_from (suc k) index start =
      let rest = windows_from k index (start + nanoseconds) in
      let w = window_at index start in if too_few index w then rest else w ∷ rest

  unfoldable pub short_window_candidates :
      List (MessageRecord F) → List ℕ → ℕ → ℕ → ℕ → ℕ → List (ShortWindow F)
  unfolding index_of windows_from
  short_window_candidates odometry cloud_times interval_start interval_end minimum_clouds
        minimum_odometry =
      let first = first_start interval_start in
      windows_from (range_length first interval_end)
        (index_of odometry cloud_times minimum_clouds minimum_odometry) first

  unfoldable pub choose_short_window :
      List (MessageRecord F) → List ℕ → ℕ → ℕ → ℕ → ℕ → Result ContractConflict (ShortWindow F)
  unfolding short_window_candidates best_of
  choose_short_window odometry cloud_times interval_start interval_end minimum_clouds
        minimum_odometry =
      chosen (
        short_window_candidates odometry cloud_times interval_start interval_end minimum_clouds
          minimum_odometry)
