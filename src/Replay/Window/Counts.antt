-- ===== src/Replay/Window/Counts.antt =====
-- What a candidate counts, and where it lies.
use go2_local_navigation.Prelude.{
  ℕ, zero, suc, ◌+◌, ◌*◌, ◌%◌, ◌≤◌, ◌≡◌, refl, false, ◌||◌, List, [], ◌∷◌, map, All, inl, inr, ok,
  ok-injective, ltb, arith, Bool-cases,
}
use mathlib.Core.Path.{subst}
use go2_local_navigation.Prelude.Float.{Float, Trig}
use go2_local_navigation.Replay.Window.{
  MessageRecord, ShortWindow, Index, window_at, windows_from, too_few, range_length, first_start,
  index_of, short_window_candidates, best_of, better, chosen, choose_short_window, nanoseconds,
  short_duration_ns,
}
use go2_local_navigation.Replay.Window.Bisect.{within, cloud_counts, odometry_counts}

-- A window of 120 s inside the interval, with the messages that the log has in it, and enough of
-- them.
pub record IsWindow {F : Type 0} (odometry : List (MessageRecord F)) (cloud_times : List ℕ)
    (interval_start interval_end minimum_clouds minimum_odometry : ℕ) (w : ShortWindow F)
    : Type 0 where
  pub starts : interval_start ≤ w.start_ns
  pub whole_second : w.start_ns % nanoseconds ≡ 0
  pub lasts : w.end_ns ≡ w.start_ns + short_duration_ns
  pub ends : w.end_ns ≤ interval_end
  pub clouds : w.cloud_count ≡ within w.start_ns w.end_ns cloud_times
  pub odometry_messages :
      w.odometry_count
      ≡ within w.start_ns w.end_ns (map (λ (r : MessageRecord F). r.log_time_ns) odometry)
  pub enough_clouds : minimum_clouds ≤ w.cloud_count
  pub enough_odometry : minimum_odometry ≤ w.odometry_count

range_ends :
    (first interval_end : ℕ)
    → 1 ≤ range_length first interval_end
    → first + range_length first interval_end * nanoseconds + short_duration_ns
      ≤ interval_end + nanoseconds
range_ends first interval_end h = ground arith

not_too_few : (a b c d : ℕ) → ltb a b || ltb c d ≡ false → (b ≤ a) × (d ≤ c)
not_too_few a b c d h = ground arith

module _ {F : Type 0} ⦃fl : Float F⦄ ⦃m : Trig F⦄ (round9 : F → F) where
  window_at-IsWindow :
      (odometry : List (MessageRecord F)) (cloud_times : List ℕ)
      (interval_start interval_end minimum_clouds minimum_odometry start : ℕ)
      → interval_start ≤ start
      → start % nanoseconds ≡ 0
      → start + short_duration_ns ≤ interval_end
      → let index = index_of odometry cloud_times minimum_clouds minimum_odometry in
        too_few index (window_at round9 index start) ≡ false
        → IsWindow odometry cloud_times interval_start interval_end minimum_clouds minimum_odometry
            (window_at round9 index start)
  unfolding window_at index_of
  window_at-IsWindow odometry cloud_times interval_start interval_end minimum_clouds
        minimum_odometry start a b c d =
      let (k, n) = not_too_few _ _ _ _ d in
      let l : start ≤ start + short_duration_ns = omega arith in
      record {
        starts = a;
        whole_second = b;
        lasts = refl;
        ends = c;
        clouds = cloud_counts start (start + short_duration_ns) cloud_times l;
        odometry_messages = odometry_counts start (start + short_duration_ns) odometry l;
        enough_clouds = k;
        enough_odometry = n;
      }

  module _ (odometry : List (MessageRecord F)) (cloud_times : List ℕ)
      (interval_start interval_end minimum_clouds minimum_odometry : ℕ) where
    abbrev IsWindowHere : ShortWindow F → Type 0
    IsWindowHere =
        IsWindow odometry cloud_times interval_start interval_end minimum_clouds minimum_odometry

    abbrev index_here : Index F
    index_here = index_of odometry cloud_times minimum_clouds minimum_odometry

    windows_from-IsWindow :
        (k start : ℕ)
        → interval_start ≤ start
        → start % nanoseconds ≡ 0
        → (1 ≤ k → start + k * nanoseconds + short_duration_ns ≤ interval_end + nanoseconds)
        → All IsWindowHere (windows_from round9 k index_here start)
    unfolding windows_from
    windows_from-IsWindow zero start a b c = tt
    windows_from-IsWindow (suc k) start a b c =
        let ih =
          windows_from-IsWindow k (start + nanoseconds) (omega arith) (omega arith)
            (λ l. let c1 = c (omega arith) in omega (arith, c1, l)) in
        elim (Bool-cases (too_few index_here (window_at round9 index_here start))) [
          | inl few ↦ rw few ih
          | inr enough ↦ rw enough (
            window_at-IsWindow odometry cloud_times interval_start interval_end minimum_clouds
                minimum_odometry start a b (let c1 = c (omega arith) in omega (arith, c1)) enough,
            ih,
          )
        ]

    candidates-IsWindow : All IsWindowHere (
        short_window_candidates round9 odometry cloud_times interval_start interval_end
          minimum_clouds minimum_odometry)
    unfolding short_window_candidates
    candidates-IsWindow =
        windows_from-IsWindow (range_length (first_start interval_start) interval_end)
          (first_start interval_start) (omega arith) (omega arith)
          (range_ends (first_start interval_start) interval_end)

    best_of-IsWindow :
        (best : ShortWindow F) (ws : List (ShortWindow F))
        → IsWindowHere best
        → All IsWindowHere ws
        → IsWindowHere (best_of best ws)
    unfolding best_of
    best_of-IsWindow best [] h k = h
    best_of-IsWindow best (w ∷ ws) h k = elim (Bool-cases (better w best)) [
      | inl above ↦ rw above (best_of-IsWindow w ws k.0 k.1)
      | inr not_above ↦ rw not_above (best_of-IsWindow best ws h k.1)
    ]

    chosen-IsWindow :
        (ws : List (ShortWindow F)) {w : ShortWindow F}
        → All IsWindowHere ws
        → chosen ws ≡ ok w
        → IsWindowHere w
    chosen-IsWindow [] h e = cc
    chosen-IsWindow (v ∷ ws) h e =
        subst IsWindowHere (ok-injective e) (best_of-IsWindow v ws h.0 h.1)

    -- The window that is chosen lasts 120 s from a whole second inside the interval, its counts are
    -- the numbers of the clouds and odometry messages of the log from its start on and before its
    -- end, and they reach both minima.
    pub choose_short_window-IsWindow :
        (w : ShortWindow F)
        → choose_short_window round9 odometry cloud_times interval_start interval_end minimum_clouds
            minimum_odometry
          ≡ ok w
        → IsWindow odometry cloud_times interval_start interval_end minimum_clouds minimum_odometry
            w
    unfolding choose_short_window
    choose_short_window-IsWindow w h = chosen-IsWindow _ candidates-IsWindow h
