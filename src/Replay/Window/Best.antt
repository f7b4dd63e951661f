-- ===== src/Replay/Window/Best.antt =====
-- The window that is chosen among the candidates.
use go2_local_navigation.Prelude.{
  ℕ, ◌≤◌, ◌≡◌, sym, refl, inl, inr, Bool, true, false, not, ◌&&◌, ◌||◌, List, [], ◌∷◌, All, ok, ltb,
  ok-injective, arith, Bool-cases,
}
use mathlib.Core.Path.{subst}
use go2_local_navigation.Prelude.Float.{Float, Trig, IsOrdered, IsSigned, ◌≼◌}
use go2_local_navigation.Replay.Window.{
  MessageRecord, ShortWindow, better, best_of, chosen, short_window_candidates, choose_short_window,
}
use go2_local_navigation.Replay.Window.Counts.{IsWindow, choose_short_window-IsWindow}

not_better :
    (lt le ge eq before : Bool)
    → lt ≡ not ge
    → eq ≡ le && ge
    → (lt || (eq && before)) ≡ false
    → (ge ≡ true) × (le ≡ true → before ≡ false)
not_better lt le false eq before l e h = cc
not_better lt le true eq before l e h = (refl, λ k. cc)

is_better :
    (lt le ge eq before : Bool)
    → lt ≡ not ge
    → eq ≡ le && ge
    → (lt ≡ true → le ≡ true)
    → (lt || (eq && before)) ≡ true
    → (le ≡ true) × (ge ≡ true → before ≡ true)
is_better true le false eq before l e t h = (t refl, λ k. cc)
is_better true le true eq before l e t h = cc
is_better false true true true before l e t h = (refl, λ k. h)
is_better false le ge false before l e t h = cc
is_better false true false true before l e t h = cc
is_better false false ge true before l e t h = cc

module _ {F : Type 0} ⦃fl : Float F⦄ where
  -- no NaN
  abbrev pub IsScored : ShortWindow F → Type 0
  IsScored w = w.path_score ≼ w.path_score

  -- `a` has a score of at least that of `b`, and starts no later if `b` has one of at least its own.
  pub record IsAtLeast (a b : ShortWindow F) : Type 0 where
    pub score : b.path_score ≼ a.path_score
    pub earliest : a.path_score ≼ b.path_score → a.start_ns ≤ b.start_ns

  module _ (ordered : IsOrdered F) (signed : IsSigned F) where
    IsAtLeast-refl : (a : ShortWindow F) → IsScored a → IsAtLeast a a
    IsAtLeast-refl a h = record { score = h; earliest = λ _. omega arith }

    IsAtLeast-trans : (a b c : ShortWindow F) → IsAtLeast a b → IsAtLeast b c → IsAtLeast a c
    IsAtLeast-trans a b c h k = record {
      score = ordered.le_trans c.path_score b.path_score a.path_score k.score h.score;
      earliest = λ e.
          let ab = h.earliest (ordered.le_trans a.path_score c.path_score b.path_score e k.score) in
          let bc = k.earliest (ordered.le_trans b.path_score a.path_score c.path_score h.score e) in
          omega (arith, ab, bc);
    }

    better-IsAtLeast :
        (a b : ShortWindow F) → IsScored a → IsScored b → better a b ≡ true → IsAtLeast a b
    better-IsAtLeast a b h k e =
        let x = fl.neg a.path_score in
        let y = fl.neg b.path_score in
        let less = ordered.lt-eq-not-le x y (signed.neg_le _ _ h) (signed.neg_le _ _ k) in
        let same = signed.eq-le-le x y (signed.neg_le _ _ h) (signed.neg_le _ _ k) in
        let (ahead, early) =
          is_better (fl.lt x y) (fl.le x y) (fl.le y x) (fl.eq x y) (ltb a.start_ns b.start_ns) less
            same (ordered.le_of_lt x y) e in
        record {
          score = signed.le_of_neg _ _ ahead;
          earliest = λ l. let first = early (signed.neg_le _ _ l) in ground (arith, first);
        }

    not_better-IsAtLeast :
        (a b : ShortWindow F) → IsScored a → IsScored b → better a b ≡ false → IsAtLeast b a
    not_better-IsAtLeast a b h k e =
        let x = fl.neg a.path_score in
        let y = fl.neg b.path_score in
        let less = ordered.lt-eq-not-le x y (signed.neg_le _ _ h) (signed.neg_le _ _ k) in
        let same = signed.eq-le-le x y (signed.neg_le _ _ h) (signed.neg_le _ _ k) in
        let (back, late) =
          not_better (fl.lt x y) (fl.le x y) (fl.le y x) (fl.eq x y) (ltb a.start_ns b.start_ns)
            less same e in
        record {
          score = signed.le_of_neg _ _ back;
          earliest = λ l. let first = late (signed.neg_le _ _ l) in ground (arith, first);
        }

    -- It is at least the one, and all the others.
    abbrev IsBestOf : ShortWindow F → List (ShortWindow F) → ShortWindow F → Type 0
    IsBestOf best ws r = IsAtLeast r best × All (IsAtLeast r) ws

    replaced :
        (best w : ShortWindow F) (ws : List (ShortWindow F))
        → better w best ≡ true
        → best_of best (w ∷ ws) ≡ best_of w ws
    unfolding best_of
    replaced best w ws above = rw above refl

    left_alone :
        (best w : ShortWindow F) (ws : List (ShortWindow F))
        → better w best ≡ false
        → best_of best (w ∷ ws) ≡ best_of best ws
    unfolding best_of
    left_alone best w ws not_above = rw not_above refl

    best_of-IsBestOf :
        (best : ShortWindow F) (ws : List (ShortWindow F))
        → IsScored best
        → All IsScored ws
        → IsBestOf best ws (best_of best ws)
    best_of-IsBestOf best [] h k = (unfold best_of in IsAtLeast-refl best h, tt)
    best_of-IsBestOf best (w ∷ ws) h k = elim (Bool-cases (better w best)) [
      | inl above ↦
          let (first, rest) = best_of-IsBestOf w ws k.0 k.1 in
          let whole = IsAtLeast-trans _ w best first (better-IsAtLeast w best k.0 h above) in
          subst (IsBestOf best (w ∷ ws)) (sym (replaced best w ws above)) (whole, (first, rest))
      | inr not_above ↦
          let (first, rest) = best_of-IsBestOf best ws h k.1 in
          let other =
            IsAtLeast-trans _ best w first (not_better-IsAtLeast w best k.0 h not_above) in
          subst (IsBestOf best (w ∷ ws)) (sym (left_alone best w ws not_above))
            (first, (other, rest))
    ]

    chosen-IsAtLeast :
        (ws : List (ShortWindow F)) {w : ShortWindow F}
        → All IsScored ws
        → chosen ws ≡ ok w
        → All (IsAtLeast w) ws
    chosen-IsAtLeast [] h e = cc
    chosen-IsAtLeast (v ∷ ws) h e =
        subst (λ w. All (IsAtLeast w) (v ∷ ws)) (ok-injective e) (best_of-IsBestOf v ws h.0 h.1)

    module _ ⦃m : Trig F⦄ (round9 : F → F) where
      -- If no candidate has NaN for a score, the window that is chosen lasts 120 s from a whole second
      -- inside the interval, its counts are the numbers of the clouds and odometry messages of the
      -- log from its start on and before its end, and they reach both minima; and no candidate has a
      -- higher score, or as high a one and an earlier start.
      pub choose_short_window-IsBest :
          (odometry : List (MessageRecord F)) (cloud_times : List ℕ)
          (interval_start interval_end minimum_clouds minimum_odometry : ℕ) (w : ShortWindow F)
          → All IsScored (
              short_window_candidates round9 odometry cloud_times interval_start interval_end
                minimum_clouds minimum_odometry)
          → choose_short_window round9 odometry cloud_times interval_start interval_end
              minimum_clouds minimum_odometry
            ≡ ok w
          → IsWindow odometry cloud_times interval_start interval_end minimum_clouds
              minimum_odometry w
            × All (IsAtLeast w) (
                short_window_candidates round9 odometry cloud_times interval_start interval_end
                  minimum_clouds minimum_odometry)
      choose_short_window-IsBest odometry cloud_times interval_start interval_end minimum_clouds
            minimum_odometry w scored h =
          (
            choose_short_window-IsWindow round9 odometry cloud_times interval_start interval_end
                minimum_clouds minimum_odometry w h,
            chosen-IsAtLeast _ scored (unfold choose_short_window in h),
          )
