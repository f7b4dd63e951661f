-- ===== src/Control/Trial/Summary.antt =====
-- The record of a trial (src/go2_control/go2_control/trial_record.py) as a function of all that the
-- recorder received.
use go2_local_navigation.Prelude.{
  ℕ, ◌+◌, ◌≡◌, ◌∙◌, refl, Bool, true, false, Option, none, some, List, [], ◌∷◌, ◌==◌, arith,
  is_none, length, if◌then◌else◌,
}
use go2_local_navigation.Prelude.Int.{ℤ}
use go2_local_navigation.Control.SportRequest.{move_api_id, stop_move_api_id}
use go2_local_navigation.Control.Trial.{
  Observation, candidate, preview, odometry, MotionCandidateObservation, PreviewObservation,
  OdometryObservation, TrialRecordAccumulator, observe_candidate, observe_preview, observe_odometry,
  observe_all,
}

-- The observations of one kind, in the order received.
module _ {F : Type 0} where
  abbrev pub candidates : List (Observation F) → List (MotionCandidateObservation F × ℤ)
  candidates [] = []
  candidates (candidate t o ∷ os) = (o, t) ∷ candidates os
  candidates (_ ∷ os) = candidates os

  abbrev pub previews : List (Observation F) → List (PreviewObservation × ℤ)
  previews [] = []
  previews (preview t o ∷ os) = (o, t) ∷ previews os
  previews (_ ∷ os) = previews os

  abbrev pub odometries : List (Observation F) → List (OdometryObservation F × ℤ)
  odometries [] = []
  odometries (odometry t o ∷ os) = (o, t) ∷ odometries os
  odometries (_ ∷ os) = odometries os

-- those of one kind of request
abbrev pub with_api : ℕ → List (PreviewObservation × ℤ) → List (PreviewObservation × ℤ)
with_api api [] = []
with_api api (p ∷ ps) = let rest = with_api api ps in if p.0.api_id == api then p ∷ rest else rest

-- The last element, or what was there before.
abbrev pub last_after {ℓ} : {A : Type ℓ} → Option A → List A → Option A
last_after before [] = before
last_after before (x ∷ xs) = last_after (some x) xs

abbrev pub first_after {ℓ} : {A : Type ℓ} → Option A → List A → Option A
first_after (some x) xs = some x
first_after none [] = none
first_after none (x ∷ xs) = some x

last_after-if {ℓ} :
    {A : Type ℓ} (b : Bool) (x : A) (xs : List A) (before : Option A)
    → last_after (if b then some x else before) xs ≡ last_after before (if b then x ∷ xs else xs)
last_after-if true x xs before = refl
last_after-if false x xs before = refl

first_after-first {ℓ} :
    {A : Type ℓ} (before : Option A) (x : A) (xs : List A)
    → first_after (if is_none before then some x else before) xs ≡ first_after before (x ∷ xs)
first_after-first none x xs = refl
first_after-first (some y) x xs = refl

module _ {F : Type 0} where
  -- The record as a function of all the observations.
  pub record Summarises (s : TrialRecordAccumulator F) (os : List (Observation F))
      (t : TrialRecordAccumulator F) : Type 0 where
    pub candidate_count :
        t.candidate_message_count ≡ s.candidate_message_count + length (candidates os)
    pub preview_count : t.preview_message_count ≡ s.preview_message_count + length (previews os)
    pub odometry_count :
        t.odometry_message_count ≡ s.odometry_message_count + length (odometries os)
    pub latest_candidate : t.latest_candidate ≡ last_after s.latest_candidate (candidates os)
    pub latest_preview : t.latest_preview ≡ last_after s.latest_preview (previews os)
    pub latest_move :
        t.latest_move_preview
        ≡ last_after s.latest_move_preview (with_api move_api_id (previews os))
    pub latest_stop :
        t.latest_stop_preview
        ≡ last_after s.latest_stop_preview (with_api stop_move_api_id (previews os))
    pub first_odometry : t.first_odometry ≡ first_after s.first_odometry (odometries os)
    pub last_odometry : t.last_odometry ≡ last_after s.last_odometry (odometries os)

  -- Whatever the recorder received, its record is the count of each kind of message, the last of
  -- each, the last preview of a move and of a stop, and the first and the last odometry.
  pub observe_all-Summarises :
      (os : List (Observation F)) (s : TrialRecordAccumulator F)
      → Summarises s os (observe_all os s)
  unfolding observe_all
  observe_all-Summarises [] s = record {
    candidate_count = omega arith;
    preview_count = omega arith;
    odometry_count = omega arith;
    latest_candidate = refl;
    latest_preview = refl;
    latest_move = refl;
    latest_stop = refl;
    first_odometry = ground arith;
    last_odometry = refl;
  }
  observe_all-Summarises (candidate t o ∷ os) s =
      let h = observe_all-Summarises os (observe_candidate t o s) in
      unfold observe_candidate in
      record {
        candidate_count = omega (arith, h.candidate_count);
        preview_count = h.preview_count;
        odometry_count = h.odometry_count;
        latest_candidate = h.latest_candidate;
        latest_preview = h.latest_preview;
        latest_move = h.latest_move;
        latest_stop = h.latest_stop;
        first_odometry = h.first_odometry;
        last_odometry = h.last_odometry;
      }
  observe_all-Summarises (preview t o ∷ os) s =
      let h = observe_all-Summarises os (observe_preview t o s) in
      unfold observe_preview in
      record {
        candidate_count = h.candidate_count;
        preview_count = omega (arith, h.preview_count);
        odometry_count = h.odometry_count;
        latest_candidate = h.latest_candidate;
        latest_preview = h.latest_preview;
        latest_move =
            h.latest_move
            ∙ last_after-if (o.api_id == move_api_id) (o, t) (with_api move_api_id (previews os))
                s.latest_move_preview;
        latest_stop =
            h.latest_stop
            ∙ last_after-if (o.api_id == stop_move_api_id) (o, t)
                (with_api stop_move_api_id (previews os)) s.latest_stop_preview;
        first_odometry = h.first_odometry;
        last_odometry = h.last_odometry;
      }
  observe_all-Summarises (odometry t o ∷ os) s =
      let h = observe_all-Summarises os (observe_odometry t o s) in
      unfold observe_odometry in
      record {
        candidate_count = h.candidate_count;
        preview_count = h.preview_count;
        odometry_count = omega (arith, h.odometry_count);
        latest_candidate = h.latest_candidate;
        latest_preview = h.latest_preview;
        latest_move = h.latest_move;
        latest_stop = h.latest_stop;
        first_odometry =
            h.first_odometry ∙ first_after-first s.first_odometry (o, t) (odometries os);
        last_odometry = h.last_odometry;
      }
