-- ===== src/Validation/PoseContinuity/Counts.antt =====
-- The counters of src/go2_validation/go2_validation/mapping_pose_continuity.py, whatever the order of
-- the calls.
use go2_local_navigation.Prelude.{
  ℕ, ◌+◌, ◌≤◌, ◌≡◌, refl, ◌&&◌, Option, none, some, List, [], ◌∷◌, Result, ok, err, arith, is_none,
  if◌then◌else◌, Bool-cases, inl, inr,
}
use mathlib.Core.Path.{subst}
use go2_local_navigation.Prelude.Int.{ℤ, ltb_ℤ, ◌-ℤ◌, ◌≤ℤ◌}
use go2_local_navigation.Prelude.Float.{Float, Trig, ◌≼◌, IsOrdered}
use go2_local_navigation.Estimation.Contract.{Xyz, Xyzw}
use go2_local_navigation.Validation.TfContinuity.{maximum_translation_step, maximum_yaw_step}
use go2_local_navigation.Validation.TfContinuity.Maximum.{below_maximum}
use go2_local_navigation.Validation.Pose.{
  PoseError, PlanarPose, TimedPlanarPose, bisect_left, insert_at, planar_pose,
  interpolated_odometry,
}
use go2_local_navigation.Validation.PoseContinuity.{
  MappingCorrectionContinuityObservation, MapCorrectionContinuityAccumulator, make_pose_accumulator,
  record_steps, correction_steps, observe_odometry, observe_map_to_odom, slam_transform_timeout_ns,
  compared, aligned, corrected, same_stamp, same_pose, is_earlier,
}

module _ {F : Type 0} where
  -- stamps in order, none below the bound
  abbrev pub FromStamp : ℤ → List (TimedPlanarPose F) → Type 0
  FromStamp low [] = Unit
  FromStamp low (p ∷ ps) = (low ≤ℤ p.stamp_ns) × FromStamp p.stamp_ns ps

  abbrev pub InOrder : List (TimedPlanarPose F) → Type 0
  InOrder [] = Unit
  InOrder (p ∷ ps) = FromStamp p.stamp_ns ps

  insert-FromStamp :
      (ps : List (TimedPlanarPose F)) (low : ℤ) (x : TimedPlanarPose F)
      → FromStamp low ps
      → low ≤ℤ x.stamp_ns
      → FromStamp low (insert_at (bisect_left ps x.stamp_ns) x ps)
  unfolding bisect_left insert_at
  insert-FromStamp [] low x h l = (l, tt)
  insert-FromStamp (p ∷ ps) low x (h, k) l = elim (Bool-cases (ltb_ℤ p.stamp_ns x.stamp_ns)) [
    | inl e ↦ rw e (h, insert-FromStamp ps p.stamp_ns x k (ground arith))
    | inr e ↦ rw e (l, ((ground arith), k))
  ]

  insert-InOrder :
      (ps : List (TimedPlanarPose F)) (x : TimedPlanarPose F)
      → InOrder ps
      → InOrder (insert_at (bisect_left ps x.stamp_ns) x ps)
  unfolding bisect_left insert_at
  insert-InOrder [] x h = tt
  insert-InOrder (p ∷ ps) x h = elim (Bool-cases (ltb_ℤ p.stamp_ns x.stamp_ns)) [
    | inl e ↦ rw e (insert-FromStamp ps p.stamp_ns x h (ground arith))
    | inr e ↦ rw e ((ground arith), h)
  ]

module _ {F : Type 0} ⦃fl : Float F⦄ ⦃m : Trig F⦄ where
  abbrev first_of : Option (PlanarPose F) → ℕ
  first_of none = 0
  first_of (some p) = 1

  -- every correction that was counted, and the first one, which is only kept
  abbrev pub total : MapCorrectionContinuityAccumulator F → ℕ
  total s =
      first_of s.previous_map_to_odom
      + s.observed.sample_count
      + s.observed.unaligned_sample_count
      + s.observed.duplicate_stamp_count
      + s.observed.regressive_stamp_count

  abbrev pub WithinLimits : MappingCorrectionContinuityObservation F → Type 0
  WithinLimits o =
      (o.maximum_translation_step_m ≼ maximum_translation_step)
      × (o.maximum_yaw_step_rad ≼ maximum_yaw_step)

  pub record IsScreened (o : MappingCorrectionContinuityObservation F) : Type 0 where
    pub translation_counted : o.translation_exceedance_count ≤ o.sample_count
    pub yaw_counted : o.yaw_exceedance_count ≤ o.sample_count
    pub screened :
        WithinLimits o → (o.translation_exceedance_count ≡ 0) × (o.yaw_exceedance_count ≡ 0)

  record_steps-IsScreened :
      (ordered : IsOrdered F) (translation yaw : F) (published effective : ℤ)
      (o : MappingCorrectionContinuityObservation F)
      → IsScreened o
      → IsScreened (record_steps translation yaw published effective o)
  unfolding record_steps
  record_steps-IsScreened ordered translation yaw published effective o h = record {
    translation_counted = ground (arith, h.translation_counted);
    yaw_counted = ground (arith, h.yaw_counted);
    screened = λ (t, y).
        let (t1, t2) =
          below_maximum ordered o.maximum_translation_step_m translation maximum_translation_step
            t in
        let (y1, y2) = below_maximum ordered o.maximum_yaw_step_rad yaw maximum_yaw_step y in
        let (a, b) = h.screened (t1, y1) in (rw t2 a, rw y2 b);
  }

  observe_map_to_odom-total :
      (t : Xyz F) (q : Xyzw F) (published : ℤ) (s : MapCorrectionContinuityAccumulator F)
      → let (s', raised) = observe_map_to_odom t q published s in
        total s' ≡ (if is_none raised then total s + 1 else total s)
  unfolding observe_map_to_odom record_steps
  observe_map_to_odom-total t q published s = ground arith

  observe_map_to_odom-odometry :
      (t : Xyz F) (q : Xyzw F) (published : ℤ) (s : MapCorrectionContinuityAccumulator F)
      → (observe_map_to_odom t q published s).0.odometry ≡ s.odometry
  unfolding observe_map_to_odom
  observe_map_to_odom-odometry t q published s = ground arith

  module _ (ordered : IsOrdered F) where
    corrected-IsScreened :
        (r : Result PoseError (F × F)) (current : PlanarPose F) (published effective : ℤ)
        (s : MapCorrectionContinuityAccumulator F)
        → IsScreened s.observed
        → IsScreened (corrected r current published effective s).0.observed
    unfolding corrected
    corrected-IsScreened (err e) current published effective s h = h
    corrected-IsScreened (ok (translation, yaw)) current published effective s h =
        record_steps-IsScreened ordered translation yaw published effective s.observed h

    -- the three counters that no limit reads
    recounted-IsScreened :
        (o : MappingCorrectionContinuityObservation F) (a b c : ℕ)
        → IsScreened o
        → IsScreened (record o {
          unaligned_sample_count = a;
          duplicate_stamp_count = b;
          regressive_stamp_count = c;
        })
    recounted-IsScreened o a b c h = record {
      translation_counted = h.translation_counted;
      yaw_counted = h.yaw_counted;
      screened = h.screened;
    }

    compared-IsScreened :
        (p : Option (PlanarPose F)) (current : PlanarPose F) (published effective : ℤ)
        (s : MapCorrectionContinuityAccumulator F)
        → IsScreened s.observed
        → IsScreened (compared p current published effective s).0.observed
    unfolding compared aligned
    compared-IsScreened none current published effective s h = h
    compared-IsScreened (some p) current published effective s h =
        go (interpolated_odometry s.odometry effective)
      where
        go :
            (r : Result PoseError (Option (PlanarPose F)))
            → IsScreened (aligned r p current published effective s).0.observed
        go (err e) = h
        go (ok none) =
            recounted-IsScreened s.observed (s.observed.unaligned_sample_count + 1)
              s.observed.duplicate_stamp_count s.observed.regressive_stamp_count h
        go (ok (some pose)) =
            corrected-IsScreened (correction_steps p current pose) current published effective s h

    observe_map_to_odom-IsScreened :
        (t : Xyz F) (q : Xyzw F) (published : ℤ) (s : MapCorrectionContinuityAccumulator F)
        → IsScreened s.observed
        → IsScreened (observe_map_to_odom t q published s).0.observed
    unfolding observe_map_to_odom
    observe_map_to_odom-IsScreened t q published s h =
        let o = s.observed in
        let effective = published -ℤ slam_transform_timeout_ns in
        let current = planar_pose t q in
        elim (Bool-cases (
          same_stamp s.last_received_effective_stamp_ns effective
          && same_pose s.previous_map_to_odom current)) [
            | inl e ↦ rw e (
                recounted-IsScreened o o.unaligned_sample_count (o.duplicate_stamp_count + 1)
                  o.regressive_stamp_count h)
            | inr e ↦ elim (Bool-cases (is_earlier s.last_received_effective_stamp_ns effective)) [
              | inl f ↦
                  rw (e, f)
                    (recounted-IsScreened o o.unaligned_sample_count o.duplicate_stamp_count
                      (o.regressive_stamp_count + 1) h)
              | inr f ↦
                  rw (e, f)
                    (compared-IsScreened s.previous_map_to_odom current published effective
                      (record s { last_received_effective_stamp_ns = some effective }) h)
            ]
          ]

-- The callbacks of the observer, in the order in which they run.
pub data PoseCall (F : Type 0) : Type 0 where
  odometry_pose : Xyz F → Xyzw F → ℤ → PoseCall F
  map_correction : Xyz F → Xyzw F → ℤ → PoseCall F

module _ {F : Type 0} ⦃fl : Float F⦄ ⦃m : Trig F⦄ where
  -- the state and the number of corrections that returned
  abbrev pub pose_call :
      PoseCall F
      → MapCorrectionContinuityAccumulator F × ℕ
      → MapCorrectionContinuityAccumulator F × ℕ
  pose_call (odometry_pose t q stamp) (s, n) = (observe_odometry t q stamp s, n)
  pose_call (map_correction t q published) (s, n) =
      let (s', raised) = observe_map_to_odom t q published s in
      (s', if is_none raised then n + 1 else n)

  unfoldable pub pose_calls :
      List (PoseCall F)
      → MapCorrectionContinuityAccumulator F × ℕ
      → MapCorrectionContinuityAccumulator F × ℕ
  pose_calls [] s = s
  pose_calls (c ∷ cs) s = pose_calls cs (pose_call c s)

  pub record IsConsistent (state : MapCorrectionContinuityAccumulator F × ℕ) : Type 0 where
    pub counted : total state.0 ≡ state.1
    pub in_order : InOrder state.0.odometry
    pub screened : IsScreened state.0.observed

  pose_call-IsConsistent :
      (ordered : IsOrdered F) (c : PoseCall F) (s : MapCorrectionContinuityAccumulator F) (n : ℕ)
      → IsConsistent (s, n)
      → IsConsistent (pose_call c (s, n))
  pose_call-IsConsistent ordered (odometry_pose t q stamp) s n h = record {
    counted = unfold observe_odometry in h.counted;
    in_order =
        unfold observe_odometry in
        insert-InOrder s.odometry (record { stamp_ns = stamp; pose = planar_pose t q }) h.in_order;
    screened = unfold observe_odometry in h.screened;
  }
  pose_call-IsConsistent ordered (map_correction t q published) s n h = record {
    counted =
        subst
          (λ k.
            total (observe_map_to_odom t q published s).0
            ≡ (if is_none (observe_map_to_odom t q published s).1 then k + 1 else k))
          h.counted (observe_map_to_odom-total t q published s);
    in_order = rw (observe_map_to_odom-odometry t q published s) h.in_order;
    screened = observe_map_to_odom-IsScreened ordered t q published s h.screened;
  }

  pose_calls-keeps :
      (ordered : IsOrdered F) (cs : List (PoseCall F))
      (s : MapCorrectionContinuityAccumulator F × ℕ)
      → IsConsistent s
      → IsConsistent (pose_calls cs s)
  unfolding pose_calls
  pose_calls-keeps ordered [] s h = h
  pose_calls-keeps ordered (c ∷ cs) s h =
      pose_calls-keeps ordered cs (pose_call c s) (pose_call-IsConsistent ordered c s.0 s.1 h)

  start-IsConsistent : IsConsistent (make_pose_accumulator, 0)
  start-IsConsistent = record {
    counted = refl;
    in_order = tt;
    screened = record {
      translation_counted = omega arith;
      yaw_counted = omega arith;
      screened = λ w. (refl, refl);
    };
  }

  -- With ordered floats, whatever the calls: the odometry poses are kept in the order of their stamps; each correction
  -- that returned is the first one or is counted once, as a sample, as unaligned, as a duplicate or
  -- as regressive; no more samples exceed a limit than there are; and when the largest steps are
  -- within the limits, none exceeded them.
  pub pose_calls-IsConsistent :
      (ordered : IsOrdered F) (cs : List (PoseCall F))
      → IsConsistent (pose_calls cs (make_pose_accumulator, 0))
  pose_calls-IsConsistent ordered cs =
      pose_calls-keeps ordered cs (make_pose_accumulator, 0) start-IsConsistent
