-- ===== src/Validation/TfContinuity/Smooth.antt =====
-- What it means that the largest steps kept by
-- src/go2_validation/go2_validation/mapping_tf_continuity.py are within the limits.
use go2_local_navigation.Prelude.{
  ◌+◌, ◌≡◌, ◌↔◌, inl, inr, refl, sym, true, false, Option, none, some, List, [], ◌∷◌, arith,
  if◌then◌else◌, Bool-cases, ap, ◌∙◌,
}
use mathlib.Core.Path.{subst}
use go2_local_navigation.Prelude.Int.{ℤ, pos}
use go2_local_navigation.Prelude.Float.{
  Float, Trig, ◌≼◌, IsFinite, IsOrdered, IsRounded, IsUnbounded,
}
use go2_local_navigation.Estimation.Contract.{Xyz, Xyzw}
use go2_local_navigation.Validation.TfContinuity.Maximum.{below_maximum, above_maximum}
use go2_local_navigation.Validation.TfContinuity.{
  MappingTfContinuityObservation, MappingTfContinuityAccumulator, maximum_translation_step,
  maximum_yaw_step, make_accumulator, yaw_of, translation_step, yaw_step, keep_translation,
  keep_yaw, count_exceedances, measure, is_measurable, observe,
}

pub record TfSample (F : Type 0) : Type 0 where
  pub translation : Xyz F
  pub quaternion : Xyzw F
  pub stamp : Option ℤ

module _ {F : Type 0} ⦃fl : Float F⦄ ⦃m : Trig F⦄ where
  unfoldable pub observe_all :
      List (TfSample F) → MappingTfContinuityAccumulator F → MappingTfContinuityAccumulator F
  observe_all [] s = s
  observe_all (x ∷ xs) s = observe_all xs (observe x.translation x.quaternion x.stamp s)

  -- neither step from one sample to the next is over its limit
  abbrev pub IsStep : TfSample F → TfSample F → Type 0
  IsStep p x =
      (fl.lt maximum_translation_step (translation_step x.translation p.translation) ≡ false)
      × (fl.lt maximum_yaw_step (yaw_step (yaw_of x.quaternion) (yaw_of p.quaternion)) ≡ false)

  abbrev pub IsMeasurable : TfSample F → Type 0
  IsMeasurable x = is_measurable x.translation x.quaternion ≡ true

  abbrev pub Follows : Option (TfSample F) → TfSample F → Type 0
  Follows none x = Unit
  Follows (some p) x = IsStep p x

  abbrev pub IsSmooth : Option (TfSample F) → List (TfSample F) → Type 0
  IsSmooth previous [] = Unit
  IsSmooth previous (x ∷ xs) = IsMeasurable x × Follows previous x × IsSmooth (some x) xs

  -- the limits that an acceptance asks for
  abbrev pub WithinLimits : MappingTfContinuityObservation F → Type 0
  WithinLimits o =
      (o.maximum_translation_step_m ≼ maximum_translation_step)
      × (o.maximum_yaw_step_rad ≼ maximum_yaw_step)

  abbrev translation_of : Option (TfSample F) → Option (Xyz F)
  translation_of none = none
  translation_of (some x) = some x.translation

  abbrev turn_of : Option (TfSample F) → Option F
  turn_of none = none
  turn_of (some x) = some (yaw_of x.quaternion)

  abbrev Remembers : Option (TfSample F) → MappingTfContinuityAccumulator F → Type 0
  Remembers p s = (s.previous_translation ≡ translation_of p) × (s.previous_yaw ≡ turn_of p)

module _ {F : Type 0} ⦃fl : Float F⦄ ⦃m : Trig F⦄ (o : IsOrdered F) (r : IsRounded F)
    (unbounded : IsUnbounded F) where
  keep_translation-max :
      (step : F) (stamp : Option ℤ) (s : MappingTfContinuityObservation F)
      → ((keep_translation step stamp s).maximum_translation_step_m ≡ (
          if fl.lt s.maximum_translation_step_m step then step else s.maximum_translation_step_m))
        × ((keep_translation step stamp s).maximum_yaw_step_rad ≡ s.maximum_yaw_step_rad)
  unfolding keep_translation
  keep_translation-max step stamp s = (ground arith, ground arith)

  keep_yaw-max :
      (step : F) (stamp : Option ℤ) (s : MappingTfContinuityObservation F)
      → ((keep_yaw step stamp s).maximum_yaw_step_rad
          ≡ (if fl.lt s.maximum_yaw_step_rad step then step else s.maximum_yaw_step_rad))
        × ((keep_yaw step stamp s).maximum_translation_step_m ≡ s.maximum_translation_step_m)
  unfolding keep_yaw
  keep_yaw-max step stamp s = (ground arith, ground arith)

  measured-within :
      (t p : Xyz F) (yaw y : F) (stamp : Option ℤ) (s : MappingTfContinuityObservation F)
      → WithinLimits (measure (some p) (some y) t yaw stamp s)
      → WithinLimits s
        × (fl.lt maximum_translation_step (translation_step t p) ≡ false)
        × (fl.lt maximum_yaw_step (yaw_step yaw y) ≡ false)
  unfolding measure count_exceedances
  measured-within t p yaw y stamp s (ht, hy) =
      let step = translation_step t p in
      let turn = yaw_step yaw y in
      let k = keep_translation step stamp s in
      let (e1, e2) = keep_translation-max step stamp s in
      let (e3, e4) = keep_yaw-max turn stamp k in
      let (a, b) =
        below_maximum o s.maximum_translation_step_m step maximum_translation_step
          (subst (λ (x : F). x ≼ maximum_translation_step) (e4 ∙ e1) ht) in
      let (c, d) =
        below_maximum o k.maximum_yaw_step_rad turn maximum_yaw_step
          (subst (λ (x : F). x ≼ maximum_yaw_step) e3 hy) in
      ((a, subst (λ (x : F). x ≼ maximum_yaw_step) e2 c), b, d)

  within-measured :
      (t p : Xyz F) (yaw y : F) (stamp : Option ℤ) (s : MappingTfContinuityObservation F)
      → WithinLimits s
      → fl.lt maximum_translation_step (translation_step t p) ≡ false
      → fl.lt maximum_yaw_step (yaw_step yaw y) ≡ false
      → WithinLimits (measure (some p) (some y) t yaw stamp s)
  unfolding measure count_exceedances
  within-measured t p yaw y stamp s (ht, hy) kt ky =
      let step = translation_step t p in
      let turn = yaw_step yaw y in
      let k = keep_translation step stamp s in
      let (e1, e2) = keep_translation-max step stamp s in
      let (e3, e4) = keep_yaw-max turn stamp k in
      (
        subst (λ (x : F). x ≼ maximum_translation_step) (sym (e4 ∙ e1))
            (above_maximum o s.maximum_translation_step_m step maximum_translation_step ht kt),
        subst (λ (x : F). x ≼ maximum_yaw_step) (sym e3)
            (above_maximum o k.maximum_yaw_step_rad turn maximum_yaw_step
              (subst (λ (x : F). x ≼ maximum_yaw_step) (sym e2) hy) ky),
      )

  limit-IsFinite : IsFinite {F = F} maximum_translation_step
  limit-IsFinite = r.ratio_finite (pos 5) (pos 10) (omega arith) (omega arith)

  abbrev after : TfSample F → MappingTfContinuityAccumulator F → MappingTfContinuityAccumulator F
  after x s = observe x.translation x.quaternion x.stamp s

  Remembers-after :
      (x : TfSample F) (s : MappingTfContinuityAccumulator F)
      → IsMeasurable x
      → Remembers (some x) (after x s)
  unfolding observe
  Remembers-after x s h = (rw h, rw h)

  abbrev counted : MappingTfContinuityAccumulator F → MappingTfContinuityObservation F
  counted s = record s.observed { sample_count = s.observed.sample_count + 1 }

  observed-after :
      (x : TfSample F) (previous : Option (TfSample F)) (s : MappingTfContinuityAccumulator F)
      → IsMeasurable x
      → Remembers previous s
      → (after x s).observed
        ≡ measure
            (translation_of previous)
            (turn_of previous)
            x.translation
            (yaw_of x.quaternion)
            x.stamp
            (counted s)
  unfolding observe
  observed-after x previous s h rem = rw (h, rem.0, rem.1)

  lost-after :
      (x : TfSample F) (s : MappingTfContinuityAccumulator F)
      → is_measurable x.translation x.quaternion ≡ false
      → (after x s).observed.maximum_translation_step_m ≡ m.inf
  unfolding observe
  lost-after x s h = rw h

  IsMeasurable-of-within :
      (x : TfSample F) (s : MappingTfContinuityAccumulator F)
      → WithinLimits (after x s).observed
      → IsMeasurable x
  IsMeasurable-of-within x s h = elim (Bool-cases (is_measurable x.translation x.quaternion)) [
    | inl e ↦ e
    | inr e ↦ cc (
      h.0,
      ap (λ (y : F). fl.le y maximum_translation_step) (lost-after x s e),
      unbounded maximum_translation_step limit-IsFinite,
    )
  ]

  after-within :
      (x : TfSample F) (previous : Option (TfSample F)) (s : MappingTfContinuityAccumulator F)
      → Remembers previous s
      → IsMeasurable x
      → WithinLimits (after x s).observed
      → Follows previous x × WithinLimits s.observed
  after-within x none s rem h w =
      let k =
        subst (λ (q : MappingTfContinuityObservation F). WithinLimits q)
          (observed-after x none s h rem) w in
      (tt, unfold measure in k)
  after-within x (some p) s rem h w =
      let k =
        subst (λ (q : MappingTfContinuityObservation F). WithinLimits q)
          (observed-after x (some p) s h rem) w in
      let (a, b, c) =
        measured-within x.translation p.translation (yaw_of x.quaternion) (yaw_of p.quaternion)
          x.stamp (counted s) k in
      ((b, c), a)

  within-after :
      (x : TfSample F) (previous : Option (TfSample F)) (s : MappingTfContinuityAccumulator F)
      → Remembers previous s
      → IsMeasurable x
      → Follows previous x
      → WithinLimits s.observed
      → WithinLimits (after x s).observed
  within-after x none s rem h f w =
      subst (λ (q : MappingTfContinuityObservation F). WithinLimits q)
        (sym (observed-after x none s h rem)) (unfold measure in w)
  within-after x (some p) s rem h f w =
      subst (λ (q : MappingTfContinuityObservation F). WithinLimits q)
        (sym (observed-after x (some p) s h rem))
        (within-measured x.translation p.translation (yaw_of x.quaternion) (yaw_of p.quaternion)
          x.stamp (counted s) w f.0 f.1)

  -- Maxima never come down.
  measure-within :
      (pt : Option (Xyz F)) (py : Option F) (t : Xyz F) (yaw : F) (stamp : Option ℤ)
      (s : MappingTfContinuityObservation F)
      → WithinLimits (measure pt py t yaw stamp s)
      → WithinLimits s
  measure-within (some p) (some y) t yaw stamp s w = (measured-within t p yaw y stamp s w).0
  measure-within (some p) none t yaw stamp s w = unfold measure in w
  measure-within none py t yaw stamp s w = unfold measure in w

  earlier-within :
      (x : TfSample F) (s : MappingTfContinuityAccumulator F)
      → WithinLimits (after x s).observed
      → WithinLimits s.observed
  earlier-within x s w =
      let h = IsMeasurable-of-within x s w in
      let e : (after x s).observed
          ≡ measure s.previous_translation s.previous_yaw x.translation (yaw_of x.quaternion)
              x.stamp (counted s) =
        unfold observe in rw h in
      measure-within s.previous_translation s.previous_yaw x.translation (yaw_of x.quaternion)
        x.stamp (counted s) (subst (λ (q : MappingTfContinuityObservation F). WithinLimits q) e w)

  all_earlier-within :
      (xs : List (TfSample F)) (s : MappingTfContinuityAccumulator F)
      → WithinLimits (observe_all xs s).observed
      → WithinLimits s.observed
  unfolding observe_all
  all_earlier-within [] s w = w
  all_earlier-within (x ∷ xs) s w = earlier-within x s (all_earlier-within xs (after x s) w)

  observe_all-within :
      (xs : List (TfSample F)) (previous : Option (TfSample F))
      (s : MappingTfContinuityAccumulator F)
      → Remembers previous s
      → WithinLimits (observe_all xs s).observed
      → IsSmooth previous xs
  unfolding observe_all
  observe_all-within [] previous s rem w = tt
  observe_all-within (x ∷ xs) previous s rem w =
      let now = all_earlier-within xs (after x s) w in
      let h = IsMeasurable-of-within x s now in
      (
        h,
        (after-within x previous s rem h now).0,
        observe_all-within xs (some x) (after x s) (Remembers-after x s h) w,
      )

  within-observe_all :
      (xs : List (TfSample F)) (previous : Option (TfSample F))
      (s : MappingTfContinuityAccumulator F)
      → Remembers previous s
      → IsSmooth previous xs
      → WithinLimits s.observed
      → WithinLimits (observe_all xs s).observed
  unfolding observe_all
  within-observe_all [] previous s rem h w = w
  within-observe_all (x ∷ xs) previous s rem (h, f, k) w =
      within-observe_all xs (some x) (after x s) (Remembers-after x s h) k
        (within-after x previous s rem h f w)

  -- With floats that meet the assumptions: the largest steps kept since the start are within both limits exactly when every sample was
  -- finite with a quaternion that is not zero and no step between samples in a row was over its
  -- limit.
  pub observe_all-IsSmooth :
      (xs : List (TfSample F))
      → WithinLimits (observe_all xs make_accumulator).observed ↔ IsSmooth none xs
  observe_all-IsSmooth xs =
      let positive : WithinLimits (make_accumulator {F = F}).observed = (
        r.ratio_nonneg 5 10 (omega arith) (omega arith),
        r.ratio_nonneg 2 10 (omega arith) (omega arith),
      ) in
      (
        (λ w. observe_all-within xs none make_accumulator (refl, refl) w),
        (λ k. within-observe_all xs none make_accumulator (refl, refl) k positive),
      )
