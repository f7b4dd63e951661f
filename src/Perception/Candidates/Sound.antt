-- ===== src/Perception/Candidates/Sound.antt =====
-- What the obstacle candidates are.
use go2_local_navigation.Prelude.{
  ◌≡◌, ◌↔◌, Mem, inl, inr, refl, ap, ◌∙◌, Bool, true, false, List, [], ◌∷◌, arith, if◌then◌else◌,
}
use go2_local_navigation.Prelude.Float.{Float, Trig, IsFinite, ◌≼◌}
use go2_local_navigation.Estimation.Contract.{Xyz}
use go2_local_navigation.Perception.Candidates.{
  RigidTransform, candidate_bounds, apply_transform, is_obstacle_candidate,
  transform_and_filter_points,
}

module _ {F : Type 0} ⦃fl : Float F⦄ ⦃m : Trig F⦄ where
  -- A finite point with its planar range and its height within the limits.
  pub record IsCandidate (p : Xyz F) : Type 0 where
    pub finite_x : IsFinite p.x
    pub finite_y : IsFinite p.y
    pub finite_z : IsFinite p.z
    pub far_enough : (candidate_bounds {F = F}).minimum_range ≼ m.hypot p.x p.y
    pub near_enough : m.hypot p.x p.y ≼ (candidate_bounds {F = F}).maximum_range
    pub high_enough : (candidate_bounds {F = F}).minimum_z ≼ p.z
    pub low_enough : p.z ≼ (candidate_bounds {F = F}).maximum_z

  is_obstacle_candidate-IsCandidate : (p : Xyz F) → is_obstacle_candidate p ≡ true → IsCandidate p
  unfolding is_obstacle_candidate
  is_obstacle_candidate-IsCandidate p h = ground arith

  IsCandidate-is_obstacle_candidate : (p : Xyz F) → IsCandidate p → is_obstacle_candidate p ≡ true
  unfolding is_obstacle_candidate
  IsCandidate-is_obstacle_candidate p h = ground arith

  -- a source point whose transform is `p`, and `p` is a candidate
  abbrev pub Origin : List (Xyz F) → RigidTransform F → Xyz F → Type 0
  Origin points transform p =
      (s : Xyz F) × Mem s points × (p ≡ apply_transform s transform) × IsCandidate p

  Mem-Origin :
      (points : List (Xyz F)) (transform : RigidTransform F) (p : Xyz F)
      → Mem p (transform_and_filter_points points transform)
      → Origin points transform p
  unfolding transform_and_filter_points
  Mem-Origin [] transform p h = elim h [ ]
  Mem-Origin (x ∷ points) transform p h =
      go (is_obstacle_candidate (apply_transform x transform)) refl
        (λ k. let (s, i, e, c) = Mem-Origin points transform p k in (s, inr i, e, c)) h
    where
      go :
          (b : Bool)
          → is_obstacle_candidate (apply_transform x transform) ≡ b
          → (Mem p (transform_and_filter_points points transform) → Origin (x ∷ points) transform p)
          → Mem p (
              if b
              then apply_transform x transform ∷ transform_and_filter_points points transform
              else transform_and_filter_points points transform)
          → Origin (x ∷ points) transform p
      go true e later (inl h) = (x, inl refl, h, rw h (is_obstacle_candidate-IsCandidate _ e))
      go true e later (inr h) = later h
      go false e later h = later h

  Origin-Mem :
      (points : List (Xyz F)) (transform : RigidTransform F) (p : Xyz F)
      → Origin points transform p
      → Mem p (transform_and_filter_points points transform)
  unfolding transform_and_filter_points
  Origin-Mem [] transform p (s, h, e, c) = elim h [ ]
  Origin-Mem (x ∷ points) transform p (s, inr h, e, c) =
      let ih = Origin-Mem points transform p (s, h, e, c) in ground (arith, ih)
  Origin-Mem (x ∷ points) transform p (s, inl h, e, c) =
      let e' : p ≡ apply_transform x transform = e ∙ ap (λ q. apply_transform q transform) h in
      let kept : is_obstacle_candidate (apply_transform x transform) ≡ true =
        IsCandidate-is_obstacle_candidate _ (rw (← e') c) in
      rw kept (inl e')

  -- The points that the filter keeps are the transformed source points that are candidates, and no
  -- others: each is finite, at a planar range from 0.25 to 5 and at a height from -0.25 to 1.
  pub transform_and_filter_points_iff :
      (points : List (Xyz F)) (transform : RigidTransform F) (p : Xyz F)
      → Mem p (transform_and_filter_points points transform) ↔ Origin points transform p
  transform_and_filter_points_iff points transform p =
      (Mem-Origin points transform p, Origin-Mem points transform p)
