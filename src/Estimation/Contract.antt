-- ===== src/Estimation/Contract.antt =====
-- The checks on one sample, of src/go2_state_estimation/go2_state_estimation/odometry_contract.py.
-- Tuples of three and four floats are records.
use go2_local_navigation.Prelude.{
  ◌≡◌, ◌⊎◌, refl, String, Bool, true, false, not, ◌&&◌, Option, none, some, List, ◌++◌, all,
  is_empty, when, arith, if◌then◌else◌, inl, inr, Bool-cases,
}
use go2_local_navigation.Prelude.Int.{ℤ, pos, ltb_ℤ, leb_ℤ, ◌<ℤ◌}
use go2_local_navigation.Prelude.Text.{str_eq, str_eq_iff}
use go2_local_navigation.Prelude.Ordered.{NotBefore}
use go2_local_navigation.Prelude.Float.{Float}

pub record Xyz (F : Type 0) : Type 0 where
  pub x : F
  pub y : F
  pub z : F

pub record Xyzw (F : Type 0) : Type 0 where
  pub x : F
  pub y : F
  pub z : F
  pub w : F

pub record OdometrySample (F : Type 0) : Type 0 where
  pub timestamp_nanoseconds : ℤ
  pub header_frame_id : String
  pub child_frame_id : String
  pub position_xyz : Xyz F
  pub orientation_xyzw : Xyzw F
  pub linear_velocity_xyz : Xyz F
  pub angular_velocity_xyz : Xyz F
  pub pose_covariance : List F
  pub twist_covariance : List F

pub record ContractAssessment : Type 0 where
  pub source_child_frame_id : String
  pub adapter_status : String
  pub timestamp_accepted : Bool
  pub errors : List String
  pub warnings : List String
  pub target_child_frame_id : Option String

abbrev pub adapter_status_blocked : String
adapter_status_blocked = "blocked_until_frame_mapping_verified"

abbrev pub adapter_status_project_accepted : String
adapter_status_project_accepted = "project_accepted_base_link_to_base"

-- `previous is not None and stamp < previous`
abbrev pub regresses : ℤ → Option ℤ → Bool
regresses stamp none = false
regresses stamp (some previous) = ltb_ℤ stamp previous

-- `previous is None or stamp >= previous`
abbrev pub follows : ℤ → Option ℤ → Bool
follows stamp none = true
follows stamp (some previous) = leb_ℤ previous stamp

module _ {F : Type 0} ⦃fl : Float F⦄ where
  abbrev pub xyz_is_finite : Xyz F → Bool
  xyz_is_finite v = fl.is_finite v.x && fl.is_finite v.y && fl.is_finite v.z

  abbrev pub xyzw_is_finite : Xyzw F → Bool
  xyzw_is_finite q = fl.is_finite q.x && fl.is_finite q.y && fl.is_finite q.z && fl.is_finite q.w

  unfoldable pub motion_is_finite : OdometrySample F → Bool
  motion_is_finite s =
      xyz_is_finite s.position_xyz
      && xyzw_is_finite s.orientation_xyzw
      && xyz_is_finite s.linear_velocity_xyz
      && xyz_is_finite s.angular_velocity_xyz

  abbrev pub all_zero : List F → Bool
  all_zero covariance = not (is_empty covariance) && all (λ v. fl.eq v fl.nought) covariance

  unfoldable pub validate_odometry_sample : OdometrySample F → Option ℤ → ContractAssessment
  validate_odometry_sample sample previous = record {
    source_child_frame_id = sample.child_frame_id;
    adapter_status = adapter_status_blocked;
    timestamp_accepted =
        ltb_ℤ (pos 0) sample.timestamp_nanoseconds && follows sample.timestamp_nanoseconds previous;
    errors =
        when (not (str_eq sample.header_frame_id "odom")) "header_frame_id_must_be_odom"
        ++ when (not (str_eq sample.child_frame_id "base_link")) "child_frame_id_must_be_base_link"
        ++ when (leb_ℤ sample.timestamp_nanoseconds (pos 0)) "timestamp_must_be_positive"
        ++ when (regresses sample.timestamp_nanoseconds previous) "timestamp_must_be_nondecreasing"
        ++ when (not (motion_is_finite sample)) "pose_or_twist_must_be_finite";
    warnings =
        when (all_zero sample.pose_covariance) "pose_covariance_all_zero"
        ++ when (all_zero sample.twist_covariance) "twist_covariance_all_zero";
    target_child_frame_id = none;
  }

  unfoldable pub assess_odometry_adapter : OdometrySample F → Option ℤ → ContractAssessment
  assess_odometry_adapter sample previous =
      let assessment = validate_odometry_sample sample previous in
      if not (is_empty assessment.errors) then assessment else record assessment {
        adapter_status = adapter_status_project_accepted;
        target_child_frame_id = some "base";
      }

-- What an accepted sample promises.
pub record IsSound {F : Type 0} ⦃fl : Float F⦄ (s : OdometrySample F) (previous : Option ℤ)
    : Type 0 where
  pub header_odom : s.header_frame_id ≡ "odom"
  pub child_base_link : s.child_frame_id ≡ "base_link"
  pub stamp_positive : pos 0 <ℤ s.timestamp_nanoseconds
  pub stamp_ordered : NotBefore previous s.timestamp_nanoseconds
  pub motion_finite : motion_is_finite s ≡ true

-- The verdict on a sample, on both branches.
abbrev pub Verdict : {F : Type 0} ⦃fl : Float F⦄ → OdometrySample F → Option ℤ → Type 0
Verdict s previous =
    let a = assess_odometry_adapter s previous in
    (IsSound s previous
      × (is_empty a.errors ≡ true)
      × (a.timestamp_accepted ≡ true)
      × (a.adapter_status ≡ adapter_status_project_accepted)
      × (a.target_child_frame_id ≡ some "base"))
    ⊎ ((¬ IsSound s previous)
        × (is_empty a.errors ≡ false)
        × (a.adapter_status ≡ adapter_status_blocked)
        × (a.target_child_frame_id ≡ none))

module _ {F : Type 0} ⦃fl : Float F⦄ where
  errors-IsSound :
      (s : OdometrySample F) (previous : Option ℤ)
      → is_empty (validate_odometry_sample s previous).errors ≡ true
      → IsSound s previous
  unfolding validate_odometry_sample
  errors-IsSound s none h =
      ground (arith, str_eq_iff s.header_frame_id "odom", str_eq_iff s.child_frame_id "base_link")
  errors-IsSound s (some t) h =
      ground (arith, str_eq_iff s.header_frame_id "odom", str_eq_iff s.child_frame_id "base_link")

  IsSound-errors :
      (s : OdometrySample F) (previous : Option ℤ)
      → IsSound s previous
      → is_empty (validate_odometry_sample s previous).errors ≡ true
  unfolding validate_odometry_sample
  IsSound-errors s none h =
      ground (arith, str_eq_iff s.header_frame_id "odom", str_eq_iff s.child_frame_id "base_link")
  IsSound-errors s (some t) h =
      ground (arith, str_eq_iff s.header_frame_id "odom", str_eq_iff s.child_frame_id "base_link")

  timestamp_accepted-IsSound :
      (s : OdometrySample F) (previous : Option ℤ)
      → IsSound s previous
      → (validate_odometry_sample s previous).timestamp_accepted ≡ true
  unfolding validate_odometry_sample
  timestamp_accepted-IsSound s none h = ground arith
  timestamp_accepted-IsSound s (some t) h = ground arith

  -- A sample has no error exactly when both frames are the expected ones, the stamp is positive and
  -- not before the previous one, and all its floats are finite. Only then is the mapping to `base`
  -- accepted and named as the target; otherwise the mapping stays blocked.
  pub assess_odometry_adapter-Verdict :
      (s : OdometrySample F) (previous : Option ℤ) → Verdict s previous
  unfolding assess_odometry_adapter
  assess_odometry_adapter-Verdict s previous =
      elim (Bool-cases (is_empty (validate_odometry_sample s previous).errors)) [
        | inl e ↦
            let h = errors-IsSound s previous e in
            inl (h, rw (e, e), rw e (timestamp_accepted-IsSound s previous h), rw e, rw e)
        | inr e ↦ inr (
          (λ h. cc (e, IsSound-errors s previous h)),
          rw (e, e),
          rw e (unfold validate_odometry_sample in refl),
          rw e (unfold validate_odometry_sample in refl),
        )
      ]
