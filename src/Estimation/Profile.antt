-- ===== src/Estimation/Profile.antt =====
-- src/go2_state_estimation/go2_state_estimation/continuity_profiles.py: a continuity profile is read
-- from the YAML document, which is an argument here.
use go2_local_navigation.Prelude.{
  ℕ, ◌≡◌, refl, zero, suc, ◌≤◌, String, Bool, true, false, not, ◌||◌, Option, none, some, Result,
  ok, err, ok-injective, ◌>>=◌, arith, if◌then◌else◌, bind-returns,
}
use mathlib.Core.Path.{subst}
use go2_local_navigation.Prelude.Int.{ℤ, pos, negsuc}
use go2_local_navigation.Prelude.Text.{str_eq}
use go2_local_navigation.Prelude.Document.{
  YamlValue, null, boolean, integer, number, text, sequence, mapping, Entries, get, all_keys_text,
}
use go2_local_navigation.Prelude.Float.{Float, IsFinite}

pub data ContinuityAction : Type 0 where
  observe_only enforce : ContinuityAction

pub record ContinuityProfile (F : Type 0) : Type 0 where
  pub profile_id : String
  pub action : ContinuityAction
  pub max_timestamp_gap_nanoseconds : ℤ
  pub max_translation_delta_m : F
  pub max_yaw_delta_rad : F
  pub recovery_consecutive_valid_samples : ℕ

abbrev pub suppresses_continuity_failure : {F : Type 0} → ContinuityProfile F → Bool
suppresses_continuity_failure p = elim p.action [ enforce ↦ true | observe_only ↦ false ]

-- `ContinuityProfileError`: its reason code, and the detail that goes with it.
pub data ProfileError : Type 0 where
  unknown_continuity_profile mapping_invalid integer_invalid number_invalid : String → ProfileError
  action_invalid : Option String → ProfileError

module _ {F : Type 0} where
  unfoldable pub required_mapping : YamlValue F → String → Result ProfileError (Entries F)
  required_mapping (mapping es) field_name =
      if all_keys_text es then ok es else err (mapping_invalid field_name)
  required_mapping _ field_name = err (mapping_invalid field_name)

  unfoldable pub required_action : YamlValue F → Result ProfileError ContinuityAction
  required_action (text s) =
      if str_eq s "observe_only"
      then ok observe_only
      else if str_eq s "enforce"
      then ok enforce
      else err (action_invalid (some s))
  required_action _ = err (action_invalid none)

  unfoldable pub required_positive_int : YamlValue F → String → Result ProfileError ℕ
  required_positive_int (integer (pos (suc n))) field_name = ok (suc n)
  required_positive_int _ field_name = err (integer_invalid field_name)

  -- `raw_profile is None`
  known : YamlValue F → String → Result ProfileError (YamlValue F)
  known null profile_id = err (unknown_continuity_profile profile_id)
  known v profile_id = ok v

module _ {F : Type 0} ⦃fl : Float F⦄ where
  abbrev positive : F → String → Result ProfileError F
  positive numeric field_name =
      if not (fl.is_finite numeric) || fl.le numeric fl.nought
      then err (number_invalid field_name)
      else ok numeric

  unfoldable pub required_positive_float : YamlValue F → String → Result ProfileError F
  required_positive_float (integer n) field_name = positive (fl.ratio n (pos 1)) field_name
  required_positive_float (number x) field_name = positive x field_name
  required_positive_float _ field_name = err (number_invalid field_name)

  unfoldable pub profile_of : String → Entries F → Result ProfileError (ContinuityProfile F)
  profile_of profile_id profile = required_action (get "action" profile) >>= λ action.
      required_positive_int (get "max_timestamp_gap_nanoseconds" profile)
        "max_timestamp_gap_nanoseconds"
      >>= λ gap.
          required_positive_float (get "max_translation_delta_m" profile) "max_translation_delta_m"
          >>= λ translation.
              required_positive_float (get "max_yaw_delta_rad" profile) "max_yaw_delta_rad"
              >>= λ yaw.
                  required_positive_int (get "recovery_consecutive_valid_samples" profile)
                    "recovery_consecutive_valid_samples"
                  >>= λ recovery. ok (record {
                    profile_id = profile_id;
                    action = action;
                    max_timestamp_gap_nanoseconds = pos gap;
                    max_translation_delta_m = translation;
                    max_yaw_delta_rad = yaw;
                    recovery_consecutive_valid_samples = recovery;
                  })

  -- `load_continuity_profile`, from the document that `yaml.safe_load` returned.
  unfoldable pub load_continuity_profile :
      YamlValue F → String → Result ProfileError (ContinuityProfile F)
  unfolding known
  load_continuity_profile document profile_id =
      required_mapping document "registry_root" >>= λ root.
      required_mapping (get "project" root) "project" >>= λ project.
      required_mapping (get "continuity_profiles" project) "continuity_profiles" >>= λ registry.
      required_mapping (get "profiles" registry) "profiles" >>= λ profiles.
      known (get profile_id profiles) profile_id >>= λ raw_profile.
      required_mapping raw_profile profile_id >>= λ profile. profile_of profile_id profile

pub record IsUsable {F : Type 0} ⦃fl : Float F⦄ (p : ContinuityProfile F) : Type 0 where
  pub gap_positive : (n : ℕ) × (p.max_timestamp_gap_nanoseconds ≡ pos (suc n))
  pub translation_finite : IsFinite p.max_translation_delta_m
  pub translation_positive : fl.le p.max_translation_delta_m fl.nought ≡ false
  pub yaw_finite : IsFinite p.max_yaw_delta_rad
  pub yaw_positive : fl.le p.max_yaw_delta_rad fl.nought ≡ false
  pub recovery_positive : 1 ≤ p.recovery_consecutive_valid_samples

module _ {F : Type 0} ⦃fl : Float F⦄ where
  required_positive_int-positive :
      (v : YamlValue F) (name : String) {n : ℕ}
      → required_positive_int v name ≡ ok n
      → (m : ℕ) × (n ≡ suc m)
  unfolding required_positive_int
  required_positive_int-positive (integer (pos (suc n))) name h = (n, ground arith)
  required_positive_int-positive (integer (pos zero)) name h = cc
  required_positive_int-positive (integer (negsuc n)) name h = cc
  required_positive_int-positive null name h = cc
  required_positive_int-positive (boolean b) name h = cc
  required_positive_int-positive (number x) name h = cc
  required_positive_int-positive (text s) name h = cc
  required_positive_int-positive (sequence s) name h = cc
  required_positive_int-positive (mapping s) name h = cc

  required_positive_float-positive :
      (v : YamlValue F) (name : String) {x : F}
      → required_positive_float v name ≡ ok x
      → IsFinite x × (fl.le x fl.nought ≡ false)
  unfolding required_positive_float
  required_positive_float-positive v name h = ground arith

  profile_of-IsUsable :
      (profile_id : String) (profile : Entries F) {p : ContinuityProfile F}
      → profile_of profile_id profile ≡ ok p
      → IsUsable p × (p.profile_id ≡ profile_id)
  unfolding profile_of
  profile_of-IsUsable profile_id profile {p} h =
      let (_, h1, _) = bind-returns (required_action (get "action" profile)) _ h in
      let (gap, h2, gap_ok) = bind-returns (required_positive_int _ _) _ h1 in
      let (translation, h3, translation_ok) = bind-returns (required_positive_float _ _) _ h2 in
      let (yaw, h4, yaw_ok) = bind-returns (required_positive_float _ _) _ h3 in
      let (recovery, h5, recovery_ok) = bind-returns (required_positive_int _ _) _ h4 in
      let (g, eg) = required_positive_int-positive _ _ gap_ok in
      let (n, en) = required_positive_int-positive _ _ recovery_ok in
      let t = required_positive_float-positive _ _ translation_ok in
      let y = required_positive_float-positive _ _ yaw_ok in
      subst (λ (q : ContinuityProfile F). IsUsable q × (q.profile_id ≡ profile_id))
        (ok-injective h5)
        (
          record {
            gap_positive = (g, rw eg);
            translation_finite = t.0;
            translation_positive = t.1;
            yaw_finite = y.0;
            yaw_positive = y.1;
            recovery_positive = omega (arith, en);
          },
          refl,
        )

  -- A profile that loads is the one asked for, and each of its limits is positive and finite.
  pub load_continuity_profile-IsUsable :
      (document : YamlValue F) (profile_id : String) (p : ContinuityProfile F)
      → load_continuity_profile document profile_id ≡ ok p
      → IsUsable p × (p.profile_id ≡ profile_id)
  unfolding load_continuity_profile
  load_continuity_profile-IsUsable document profile_id p h =
      let (root, h1, _) = bind-returns (required_mapping _ _) _ h in
      let (project, h2, _) = bind-returns (required_mapping _ _) _ h1 in
      let (registry, h3, _) = bind-returns (required_mapping _ _) _ h2 in
      let (profiles, h4, _) = bind-returns (required_mapping _ _) _ h3 in
      let (raw_profile, h5, _) = bind-returns (known (get profile_id profiles) profile_id) _ h4 in
      let (profile, h6, _) = bind-returns (required_mapping raw_profile profile_id) _ h5 in
      profile_of-IsUsable profile_id profile h6
