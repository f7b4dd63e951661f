-- ===== src/Perception/ScanProfile/Closed.antt =====
-- What a scan projection profile that loads is.
use go2_local_navigation.Prelude.{
  ◌≡◌, ◌⊎◌, refl, sym, inl, inr, String, Bool, true, false, not, ◌&&◌, Option, none, some, ok, err,
  ok-injective, bind-post, bind-returns, ◌==◌, if◌then◌else◌, arith,
}
use mathlib.Core.Path.{subst}
use go2_local_navigation.Prelude.Text.{str_eq_iff}
use go2_local_navigation.Prelude.Float.{Float}
use go2_local_navigation.Prelude.Document.{YamlValue, Entries, get}
use go2_local_navigation.Perception.ScanProfile.{
  MappingScanProfile, ScanMode, onboard, external_replay, parse_execution_mode, require_scope,
  external_only, required_entries, optional_entries, required_text, known_profile, Cadence,
  check_cadence, read_cadence, read_profile, load_mapping_scan_profile, source_commit_of,
  min_height_of, queue_size_of, single_frame_required, emit_every_refused, unknown_scope,
  unknown_execution_mode,
}

-- The profile that was asked for: it takes one frame if its accumulator is disabled, it emits after
-- each frame or after each window, and outside an external replay it is the default one.
pub record IsClosed {F : Type 0} (name mode : String) (p : MappingScanProfile F) : Type 0 where
  pub asked_for : p.profile_id ≡ name
  pub single_frame : p.accumulator_enabled ≡ false → p.frame_limit ≡ 1
  pub cadence : (p.emit_every ≡ 1) ⊎ (p.emit_every ≡ p.frame_limit)
  pub scope : mode ≡ "onboard" → p.scope ≡ "onboard_and_replay_default"

cadence_tests :
    (enabled one each all : Bool) {c d : Cadence}
    → (if not enabled && not one
        then err single_frame_required
        else if not each && not all
        then err emit_every_refused
        else ok c)
      ≡ ok d
    → (c ≡ d) × (enabled ≡ false → one ≡ true) × ((each ≡ true) ⊎ (all ≡ true))
cadence_tests false false each all h = cc
cadence_tests false true true all h = (ok-injective h, (λ _. refl), inl refl)
cadence_tests false true false true h = (ok-injective h, (λ _. refl), inr refl)
cadence_tests false true false false h = cc
cadence_tests true one true all h = (ok-injective h, (λ e. cc), inl refl)
cadence_tests true one false true h = (ok-injective h, (λ e. cc), inr refl)
cadence_tests true one false false h = cc

pub record IsCadence (c : Cadence) : Type 0 where
  pub single_frame : c.enabled ≡ false → c.frame_limit ≡ 1
  pub whole : (c.emit_every ≡ 1) ⊎ (c.emit_every ≡ c.frame_limit)

check_cadence-IsCadence : (c : Cadence) {d : Cadence} → check_cadence c ≡ ok d → IsCadence d
unfolding check_cadence
check_cadence-IsCadence c h =
    let (same, single, whole) =
      cadence_tests c.enabled (c.frame_limit == 1) (c.emit_every == 1)
        (c.emit_every == c.frame_limit) h in
    subst IsCadence same (record {
      single_frame = λ e. let t = single e in ground (arith, t);
      whole = elim whole [ inl e ↦ inl (ground (arith, e)) | inr e ↦ inr (ground (arith, e)) ];
    })

scope_tests :
    (default external : Bool) (mode : ScanMode) (scope : String) {u : Unit {0}}
    → (if default
        then ok tt
        else if external
        then external_only mode
        else err (unknown_scope scope))
      ≡ ok u
    → mode ≡ onboard
    → default ≡ true
scope_tests true external mode scope h e = refl
scope_tests false true onboard scope h e = cc
scope_tests false true external_replay scope h e = cc
scope_tests false false mode scope h e = cc

mode_tests :
    (first second : Bool) (value : String) {mode : ScanMode}
    → (if first
        then ok onboard
        else if second
        then ok external_replay
        else err (unknown_execution_mode value))
      ≡ ok mode
    → first ≡ true
    → mode ≡ onboard
mode_tests true second value h e = sym (ok-injective h)
mode_tests false second value h e = cc

module _ {F : Type 0} ⦃fl : Float F⦄ where
  read_profile-IsClosed :
      (name execution_mode : String) (profile : Entries F) (mode : ScanMode)
      {p : MappingScanProfile F}
      → (execution_mode ≡ "onboard" → mode ≡ onboard)
      → read_profile name profile mode ≡ ok p
      → IsClosed name execution_mode p
  unfolding read_profile require_scope
  read_profile-IsClosed name execution_mode profile mode m h =
      bind-post (required_text (get "scope" profile) "scope") h (λ scope h.
        let (_, h, scoped) = bind-returns (require_scope scope mode) _ h in
        bind-post (required_entries (get "accumulator" profile) "accumulator") h (λ accumulator h.
          bind-post (optional_entries (get "converter_override" profile) "converter_override") h
            (λ override h.
              bind-post (optional_entries (get "source" profile) "source") h (λ source h.
                bind-post (source_commit_of source) h (λ commit h.
                  bind-post (read_cadence accumulator) h (λ read h.
                    let (cadence, h, checked) = bind-returns (check_cadence read) _ h in
                    let good = check_cadence-IsCadence read checked in
                    bind-post (min_height_of override) h (λ min_height h.
                      bind-post (queue_size_of override) h (λ queue_size h.
                        bind-post (required_text (get "target_frame" accumulator) "target_frame") h
                          (λ target_frame h.
                            bind-post
                              (required_text (get "output_topic" accumulator) "output_topic") h
                              (λ output_topic h.
                                bind-post
                                  (required_text (get "converter_input_topic" profile)
                                    "converter_input_topic")
                                  h
                                  (λ input_topic h.
                                    subst (IsClosed name execution_mode) (ok-injective h) (record {
                                      asked_for = refl;
                                      single_frame = good.single_frame;
                                      cadence = good.whole;
                                      scope = λ e.
                                          (str_eq_iff scope "onboard_and_replay_default").0
                                            (scope_tests _ _ mode scope scoped (m e));
                                    }))))))))))))

  -- A scan profile that loads is the one asked for; it takes single frames if its accumulator is
  -- disabled, and emits after each frame or after each window; and in the mode `onboard` it has the
  -- default scope, so that no profile for external replays is used on the robot.
  pub load_mapping_scan_profile-IsClosed :
      (document : Option (YamlValue F)) (name mode : String) (p : MappingScanProfile F)
      → load_mapping_scan_profile document name mode ≡ ok p
      → IsClosed name mode p
  unfolding load_mapping_scan_profile
  load_mapping_scan_profile-IsClosed none name mode p h = cc
  load_mapping_scan_profile-IsClosed (some document) name mode p h =
      let (parsed, h, e) = bind-returns (parse_execution_mode mode) _ h in
      bind-post (required_entries document "registry_root") h (λ root h.
        bind-post (required_entries (get "mapping_scan" root) "mapping_scan") h (λ mapping_scan h.
          bind-post
            (required_entries (get "projection_profiles" mapping_scan) "projection_profiles") h
            (λ registry h.
              bind-post (required_entries (get "profiles" registry) "profiles") h (λ profiles h.
                bind-post (known_profile (get name profiles) name) h (λ raw h.
                  bind-post (required_entries raw name) h (λ profile h.
                    read_profile-IsClosed name mode profile parsed
                      (λ o.
                        mode_tests _ _ mode (unfold parse_execution_mode in e)
                          ((str_eq_iff mode "onboard").1 o))
                      h))))))
