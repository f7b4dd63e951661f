-- ===== src/Validation/Acceptance/Verdict.antt =====
-- When src/go2_validation/go2_validation/mapping_acceptance.py lets a mapping run pass.
use go2_local_navigation.Prelude.{
  ℕ, ◌+◌, ◌*◌, ◌≤◌, ◌<◌, ◌≡◌, ◌↔◌, ◌∙◌, refl, sym, String, Bool, true, false, not, ◌&&◌, Option,
  none, some, List, [], ◌∷◌, ◌++◌, is_empty, all, map, arith, if◌then◌else◌,
}
use go2_local_navigation.Prelude.Int.{pos}
use go2_local_navigation.Prelude.Text.{str_eq}
use go2_local_navigation.Prelude.Float.{Float, Trig, ◌≼◌}
use go2_local_navigation.Perception.RetryQueue.{MappingCloudAccounting}
use go2_local_navigation.Validation.TfContinuity.{maximum_translation_step, maximum_yaw_step}
use go2_local_navigation.Validation.PoseContinuity.{MappingCorrectionContinuityObservation}
use go2_local_navigation.Validation.Acceptance.{
  MappingObservation, MappingStreamObservation, MappingOwnershipObservation,
  MappingArtifactObservation, MappingProcessObservation, texts_eq, edges_eq,
  expected_artifact_names, passed, failed, Check, failed_of, checks, assess_mapping, stream_checks,
  emit_cadence, accounting_checks, ownership_checks, correction_checks, command_checks,
  artifact_checks, process_checks, cloud_accounting_checks,
}

abbrev pub all_passed : List Check → Bool
all_passed cs = all (λ (c : Check). c.1) cs

failed_of-all : (cs : List Check) → is_empty (failed_of cs) ≡ all_passed cs
unfolding failed_of
failed_of-all [] = refl
failed_of-all ((name, true) ∷ rest) = failed_of-all rest
failed_of-all ((name, false) ∷ rest) = refl

pub all_passed-append : (s t : List Check) → all_passed (s ++ t) ≡ (all_passed s && all_passed t)
all_passed-append [] t = refl
all_passed-append ((name, true) ∷ rest) t = all_passed-append rest t
all_passed-append ((name, false) ∷ rest) t = refl

and_true : (a b : Bool) → (a && b) ≡ true → (a ≡ true) × (b ≡ true)
and_true true b h = (refl, h)
and_true false b h = cc

not-true : (a : Bool) → not a ≡ true → a ≡ false
not-true true h = cc
not-true false h = refl

pub record StreamsMatch (s : MappingStreamObservation) : Type 0 where
  pub clouds : s.observed_cloud_count ≡ s.expected_cloud_count
  pub odometry : s.observed_odometry_count ≡ s.expected_odometry_count
  pub scans : 0 < s.scan_count
  pub odoms : 0 < s.odom_count
  pub maps : 0 < s.map_count
  pub frame : texts_eq s.map_frames ("map" ∷ []) ≡ true
  pub cells : s.map_has_cells ≡ true

pub record IsOwned (o : MappingOwnershipObservation) : Type 0 where
  pub services : o.slam_services_ready ≡ true
  pub one_clock : o.clock_publisher_max ≡ 1
  pub progressed : o.clock_progressed ≡ true
  pub not_stalled : o.clock_stalled ≡ false
  pub edge : edges_eq o.global_edges (("map", "odom") ∷ []) ≡ true
  pub owner : texts_eq o.global_owner_nodes ("/slam_toolbox" ∷ []) ≡ true

pub record NoCommand (o : MappingOwnershipObservation) : Type 0 where
  pub publishers : o.command_publisher_max ≡ 0
  pub nodes : o.control_node_max ≡ 0

pub record IsSaved (a : MappingArtifactObservation) : Type 0 where
  pub occupancy : a.occupancy_saved ≡ true
  pub pose_graph : a.pose_graph_saved ≡ true
  pub reloaded : a.pose_graph_reloaded ≡ true
  pub names :
      texts_eq (map (λ (c : String × String). c.0) a.checksums) expected_artifact_names ≡ true

pub record IsTornDown (p : MappingProcessObservation) : Type 0 where
  pub player : p.player_exit_code ≡ pos 0
  pub launch : p.launch_exit_code ≡ pos 0
  pub nodes : is_empty p.residual_nodes ≡ true
  pub processes : is_empty p.residual_processes ≡ true
  pub clock : p.teardown_clock_publishers ≡ 0
  pub owners : is_empty p.teardown_global_owner_nodes ≡ true

streams_iff :
    (s : MappingStreamObservation) → (all_passed (stream_checks s) ≡ true) ↔ StreamsMatch s
unfolding stream_checks
streams_iff s = ((λ h. ground arith), (λ h. ground arith))

IsOwned-iff :
    (o : MappingOwnershipObservation) → (all_passed (ownership_checks o) ≡ true) ↔ IsOwned o
unfolding ownership_checks
IsOwned-iff o = ((λ h. ground arith), (λ h. ground arith))

command_iff :
    (o : MappingOwnershipObservation) → (all_passed (command_checks o) ≡ true) ↔ NoCommand o
unfolding command_checks
command_iff o = ((λ h. ground arith), (λ h. ground arith))

IsSaved-iff : (a : MappingArtifactObservation) → (all_passed (artifact_checks a) ≡ true) ↔ IsSaved a
unfolding artifact_checks
IsSaved-iff a = ((λ h. ground arith), (λ h. ground arith))

IsTornDown-iff :
    (p : MappingProcessObservation) → (all_passed (process_checks p) ≡ true) ↔ IsTornDown p
unfolding process_checks
IsTornDown-iff p = ((λ h. ground arith), (λ h. ground arith))

module _ {F : Type 0} ⦃fl : Float F⦄ ⦃m : Trig F⦄ where
  pub record IsContinuous (c : MappingCorrectionContinuityObservation F) : Type 0 where
    pub samples : 2 ≤ c.sample_count
    pub translation : c.maximum_translation_step_m ≼ maximum_translation_step
    pub yaw : c.maximum_yaw_step_rad ≼ maximum_yaw_step
    pub unaligned : c.unaligned_sample_count ≡ 0
    pub regressive : c.regressive_stamp_count ≡ 0

  IsContinuous-iff :
      (c : MappingCorrectionContinuityObservation F)
      → (all_passed (correction_checks c) ≡ true) ↔ IsContinuous c
  unfolding correction_checks
  IsContinuous-iff c = ((λ h. ground arith), (λ h. ground arith))

pub record AccountsFor (emit_every clouds intrinsic : ℕ) (a : MappingCloudAccounting) : Type 0 where
  pub received : a.received ≡ clouds
  pub input :
      a.processed + a.dropped_unrecoverable + a.dropped_overflow + a.pending_at_shutdown
      ≡ a.received
  pub output : a.output_published * a.emit_every + a.partial_frames_not_emitted ≡ a.processed
  pub cadence : a.emit_every ≡ emit_every
  pub unrecoverable : a.dropped_unrecoverable ≡ intrinsic
  pub overflow : a.dropped_overflow ≡ 0
  pub pending : a.pending_at_shutdown ≡ 0
  pub regressions : a.output_stamp_regression_count ≡ 0
  pub recovered : a.future_waited ≡ a.recovered_after_retry

pub accounts_iff :
    (emit_every clouds intrinsic : ℕ) (a : MappingCloudAccounting)
    → (all_passed (accounting_checks emit_every clouds intrinsic a) ≡ true)
      ↔ AccountsFor emit_every clouds intrinsic a
unfolding accounting_checks
accounts_iff emit_every clouds intrinsic a = ((λ h. ground arith), (λ h. ground arith))

-- An accumulating profile needs an accounting, and the others none.
abbrev pub CloudsAccounted : ℕ → ℕ → Option ℕ → Option MappingCloudAccounting → Type 0
CloudsAccounted clouds intrinsic none accounting = Unit
CloudsAccounted clouds intrinsic (some emit_every) none = ⊥
CloudsAccounted clouds intrinsic (some emit_every) (some a) =
    AccountsFor emit_every clouds intrinsic a

module _ {F : Type 0} ⦃fl : Float F⦄ ⦃m : Trig F⦄ where
  pub record IsAccepted (o : MappingObservation F) : Type 0 where
    pub streams : StreamsMatch o.streams
    pub owned : IsOwned o.ownership
    pub continuous : IsContinuous o.map_correction_continuity
    pub commands : NoCommand o.ownership
    pub saved : IsSaved o.artifacts
    pub torn_down : IsTornDown o.process
    pub source : str_eq o.source_checksum "" ≡ false
    pub replay : str_eq o.replay_checksum "" ≡ false
    pub accounted :
        CloudsAccounted o.streams.expected_cloud_count
          o.expected_intrinsic_untransformable_cloud_count
          (emit_cadence o.scan_projection_profile)
          o.cloud_accounting

  clouds_iff :
      (o : MappingObservation F)
      → (all_passed (cloud_accounting_checks o) ≡ true)
        ↔ CloudsAccounted o.streams.expected_cloud_count
            o.expected_intrinsic_untransformable_cloud_count
            (emit_cadence o.scan_projection_profile)
            o.cloud_accounting
  unfolding cloud_accounting_checks
  clouds_iff o = go (emit_cadence o.scan_projection_profile) o.cloud_accounting
    where
      go :
          (cadence : Option ℕ) (accounting : Option MappingCloudAccounting)
          → (all_passed (elim cadence [
            | none ↦ []
            | some expected ↦ elim accounting [
              | none ↦ ("cloud_accounting", false) ∷ []
              | some a ↦
                  accounting_checks expected o.streams.expected_cloud_count
                    o.expected_intrinsic_untransformable_cloud_count a
            ]
          ])
              ≡ true)
            ↔ CloudsAccounted o.streams.expected_cloud_count
                o.expected_intrinsic_untransformable_cloud_count cadence accounting
      go none accounting = ((λ h. tt), (λ h. refl))
      go (some expected) none = ((λ h. cc), (λ h. elim h [ ]))
      go (some expected) (some a) =
          accounts_iff expected o.streams.expected_cloud_count
            o.expected_intrinsic_untransformable_cloud_count a

  abbrev checksum_checks : MappingObservation F → List Check
  checksum_checks o =
      ("source_checksum", not (str_eq o.source_checksum ""))
      ∷ ("replay_checksum", not (str_eq o.replay_checksum ""))
      ∷ []

  -- the whole list, in the groups above
  all_passed-checks :
      (o : MappingObservation F)
      → all_passed (checks o) ≡ (
          all_passed (stream_checks o.streams)
          && all_passed (ownership_checks o.ownership)
          && all_passed (correction_checks o.map_correction_continuity)
          && all_passed (command_checks o.ownership)
          && all_passed (artifact_checks o.artifacts)
          && all_passed (process_checks o.process)
          && all_passed (checksum_checks o)
          && all_passed (cloud_accounting_checks o))
  unfolding checks
  all_passed-checks o = simp (all_passed-append)

  status-all :
      (o : MappingObservation F)
      → (assess_mapping o).status ≡ (if all_passed (checks o) then passed else failed)
  unfolding assess_mapping
  status-all o = rw (failed_of-all (checks o))

  passed_iff :
      (o : MappingObservation F)
      → ((assess_mapping o).status ≡ passed) ↔ (all_passed (checks o) ≡ true)
  passed_iff o = ((λ h. ground (arith, status-all o)), (λ h. rw (status-all o, h)))

  -- A run passes exactly when all of these hold. Its cloud and odometry counts are those
  -- expected, it received scans, odometry and maps, and its map is of the frame map and has
  -- cells. The SLAM services were ready, one publisher kept the clock, which progressed and never
  -- stalled, and map to odom was the one global edge, of /slam_toolbox alone. There were two
  -- corrections or more, aligned and in order, with their greatest steps within both limits. No
  -- command publisher and no control node was there. The occupancy and the pose graph were saved
  -- and the pose graph was reloaded, under the expected artifact names. Player and launch exited
  -- with 0 and left no node, process, clock publisher or global owner. Both checksums are not
  -- empty. An accumulating profile has an accounting that received the expected clouds, conserves
  -- input and output, has the cadence of the profile, dropped as untransformable as many clouds
  -- as expected and none for overflow, has none pending, no stamp regression, and as many clouds
  -- recovered as had waited.
  pub assess_mapping-IsAccepted :
      (o : MappingObservation F) → ((assess_mapping o).status ≡ passed) ↔ IsAccepted o
  assess_mapping-IsAccepted o = (
    (λ h.
        let all : _ ≡ true = sym (all_passed-checks o) ∙ (passed_iff o).0 h in
        let (r7, h8) = and_true _ _ all in
        let (r6, h7) = and_true _ _ r7 in
        let (r5, h6) = and_true _ _ r6 in
        let (r4, h5) = and_true _ _ r5 in
        let (r3, h4) = and_true _ _ r4 in
        let (r2, h3) = and_true _ _ r3 in
        let (h1, h2) = and_true _ _ r2 in
        let (k1, k2) = and_true _ _ h7 in
        record {
          streams = (streams_iff o.streams).0 h1;
          owned = (IsOwned-iff o.ownership).0 h2;
          continuous = (IsContinuous-iff o.map_correction_continuity).0 h3;
          commands = (command_iff o.ownership).0 h4;
          saved = (IsSaved-iff o.artifacts).0 h5;
          torn_down = (IsTornDown-iff o.process).0 h6;
          source = not-true _ k1;
          replay = not-true _ (and_true _ _ k2).0;
          accounted = (clouds_iff o).0 h8;
        }),
    (λ a. (passed_iff o).1 (
        all_passed-checks o
        ∙ rw (
          (streams_iff o.streams).1 a.streams,
          (IsOwned-iff o.ownership).1 a.owned,
          (IsContinuous-iff o.map_correction_continuity).1 a.continuous,
          (command_iff o.ownership).1 a.commands,
          (IsSaved-iff o.artifacts).1 a.saved,
          (IsTornDown-iff o.process).1 a.torn_down,
          a.source,
          a.replay,
          (clouds_iff o).1 a.accounted,
        ))),
  )
