-- ===== src/Validation/Acceptance.antt =====
-- src/go2_validation/go2_validation/mapping_acceptance.py: the verdict on a mapping run. The
-- accounting is the record that the accumulator node prints; `scan_quality`, `continuity` and
-- `odometry_continuity`, which the verdict does not read, are left out.
pub mod Verdict
pub mod Accumulated
use go2_local_navigation.Prelude.{
  ℕ, ◌+◌, ◌*◌, String, Bool, true, false, not, ◌&&◌, ◌||◌, Option, none, some, List, [], ◌∷◌, ◌++◌,
  is_empty, map, ltb, leb, ◌==◌, if◌then◌else◌,
}
use go2_local_navigation.Prelude.Int.{ℤ, pos, eqb_ℤ}
use go2_local_navigation.Prelude.Text.{str_eq}
use go2_local_navigation.Prelude.Float.{Float, Trig}
use go2_local_navigation.Perception.RetryQueue.{MappingCloudAccounting}
use go2_local_navigation.Validation.TfContinuity.{maximum_translation_step, maximum_yaw_step}
use go2_local_navigation.Validation.PoseContinuity.{MappingCorrectionContinuityObservation}

pub data MappingVariant : Type 0 where
  project_stationary external_dynamic_short external_dynamic_full : MappingVariant

pub data MappingStatus : Type 0 where
  passed failed : MappingStatus

pub record MappingStreamObservation : Type 0 where
  pub expected_cloud_count : ℕ
  pub observed_cloud_count : ℕ
  pub expected_odometry_count : ℕ
  pub observed_odometry_count : ℕ
  pub scan_count : ℕ
  pub odom_count : ℕ
  pub map_count : ℕ
  pub map_frames : List String
  pub map_has_cells : Bool

pub record MappingOwnershipObservation : Type 0 where
  pub slam_services_ready : Bool
  pub clock_publisher_max : ℕ
  pub clock_progressed : Bool
  pub clock_stalled : Bool
  pub global_edges : List (String × String)
  pub global_owner_nodes : List String
  pub command_publisher_max : ℕ
  pub control_node_max : ℕ

pub record MappingArtifactObservation : Type 0 where
  pub occupancy_saved : Bool
  pub pose_graph_saved : Bool
  pub pose_graph_reloaded : Bool
  pub checksums : List (String × String)

pub record MappingProcessObservation : Type 0 where
  pub player_exit_code : ℤ
  pub launch_exit_code : ℤ
  pub residual_nodes : List String
  pub residual_processes : List String
  pub teardown_clock_publishers : ℕ
  pub teardown_global_owner_nodes : List String

pub record MappingObservation (F : Type 0) : Type 0 where
  pub variant : MappingVariant
  pub provenance : String
  pub source_checksum : String
  pub replay_checksum : String
  pub streams : MappingStreamObservation
  pub ownership : MappingOwnershipObservation
  pub artifacts : MappingArtifactObservation
  pub process : MappingProcessObservation
  pub sensor_tf_profile : String
  pub map_correction_continuity : MappingCorrectionContinuityObservation F
  pub scan_projection_profile : String
  pub coarse_search_angle_offset : F
  pub use_response_expansion : Bool
  pub do_loop_closing : Bool
  pub expected_intrinsic_untransformable_cloud_count : ℕ
  pub cloud_accounting : Option MappingCloudAccounting

pub record MappingResult (F : Type 0) : Type 0 where
  pub variant : MappingVariant
  pub status : MappingStatus
  pub provenance : String
  pub source_checksum : String
  pub replay_checksum : String
  pub sensor_tf_profile : String
  pub scan_projection_profile : String
  pub coarse_search_angle_offset : F
  pub use_response_expansion : Bool
  pub do_loop_closing : Bool
  pub expected_intrinsic_untransformable_cloud_count : ℕ
  pub failed_checks : List String

-- A check is its name and whether it passed.
abbrev pub Check : Type 0
Check = String × Bool

unfoldable pub failed_of : List Check → List String
failed_of [] = []
failed_of ((name, ok) ∷ rest) = let names = failed_of rest in if ok then names else name ∷ names

-- equality of tuples of texts, and of tuples of pairs of texts
abbrev pub texts_eq : List String → List String → Bool
texts_eq [] [] = true
texts_eq (a ∷ s) (b ∷ t) = str_eq a b && texts_eq s t
texts_eq _ _ = false

abbrev pub edges_eq : List (String × String) → List (String × String) → Bool
edges_eq [] [] = true
edges_eq ((a, b) ∷ s) ((c, d) ∷ t) = str_eq a c && str_eq b d && edges_eq s t
edges_eq _ _ = false

abbrev pub expected_artifact_names : List String
expected_artifact_names =
    "occupancy.pgm" ∷ "occupancy.yaml" ∷ "pose_graph.data" ∷ "pose_graph.posegraph" ∷ []

-- CLOUD_ACCOUNTING_EMIT_CADENCES.get
unfoldable pub emit_cadence : String → Option ℕ
emit_cadence profile =
    if str_eq profile "dimos_odom_accumulated"
    then some 1
    else if str_eq profile "dimos_odom_accumulated_emit3"
    then some 3
    else if str_eq profile "dimos_odom_accumulated_emit10"
    then some 10
    else none

unfoldable pub accounting_checks : ℕ → ℕ → ℕ → MappingCloudAccounting → List Check
accounting_checks expected_emit_every expected_cloud_count intrinsic a =
    ("cloud_accounting_received", a.received == expected_cloud_count)
    ∷ (
      "cloud_accounting_input_conservation",
      a.processed + a.dropped_unrecoverable + a.dropped_overflow + a.pending_at_shutdown
          == a.received,
    )
    ∷ (
      "cloud_accounting_output_conservation",
      a.output_published * a.emit_every + a.partial_frames_not_emitted == a.processed,
    )
    ∷ ("cloud_accounting_emit_every", a.emit_every == expected_emit_every)
    ∷ ("cloud_accounting_dropped_unrecoverable", a.dropped_unrecoverable == intrinsic)
    ∷ ("cloud_accounting_dropped_overflow", a.dropped_overflow == 0)
    ∷ ("cloud_accounting_pending_at_shutdown", a.pending_at_shutdown == 0)
    ∷ ("cloud_accounting_output_stamp_regression", a.output_stamp_regression_count == 0)
    ∷ (
      "cloud_accounting_future_recovery",
      not (a.pending_at_shutdown == 0) || a.future_waited == a.recovered_after_retry,
    )
    ∷ []

unfoldable pub cloud_accounting_checks : {F : Type 0} → MappingObservation F → List Check
cloud_accounting_checks o = elim (emit_cadence o.scan_projection_profile) [
  | none ↦ []
  | some expected ↦ elim o.cloud_accounting [
    | none ↦ ("cloud_accounting", false) ∷ []
    | some a ↦
        accounting_checks expected o.streams.expected_cloud_count
          o.expected_intrinsic_untransformable_cloud_count a
  ]
]

unfoldable pub stream_checks : MappingStreamObservation → List Check
stream_checks s =
    ("cloud_count", s.observed_cloud_count == s.expected_cloud_count)
    ∷ ("odometry_count", s.observed_odometry_count == s.expected_odometry_count)
    ∷ ("scan_received", ltb 0 s.scan_count)
    ∷ ("odom_received", ltb 0 s.odom_count)
    ∷ ("map_received", ltb 0 s.map_count)
    ∷ ("map_frame", texts_eq s.map_frames ("map" ∷ []))
    ∷ ("map_cells", s.map_has_cells)
    ∷ []

unfoldable pub ownership_checks : MappingOwnershipObservation → List Check
ownership_checks o =
    ("slam_services", o.slam_services_ready)
    ∷ ("clock_owner", o.clock_publisher_max == 1)
    ∷ ("clock_progress", o.clock_progressed)
    ∷ ("clock_stall", not o.clock_stalled)
    ∷ ("global_tf_edge", edges_eq o.global_edges (("map", "odom") ∷ []))
    ∷ ("global_tf_owner", texts_eq o.global_owner_nodes ("/slam_toolbox" ∷ []))
    ∷ []

unfoldable pub command_checks : MappingOwnershipObservation → List Check
command_checks o =
    ("command_publishers", o.command_publisher_max == 0)
    ∷ ("control_nodes", o.control_node_max == 0)
    ∷ []

unfoldable pub artifact_checks : MappingArtifactObservation → List Check
artifact_checks a =
    ("occupancy_saved", a.occupancy_saved)
    ∷ ("pose_graph_saved", a.pose_graph_saved)
    ∷ ("pose_graph_reloaded", a.pose_graph_reloaded)
    ∷ (
      "artifact_checksums",
      texts_eq (map (λ (c : String × String). c.0) a.checksums) expected_artifact_names,
    )
    ∷ []

unfoldable pub process_checks : MappingProcessObservation → List Check
process_checks p =
    ("player_exit", eqb_ℤ p.player_exit_code (pos 0))
    ∷ ("launch_exit", eqb_ℤ p.launch_exit_code (pos 0))
    ∷ ("residual_nodes", is_empty p.residual_nodes)
    ∷ ("residual_processes", is_empty p.residual_processes)
    ∷ ("teardown_clock", p.teardown_clock_publishers == 0)
    ∷ ("teardown_global_tf", is_empty p.teardown_global_owner_nodes)
    ∷ []

module _ {F : Type 0} ⦃fl : Float F⦄ ⦃m : Trig F⦄ where
  unfoldable pub correction_checks : MappingCorrectionContinuityObservation F → List Check
  correction_checks c =
      ("map_correction_samples", leb 2 c.sample_count)
      ∷ (
        "map_correction_translation_step",
        fl.le c.maximum_translation_step_m maximum_translation_step,
      )
      ∷ ("map_correction_yaw_step", fl.le c.maximum_yaw_step_rad maximum_yaw_step)
      ∷ ("map_correction_unaligned", c.unaligned_sample_count == 0)
      ∷ ("map_correction_stamp_regression", c.regressive_stamp_count == 0)
      ∷ []

  -- all the checks, in the order of the code
  unfoldable pub checks : MappingObservation F → List Check
  checks o =
      stream_checks o.streams
      ++ ownership_checks o.ownership
      ++ correction_checks o.map_correction_continuity
      ++ command_checks o.ownership
      ++ artifact_checks o.artifacts
      ++ process_checks o.process
      ++ (("source_checksum", not (str_eq o.source_checksum ""))
          ∷ ("replay_checksum", not (str_eq o.replay_checksum ""))
          ∷ [])
      ++ cloud_accounting_checks o

  unfoldable pub assess_mapping : MappingObservation F → MappingResult F
  assess_mapping o =
      let failures = failed_of (checks o) in
      record {
        variant = o.variant;
        status = if is_empty failures then passed else failed;
        provenance = o.provenance;
        source_checksum = o.source_checksum;
        replay_checksum = o.replay_checksum;
        sensor_tf_profile = o.sensor_tf_profile;
        scan_projection_profile = o.scan_projection_profile;
        coarse_search_angle_offset = o.coarse_search_angle_offset;
        use_response_expansion = o.use_response_expansion;
        do_loop_closing = o.do_loop_closing;
        expected_intrinsic_untransformable_cloud_count =
            o.expected_intrinsic_untransformable_cloud_count;
        failed_checks = failures;
      }
