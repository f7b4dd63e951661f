-- ===== src/Control/Trial.antt =====
-- src/go2_control/go2_control/trial_record.py: what the recorder of a trial keeps. The identifier
-- from `uuid4` is an argument; writing the JSON file is left out.
pub mod Summary
use go2_local_navigation.Prelude.{
  ℕ, ◌+◌, ◌≡◌, ◌∙◌, refl, String, Bool, true, false, Option, none, some, List, [], ◌∷◌, ◌++◌, ltb,
  ◌==◌, when, arith, is_none, length, if◌then◌else◌,
}
use go2_local_navigation.Prelude.Int.{ℤ}
use go2_local_navigation.Control.SportRequest.{move_api_id, stop_move_api_id}

pub record MotionCandidateObservation (F : Type 0) : Type 0 where
  pub velocity_x : F
  pub velocity_y : F
  pub yaw_rate : F

pub record PreviewObservation : Type 0 where
  pub api_id : ℕ
  pub parameter : String

pub record OdometryObservation (F : Type 0) : Type 0 where
  pub position_x : F
  pub position_y : F
  pub yaw_radians : F

-- Each observation is kept with the time of its receipt.
pub record TrialRecordAccumulator (F : Type 0) : Type 0 where
  pub candidate_message_count : ℕ
  pub preview_message_count : ℕ
  pub odometry_message_count : ℕ
  pub latest_candidate : Option (MotionCandidateObservation F × ℤ)
  pub latest_preview : Option (PreviewObservation × ℤ)
  pub latest_move_preview : Option (PreviewObservation × ℤ)
  pub latest_stop_preview : Option (PreviewObservation × ℤ)
  pub first_odometry : Option (OdometryObservation F × ℤ)
  pub last_odometry : Option (OdometryObservation F × ℤ)

pub record TrialRecord (F : Type 0) : Type 0 where
  pub record_id : String
  pub record_kind : String
  pub run_label : String
  pub status : String
  pub recorded_at : String
  pub provenance : String
  pub observed_topics : List String
  pub kept : TrialRecordAccumulator F

-- What the recorder node calls.
pub data Observation (F : Type 0) : Type 0 where
  candidate : ℤ → MotionCandidateObservation F → Observation F
  preview : ℤ → PreviewObservation → Observation F
  odometry : ℤ → OdometryObservation F → Observation F

module _ {F : Type 0} where
  abbrev pub make_record : TrialRecordAccumulator F
  make_record = record {
    candidate_message_count = 0;
    preview_message_count = 0;
    odometry_message_count = 0;
    latest_candidate = none;
    latest_preview = none;
    latest_move_preview = none;
    latest_stop_preview = none;
    first_odometry = none;
    last_odometry = none;
  }

  unfoldable pub observe_candidate :
      ℤ → MotionCandidateObservation F → TrialRecordAccumulator F → TrialRecordAccumulator F
  observe_candidate received_at observation s = record s {
    candidate_message_count = s.candidate_message_count + 1;
    latest_candidate = some (observation, received_at);
  }

  unfoldable pub observe_preview :
      ℤ → PreviewObservation → TrialRecordAccumulator F → TrialRecordAccumulator F
  observe_preview received_at observation s = record s {
    preview_message_count = s.preview_message_count + 1;
    latest_preview = some (observation, received_at);
    latest_move_preview =
        if observation.api_id == move_api_id
        then some (observation, received_at)
        else s.latest_move_preview;
    latest_stop_preview =
        if observation.api_id == stop_move_api_id
        then some (observation, received_at)
        else s.latest_stop_preview;
  }

  unfoldable pub observe_odometry :
      ℤ → OdometryObservation F → TrialRecordAccumulator F → TrialRecordAccumulator F
  observe_odometry received_at observation s = record s {
    odometry_message_count = s.odometry_message_count + 1;
    first_odometry =
        if is_none s.first_odometry then some (observation, received_at) else s.first_odometry;
    last_odometry = some (observation, received_at);
  }

  abbrev pub observe_one : Observation F → TrialRecordAccumulator F → TrialRecordAccumulator F
  observe_one (candidate t o) s = observe_candidate t o s
  observe_one (preview t o) s = observe_preview t o s
  observe_one (odometry t o) s = observe_odometry t o s

  unfoldable pub observe_all :
      List (Observation F) → TrialRecordAccumulator F → TrialRecordAccumulator F
  unfolding observe_candidate observe_preview observe_odometry
  observe_all [] s = s
  observe_all (o ∷ os) s = observe_all os (observe_one o s)

  unfoldable pub snapshot : String → String → String → TrialRecordAccumulator F → TrialRecord F
  snapshot record_id run_label recorded_at s = record {
    record_id = record_id;
    record_kind = "limited_physical_motion_trial_observation";
    run_label = run_label;
    status = "unverified";
    recorded_at = recorded_at;
    provenance = "read_only_recorder_no_control_publication";
    observed_topics =
        when (ltb 0 s.candidate_message_count) "/go2_control/cmd_vel_candidate"
        ++ when (ltb 0 s.preview_message_count) "/go2_control/sport_request_preview"
        ++ when (ltb 0 s.odometry_message_count) "/odom";
    kept = s;
  }
