-- ===== src/Bringup/Metrics.antt =====
-- src/bringup/bringup/preflight_metrics.py: the verdict on the statistics of a topic. The text of a
-- detail is left out, and a check of a topic is named by the last part of its id.
use go2_local_navigation.Prelude.{
  String, Bool, true, false, ◌&&◌, ◌||◌, Option, none, some, List, [], ◌∷◌, any, ltb, ◌==◌,
  if◌then◌else◌,
}
use go2_local_navigation.Prelude.Int.{pos}
use go2_local_navigation.Prelude.Text.{str_eq, elem_str}
use go2_local_navigation.Prelude.Float.{Float}
use go2_local_navigation.Bringup.Topic.{TopicSummary}

pub data CheckStatus : Type 0 where
  pass fail warn deferred : CheckStatus

pub record CheckResult : Type 0 where
  pub check_id : String
  pub status : CheckStatus

abbrev pub status_of : Bool → CheckStatus
status_of true = pass
status_of false = fail

-- `expected is None or observed == (expected,)`
abbrev pub frame_passed : Option String → List String → Bool
frame_passed none observed = true
frame_passed (some expected) (frame ∷ []) = str_eq frame expected
frame_passed (some expected) _ = false

module _ {F : Type 0} ⦃fl : Float F⦄ where
  abbrev pub graph_passed : TopicSummary F → Bool
  graph_passed s =
      elem_str s.contract.expected_type s.observed_types && ltb 0 s.maximum_publisher_count

  abbrev pub receive_passed : TopicSummary F → Bool
  receive_passed s = ltb 1 s.received_messages && fl.le s.contract.minimum_rate_hz s.rate_hz

  abbrev pub schema_passed : TopicSummary F → Bool
  schema_passed s =
      s.invalid_messages == 0
      && frame_passed s.contract.expected_frame s.observed_frames
      && frame_passed s.contract.expected_child_frame s.observed_child_frames

  abbrev pub timing_passed : TopicSummary F → Bool
  timing_passed s =
      ltb 1 s.received_messages
      && s.timestamp_regressions == 0
      && fl.le s.maximum_gap_seconds s.contract.maximum_gap_seconds

  unfoldable pub assess_topic : TopicSummary F → List CheckResult
  assess_topic s =
      record { check_id = "graph"; status = status_of (graph_passed s) }
      ∷ record { check_id = "receive"; status = status_of (receive_passed s) }
      ∷ record { check_id = "schema"; status = status_of (schema_passed s) }
      ∷ record { check_id = "timing"; status = status_of (timing_passed s) }
      ∷ []

  -- `value or 0.0`
  abbrev or_zero : F → F
  or_zero x = if fl.eq x fl.nought then fl.nought else x

  -- 0.10, 0.10, 0.25 and 0.25
  abbrev pub stationary_status : F → F → F → F → CheckStatus
  stationary_status drift drift_yaw step step_yaw =
      if fl.lt (fl.ratio (pos 25) (pos 100)) step || fl.lt (fl.ratio (pos 25) (pos 100)) step_yaw
      then fail
      else if fl.lt (fl.ratio (pos 10) (pos 100)) drift
          || fl.lt (fl.ratio (pos 10) (pos 100)) drift_yaw
      then warn
      else pass

  abbrev four : Option F → Option F → Option F → Option F → CheckStatus
  four (some drift) (some drift_yaw) (some step) (some step_yaw) =
      stationary_status (or_zero drift) (or_zero drift_yaw) (or_zero step) (or_zero step_yaw)
  four _ _ _ _ = fail

  unfoldable pub assess_stationary_pose : TopicSummary F → CheckResult
  assess_stationary_pose s = record {
    check_id = "odometry.stationary_pose";
    status =
        four s.drift_translation_m s.drift_yaw_rad s.maximum_step_translation_m
          s.maximum_step_yaw_rad;
  }

abbrev pub is_status : CheckStatus → CheckStatus → Bool
is_status pass pass = true
is_status fail fail = true
is_status warn warn = true
is_status deferred deferred = true
is_status _ _ = false

abbrev pub has_status : CheckStatus → List CheckResult → Bool
has_status status checks = any (λ (c : CheckResult). is_status c.status status) checks

unfoldable pub overall_status : List CheckResult → CheckStatus
overall_status checks =
    if has_status fail checks
    then fail
    else if has_status warn checks
    then warn
    else if has_status pass checks
    then pass
    else deferred
