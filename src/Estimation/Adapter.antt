-- ===== src/Estimation/Adapter.antt =====
-- src/go2_state_estimation/go2_state_estimation/odometry_adapter_node.py: the node's state and its
-- two callbacks. A reading of the node's clock is an argument; what went out on `/odom` and to the
-- TF broadcaster are lists, the newest first. Logging is left out.
pub mod Outcome
pub mod Accounting
use go2_local_navigation.Prelude.{
  ℕ, ◌+◌, String, Bool, true, false, not, ◌||◌, Option, none, some, List, [], ◌∷◌, ◌++◌, is_empty,
  if◌then◌else◌,
}
use go2_local_navigation.Prelude.Int.{ℤ}
use go2_local_navigation.Prelude.Text.{elem_str}
use go2_local_navigation.Prelude.Float.{Float, Trig}
use go2_local_navigation.Perception.Message.{Stamp, Header, stamp_nanoseconds}
use go2_local_navigation.Estimation.Profile.{ContinuityProfile}
use go2_local_navigation.Estimation.Contract.{
  Xyz, Xyzw, OdometrySample, ContractAssessment, assess_odometry_adapter,
}
use go2_local_navigation.Estimation.Continuity.{
  ReasonCode, ContinuityState, ContinuityTransition, ContinuityAssessment, fresh_state,
  advance_continuity, assess_odometry_loss, mark_odometry_loss,
}

-- geometry_msgs/PoseWithCovariance and TwistWithCovariance, nav_msgs/Odometry and
-- geometry_msgs/TransformStamped
pub record Pose (F : Type 0) : Type 0 where
  pub position : Xyz F
  pub orientation : Xyzw F
  pub covariance : List F

pub record Twist (F : Type 0) : Type 0 where
  pub linear : Xyz F
  pub angular : Xyz F
  pub covariance : List F

pub record Odometry (F : Type 0) : Type 0 where
  pub header : Header
  pub child_frame_id : String
  pub pose : Pose F
  pub twist : Twist F

pub record TransformStamped (F : Type 0) : Type 0 where
  pub header : Header
  pub child_frame_id : String
  pub translation : Xyz F
  pub rotation : Xyzw F

pub record OdometryAdapter (F : Type 0) : Type 0 where
  pub previous_timestamp_nanoseconds : Option ℤ
  pub continuity_profile : ContinuityProfile F
  pub continuity_state : ContinuityState F
  pub loss_reported : Bool
  pub received_sample_count : ℕ
  pub published_sample_count : ℕ
  pub rejected_sample_count : ℕ
  pub continuity_violation_count : ℕ
  pub seen_warning_codes : List String
  pub odometry : List (Odometry F)
  pub transforms : List (TransformStamped F)

-- the warnings that are not in the set of those seen
unfoldable pub new_warnings : List String → List String → List String
new_warnings seen [] = []
new_warnings seen (w ∷ ws) =
    let rest = new_warnings seen ws in if elem_str w seen then rest else w ∷ rest

module _ {F : Type 0} where
  -- `__init__`, once the profile is loaded
  unfoldable pub make_adapter : ContinuityProfile F → OdometryAdapter F
  make_adapter profile = record {
    previous_timestamp_nanoseconds = none;
    continuity_profile = profile;
    continuity_state = fresh_state;
    loss_reported = false;
    received_sample_count = 0;
    published_sample_count = 0;
    rejected_sample_count = 0;
    continuity_violation_count = 0;
    seen_warning_codes = [];
    odometry = [];
    transforms = [];
  }

  abbrev pub sample_of : Odometry F → OdometrySample F
  sample_of message = record {
    timestamp_nanoseconds = stamp_nanoseconds message.header.stamp;
    header_frame_id = message.header.frame_id;
    child_frame_id = message.child_frame_id;
    position_xyz = message.pose.position;
    orientation_xyzw = message.pose.orientation;
    linear_velocity_xyz = message.twist.linear;
    angular_velocity_xyz = message.twist.angular;
    pose_covariance = message.pose.covariance;
    twist_covariance = message.twist.covariance;
  }

  abbrev pub output_of : Odometry F → Odometry F
  output_of message = record {
    header = message.header;
    child_frame_id = "base";
    pose = message.pose;
    twist = message.twist;
  }

  abbrev pub transform_of : Odometry F → TransformStamped F
  transform_of message = record {
    header = message.header;
    child_frame_id = "base";
    translation = message.pose.position;
    rotation = message.pose.orientation;
  }

  -- the end of `_on_odometry`
  unfoldable pub expose : Odometry F → List String → OdometryAdapter F → OdometryAdapter F
  expose message warnings n = record n {
    loss_reported = false;
    seen_warning_codes = n.seen_warning_codes ++ new_warnings n.seen_warning_codes warnings;
    odometry = output_of message ∷ n.odometry;
    transforms = transform_of message ∷ n.transforms;
    published_sample_count = n.published_sample_count + 1;
  }

  -- what follows the transition of the continuity state
  judge : ContinuityAssessment → Odometry F → List String → OdometryAdapter F → OdometryAdapter F
  judge assessment message warnings n = elim assessment.reason_code [
    | none ↦ expose message warnings n
    | some reason ↦
        let counted = record n { continuity_violation_count = n.continuity_violation_count + 1 } in
        if assessment.publish
        then expose message warnings counted
        else record counted { rejected_sample_count = n.rejected_sample_count + 1 }
  ]

module _ {F : Type 0} ⦃fl : Float F⦄ ⦃m : Trig F⦄ where
  unfoldable pub on_odometry : Odometry F → ℤ → OdometryAdapter F → OdometryAdapter F
  unfolding judge
  on_odometry message now s =
      let n = record s { received_sample_count = s.received_sample_count + 1 } in
      let sample = sample_of message in
      let assessment = assess_odometry_adapter sample n.previous_timestamp_nanoseconds in
      if not (is_empty assessment.errors)
      then record n { rejected_sample_count = n.rejected_sample_count + 1 }
      else let transition = advance_continuity n.continuity_state sample now n.continuity_profile in
        judge transition.assessment message assessment.warnings (record n {
          previous_timestamp_nanoseconds = some sample.timestamp_nanoseconds;
          continuity_state = transition.state;
        })

module _ {F : Type 0} where
  unfoldable pub check_loss : ℤ → OdometryAdapter F → OdometryAdapter F
  check_loss now n =
      let loss = assess_odometry_loss n.continuity_state now n.continuity_profile in
      if loss.continuity_valid || n.loss_reported then n else record n {
        continuity_state = mark_odometry_loss n.continuity_state;
        loss_reported = true;
        continuity_violation_count = n.continuity_violation_count + 1;
      }

-- The callbacks that the executor runs, each with the reading of the clock.
pub data Call (F : Type 0) : Type 0 where
  receive : Odometry F → ℤ → Call F
  timer : ℤ → Call F

module _ {F : Type 0} ⦃fl : Float F⦄ ⦃m : Trig F⦄ where
  abbrev pub call : Call F → OdometryAdapter F → OdometryAdapter F
  call (receive message now) n = on_odometry message now n
  call (timer now) n = check_loss now n

  unfoldable pub run_calls : List (Call F) → OdometryAdapter F → OdometryAdapter F
  run_calls [] n = n
  run_calls (c ∷ cs) n = run_calls cs (call c n)
