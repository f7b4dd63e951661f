-- ===== src/Bringup/Mode.antt =====
-- src/bringup/bringup/mode_observer.py: what each execution mode asks of its environment and of the
-- global transform. The texts of details are left out.
use go2_local_navigation.Prelude.{
  ℕ, String, Bool, true, false, ◌&&◌, Option, none, some, if◌then◌else◌,
}
use go2_local_navigation.Prelude.Text.{str_eq, codes, contains}
use go2_local_navigation.Bringup.Metrics.{CheckResult, status_of}

pub data ExecutionMode : Type 0 where
  fault_recovery scan_replay mapping localization synthetic_navigation live_shadow : ExecutionMode

pub record ModeEnvironment : Type 0 where
  pub rmw_implementation : String
  pub ros_domain_id : String
  pub go2_interface : String
  pub cyclonedds_uri : String

pub record GlobalTfOwnerContract : Type 0 where
  pub parent_frame : Option String
  pub child_frame : Option String
  pub owner_node : Option String
  pub owner_count : ℕ

pub record ModeContract : Type 0 where
  pub ros_domain_id : String
  pub requires_live_network : Bool
  pub global_tf : GlobalTfOwnerContract

abbrev pub no_global_tf : GlobalTfOwnerContract
no_global_tf = record {
  parent_frame = none;
  child_frame = none;
  owner_node = none;
  owner_count = 0;
}

-- the contract of one owner of `parent -> odom`
abbrev pub owned_by : String → String → GlobalTfOwnerContract
owned_by parent owner = record {
  parent_frame = some parent;
  child_frame = some "odom";
  owner_node = some owner;
  owner_count = 1;
}

abbrev offline : String → GlobalTfOwnerContract → ModeContract
offline domain tf = record { ros_domain_id = domain; requires_live_network = false; global_tf = tf }

unfoldable pub mode_contract : ExecutionMode → ModeContract
mode_contract fault_recovery = offline "61" no_global_tf
mode_contract scan_replay = offline "62" no_global_tf
mode_contract mapping = offline "63" (owned_by "map" "/slam_toolbox")
mode_contract localization = offline "64" (owned_by "map" "/amcl")
mode_contract synthetic_navigation = offline "65" (owned_by "map" "/synthetic_navigation_fixture")
mode_contract live_shadow = record {
  ros_domain_id = "0";
  requires_live_network = true;
  global_tf = owned_by "go2_shadow_map" "/slam_toolbox";
}

unfoldable pub assess_mode_environment : ExecutionMode → ModeEnvironment → CheckResult
assess_mode_environment mode e =
    let contract = mode_contract mode in
    let live_network_matches =
      str_eq e.rmw_implementation "rmw_cyclonedds_cpp"
      && str_eq e.go2_interface "eno1"
      && contains (codes "name=\"eno1\"") (codes e.cyclonedds_uri) in
    record {
      check_id = "mode.environment";
      status = status_of (
          str_eq e.ros_domain_id contract.ros_domain_id
          && (if contract.requires_live_network then live_network_matches else true));
    }
