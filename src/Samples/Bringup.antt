-- ===== src/Samples/Bringup.antt =====
-- Runs of the preflight statistics.
use go2_local_navigation.Prelude.{ℕ, ◌≡◌, refl, String, true, false, none, some, List, [], ◌∷◌}
use go2_local_navigation.Prelude.Int.{◌-ℤ◌, pos}
use go2_local_navigation.Bringup.Topic.{
  add_text, add_frame, observe_receipt, observe_stamp, observe_frames, observe_pose, observe,
  TopicContract, ObservedMessage, make_topic, summary,
}
use go2_local_navigation.Bringup.Topic.Counts.{observe_all, IsClean, passed-IsClean}
use go2_local_navigation.Bringup.Metrics.{schema_passed, timing_passed}
use go2_local_navigation.Bringup.TfOwners.{
  node_path, owner_paths, has_edge, edges, endpoint_of, unknown_gids, bytes_eq, has_gid, gids,
  TfEndpointOwner, TfCallbackTransform, select, is_global, audit,
}
use go2_local_navigation.Bringup.TfOwners.Sound.{IsSoleOwner, audit-IsSoleOwner}
use go2_local_navigation.Bringup.Mode.{owned_by}
use go2_local_navigation.Samples.Fixed.{Fixed, fixed_float, fixed_trig}

abbrev contract : TopicContract Fixed
contract = record {
  topic = "/odom";
  expected_type = "nav_msgs/msg/Odometry";
  expected_frame = some "odom";
  expected_child_frame = none;
  minimum_rate_hz = some (pos 10000);
  maximum_gap_seconds = some (pos 500);
}

-- a message received and stamped at a number of milliseconds
abbrev message : ℕ → ObservedMessage Fixed
message t = record {
  receive_nanoseconds = pos t;
  stamp_nanoseconds = some (pos t);
  frame_id = some "odom";
  child_frame_id = some "base";
  is_valid = true;
  pose = some (record { x = some (pos t); y = some (pos 0); yaw = some (pos 0) });
}

abbrev messages : List (ObservedMessage Fixed)
messages =
    message 100
    ∷ message 300
    ∷ record (message 400) { frame_id = some ""; stamp_nanoseconds = none }
    ∷ []

run_regressions :
    (summary (
      observe_all contract
        (message 300 ∷ message 100 ∷ message 200 ∷ message 300 ∷ [])
        (make_topic contract))).timestamp_regressions
    ≡ 2
unfolding summary observe_all observe observe_pose observe_frames observe_stamp observe_receipt
run_regressions = refl

schema : schema_passed (summary (observe_all contract messages (make_topic contract))) ≡ true
unfolding summary observe_all observe observe_pose observe_frames observe_stamp observe_receipt
    add_frame add_text
schema = refl

timing : timing_passed (summary (observe_all contract messages (make_topic contract))) ≡ true
unfolding summary observe_all observe observe_pose observe_frames observe_stamp observe_receipt ◌-ℤ◌
timing = refl

passed-IsClean_example : IsClean contract none messages
passed-IsClean_example = passed-IsClean contract messages schema timing

abbrev endpoints : List TfEndpointOwner
endpoints =
    record { publisher_gid = 1 ∷ 2 ∷ []; node_name = "slam_toolbox"; node_namespace = "/" }
    ∷ record { publisher_gid = 3 ∷ []; node_name = "adapter"; node_namespace = "/go2/" }
    ∷ []

abbrev edge : String → String → List ℕ → TfCallbackTransform
edge parent child gid = record { parent_frame = parent; child_frame = child; publisher_gid = gid }

abbrev callbacks : List TfCallbackTransform
callbacks =
    edge "map" "odom" (1 ∷ 2 ∷ [])
    ∷ edge "odom" "base" (3 ∷ [])
    ∷ edge "map" "odom" (1 ∷ 2 ∷ [])
    ∷ []

-- A second publisher of the same edge is found out by its GID alone.
run_two_owners :
    (audit
      (owned_by "map" "/slam_toolbox")
      endpoints
      (edge "map" "odom" (3 ∷ []) ∷ callbacks)).cardinality
    ≡ false
unfolding audit gids select is_global has_gid bytes_eq
run_two_owners = refl

audit-IsSoleOwner_example :
    (e : TfEndpointOwner) × IsSoleOwner "map" "/slam_toolbox" endpoints
      (select is_global callbacks)
      e
unfolding audit unknown_gids select is_global endpoint_of bytes_eq edges has_edge gids has_gid
    owner_paths node_path
audit-IsSoleOwner_example =
    audit-IsSoleOwner "map" "/slam_toolbox" endpoints callbacks (refl, refl, refl, refl)
