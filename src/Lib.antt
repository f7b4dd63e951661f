-- ===== src/Lib.antt =====
-- A verification library for go2_local_navigation: the sensing, mapping, odometry and motion
-- preview stack that runs beside a Unitree Go2 robot. The stack is a set of ROS 2 nodes in
-- Python, and of runners that test it. Each node keeps a state that its callbacks change one at a
-- time, and puts its decisions in functions that know nothing of ROS.
--
-- How the parts work together. The mapping cloud gate forwards sound lidar clouds to the
-- accumulator node, which queues them until their transform is known, moves them to the target
-- frame and publishes windows of them for SLAM. The odometry adapter checks the robot's odometry
-- and publishes it with its transform. The motion adapter turns velocity commands into Sport
-- requests, which it previews and, with an open gate, sends. The validation package measures a
-- mapping run, reads the accounting that the accumulator node prints at shutdown, and judges the
-- run; its fault fixture publishes faulty clouds and odometry, and a runner judges whether the
-- stack stopped and recovered. A recorded run can be fetched from a pinned source and cut to a
-- short window for an external replay.
--
-- Files and sources, with paths from the root of the repository:
--   Prelude: names from the libraries, Boolean tests, lists, integers, texts, stamped lists,
--     floats, and (Document) the values that YAML and JSON libraries return.
--   Control/Motion: src/go2_control/go2_control/motion_contract.py, in the order of its functions
--     (assess_motion_input with its two limits). Control/Motion/Order and Bounds hold its proofs.
--   Control/SportRequest: sport_request.py of the same package.
--   Control/Trial: trial_record.py.
--   Control/Adapter: motion_adapter_node.py; on_twist and on_watchdog are the callbacks _on_twist
--     and _on_watchdog. Control/Adapter/Safety and Watchdog hold its proofs.
--   Estimation/Profile, Contract, Continuity, Adapter: continuity_profiles.py,
--     odometry_contract.py (the last two) and odometry_adapter_node.py of
--     src/go2_state_estimation/go2_state_estimation; on_odometry and check_loss are the
--     callbacks.
--   Sensor: lidar_contract.py and lidar_acceptance_node.py of src/go2_sensor/go2_sensor;
--     on_lidar_cloud is the callback _on_cloud.
--   Perception/Gate: mapping_cloud_contract.py and mapping_cloud_gate_node.py of
--     src/go2_perception/go2_perception.
--   Perception/RetryQueue and Window: the two classes of mapping_cloud_accumulator.py; a method
--     is the function of its name, without the leading underscore. Perception/Message holds the
--     message and the errors that they share.
--   Perception/Accumulator: mapping_cloud_accumulator_node.py; on_cloud and
--     process_pending_clouds are the callbacks. Its child modules hold the proofs on its loop,
--     its accounts and the order of its outputs.
--   Perception/Candidates: perception_contract.py and obstacle_candidate_node.py;
--     on_candidate_cloud is the callback _on_cloud.
--   Perception/ScanProfile: mapping_scan_profiles.py.
--   Validation/TfContinuity, Pose, PoseContinuity, Acceptance, FaultFixture:
--     mapping_tf_continuity.py, mapping_pose_continuity.py (Pose and PoseContinuity),
--     mapping_acceptance.py and fault_fixture_model.py of src/go2_validation/go2_validation.
--   Validation/CloudAccounting: mapping_cloud_accounting.py; its child module has the printer of
--     mapping_cloud_accumulator.py.
--   Validation/FixtureNode, FaultCapture, FaultAcceptance: fault_fixture_node.py (tick is the
--     timer callback _tick), fault_runtime_capture.py and fault_acceptance_runner.py.
--   Validation/BoundedWait: offline_process.py, and the waits and calls of
--     mapping_player_services.py and mapping_slam_services.py. Validation/ScanQuality:
--     mapping_scan_quality.py.
--   Replay/Contract, Manifest, Window, Files, Download, Acquire: external_replay_contract.py,
--     external_replay_manifest.py, external_replay_window.py, external_replay_acquisition.py,
--     external_replay_download.py and external_replay_acquisition_runner.py of the same package.
--   Bringup/Topic and Metrics: preflight_accumulator.py (with preflight_types.py) and
--     preflight_metrics.py of src/bringup/bringup.
--   Bringup/Mode, TfOwners and FaultContract: mode_observer.py, tf_owner_audit.py and
--     fault_contract.py of the same package.
--   Samples: runs at concrete inputs, and a float of thousandths for the assumptions made on
--     floats.
--
-- How code is modelled. A record holds the attributes of a node or an object, and a method is a
-- function from the state to the new state. What a node publishes is a list in its state, the
-- newest first. A reading of a clock is an argument. An exception is a value of Result, or an
-- Option beside the state where the writes made before the exception stay. A run is a list of
-- callbacks, which the executor runs one at a time in any order. Python's integers are the
-- integers of Prelude/Int, or natural numbers where the code only counts. Strings that name a
-- reason are constructors where the code compares them, and texts elsewhere. The local files of
-- the external replay are a function from a path to what stands there: a regular file with its
-- bytes, or something special, as a directory is; permissions and an unlink of a directory are
-- left out. The directories that a download makes above its destination are modelled, and a
-- temporary directory is a path of its own that is empty again at the end.
--
-- What is a parameter. Floats are the record Float of operations (with Trig of functions of the
-- math module, and Truncation, which is int() of a finite float); IsOrdered, IsSigned, IsRounded,
-- IsMonotone and IsUnbounded are the facts of IEEE 754 arithmetic that proofs use, such as the
-- order of numbers that are not NaN and that a product of numbers of at least zero is at least
-- zero. The TF buffer, the point cloud libraries, the JSON codec, SHA-256, an attempt of curl,
-- the members of a tar archive and the range checks of generated message classes are parameters
-- of the definitions that call them. So is round to nine digits.
--
-- Loops. The timer of the accumulator node loops while its queue has a head that can be taken.
-- Its loop runs on fuel that is the number of queued clouds plus one: every pass that goes on
-- takes one cloud from the queue, so there is fuel for every pass. A wait with a deadline runs on
-- the nanoseconds of its timeout plus one, since a spin takes a nanosecond or more. A copy of a
-- file runs on the bytes of its source plus one, since a chunk has a byte or more. The timer of
-- the fault fixture is followed for 40 ticks, which is more than its longest timeline has.
--
-- Not modelled: logging, ROS parameters, subscriptions and entry points; launch files; the
-- parsing of YAML and JSON texts, which libraries do; the runners of src/go2_validation, which
-- start processes and read ROS graphs, with the result data and observers that only they use; the
-- scan and the conversion of recorded messages; the result report of src/bringup and its readings
-- of the host; the probe nodes; and src/go2_nav2 and the robot description, which hold
-- configuration.
pub mod Prelude
pub mod Control
pub mod Estimation
mod Samples
pub mod Perception
pub mod Sensor
pub mod Validation
pub mod Replay
pub mod Bringup
