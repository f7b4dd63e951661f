-- ===== src/Validation/FixtureNode.antt =====
-- src/go2_validation/go2_validation/fault_fixture_node.py: the node that plays a timeline. What it
-- publishes is one list, the newest first; `remaining` is `self._events[self._event_index:]`.
pub mod Ends
pub mod Gate
use go2_local_navigation.Prelude.{
  ℕ, ◌+◌, ◌-◌, ◌/◌, ◌%◌, zero, suc, ◌*◌, String, Bool, true, false, not, ◌&&◌, ◌||◌, Option, none,
  some, List, [], ◌∷◌, ◌++◌, is_empty, ltb, length, Result, ok, err, ◌>>=◌, if◌then◌else◌,
}
use go2_local_navigation.Prelude.Int.{ℤ, pos, negsuc, ltb_ℤ, ◌+ℤ◌, ◌-ℤ◌}
use go2_local_navigation.Perception.Message.{Stamp, PointField, PointCloud2}
use go2_local_navigation.Validation.FaultFixture.{
  FaultKind, malformed_layout, empty_cloud, nan_cloud, stale_cloud, tf_loss, odom_regression,
  odom_jump, odom_loss, process_exit, launch_failure, FaultScenario, FixtureEvent, FixturePhase,
  suppressed, recovered, owned_child_exit, FixtureConfigurationError, build_attempt_events,
  expected_child_exit_code, baseline_clock, suppressed_at,
}

-- What is on the topics: a clock reading, a cloud, an odometry stamp with its x in metres, an event.
pub data Output : Type 0 where
  clock : ℤ → Output
  cloud : PointCloud2 → Output
  odometry : ℤ → ℕ → Output
  declared : FixtureEvent → Output

pub record FixtureNode : Type 0 where
  pub scenario : FaultScenario
  pub remaining : List FixtureEvent
  pub current_clock_nanoseconds : ℤ
  pub exit_code : ℕ
  pub done : Bool
  pub published : List Output

abbrev pub tick_nanoseconds : ℤ
tick_nanoseconds = pos 50000000

-- 15 ticks before the baseline
abbrev start_clock : Bool → ℤ
start_clock true = suppressed_at
start_clock false = pos 9250000000

abbrev pub with_events : FaultScenario → Bool → List FixtureEvent → FixtureNode
with_events s restart events = record {
  scenario = s;
  remaining = events;
  current_clock_nanoseconds = start_clock restart;
  exit_code = if is_empty events then expected_child_exit_code s.fault_kind else 0;
  done = is_empty events;
  published = [];
}

-- `__init__`, from the parameters
unfoldable pub make_fixture : FaultScenario → Bool → Result FixtureConfigurationError FixtureNode
unfolding expected_child_exit_code
make_fixture s restart =
    build_attempt_events s restart none >>= λ events. ok (with_events s restart events)

abbrev pub is_odometry_fault : FaultKind → Bool
is_odometry_fault odom_regression = true
is_odometry_fault odom_jump = true
is_odometry_fault odom_loss = true
is_odometry_fault _ = false

abbrev is_recovered : FixturePhase → Bool
is_recovered recovered = true
is_recovered _ = false

-- `_time`: division rounds down
unfoldable pub time_of : ℤ → Stamp
time_of (pos n) = record { sec = pos (n / 1000000000); nanosec = n % 1000000000 }
time_of (negsuc n) = record { sec = negsuc (n / 1000000000); nanosec = 999999999 - n % 1000000000 }

abbrev xyz_fields : List PointField
xyz_fields =
    record { name = "x"; offset = 0; datatype = 7; count = 1 }
    ∷ record { name = "y"; offset = 4; datatype = 7; count = 1 }
    ∷ record { name = "z"; offset = 8; datatype = 7; count = 1 }
    ∷ []

abbrev zeros : List ℕ
zeros = 0 ∷ 0 ∷ 0 ∷ 0 ∷ 0 ∷ 0 ∷ 0 ∷ 0 ∷ []

-- `struct.pack("<fff", x, 0.0, 0.0)` for x = NaN and for x = 1.0
abbrev point_bytes : Bool → List ℕ
point_bytes true = 0 ∷ 0 ∷ 192 ∷ 127 ∷ zeros
point_bytes false = 0 ∷ 0 ∷ 128 ∷ 63 ∷ zeros

-- `_cloud`; the point's x is NaN or 1.0
unfoldable pub cloud_message : ℤ → Bool → Bool → Bool → String → PointCloud2
unfolding time_of
cloud_message nanoseconds malformed empty nan frame =
    let width = if empty then 0 else 1 in
    let point_step = if malformed then 0 else 12 in
    record {
      header = record { stamp = time_of nanoseconds; frame_id = frame };
      height = 1;
      width = width;
      fields = xyz_fields;
      is_bigendian = false;
      point_step = point_step;
      row_step = width * point_step;
      bytes = if empty || malformed then [] else point_bytes nan;
      is_dense = not nan;
    }

abbrev sound_cloud : ℤ → Output
sound_cloud at = cloud (cloud_message at false false false "utlidar_lidar")

-- the cloud that is published as the input of a fault
unfoldable pub fault_cloud : FaultKind → ℤ → PointCloud2
unfolding cloud_message
fault_cloud malformed_layout at = cloud_message at true false false "utlidar_lidar"
fault_cloud empty_cloud at = cloud_message at false true false "utlidar_lidar"
fault_cloud nan_cloud at = cloud_message at false false true "utlidar_lidar"
fault_cloud stale_cloud at = cloud_message (pos 1) false false false "utlidar_lidar"
fault_cloud tf_loss at = cloud_message at false false false "missing_lidar"
fault_cloud _ at = cloud_message at false false false "utlidar_lidar"

-- what `_publish_fault_input` publishes, in its order
unfoldable pub fault_input : FaultKind → ℤ → List Output
unfolding fault_cloud
fault_input odom_regression at =
    cloud (fault_cloud odom_regression at) ∷ odometry (baseline_clock -ℤ pos 1) 0 ∷ []
fault_input odom_jump at = cloud (fault_cloud odom_jump at) ∷ odometry at 5 ∷ []
fault_input odom_loss at = cloud (fault_cloud odom_loss at) ∷ []
fault_input process_exit at = []
fault_input launch_failure at = []
fault_input kind at = cloud (fault_cloud kind at) ∷ odometry at 0 ∷ []

abbrev when_some : ℕ → Output → List Output
when_some n output = if ltb 0 n then output ∷ [] else []

abbrev sound_input : FixtureEvent → List Output
sound_input e =
    when_some e.output_counts.validated_cloud (sound_cloud e.clock_nanoseconds)
    ++ when_some e.output_counts.odom (odometry e.clock_nanoseconds 0)

-- `_publish_inputs`
unfoldable pub inputs_of : FaultKind → FixtureEvent → List Output
unfolding fault_input
inputs_of kind e = elim e.phase [
  | suppressed ↦ fault_input kind e.clock_nanoseconds
  | _ ↦ sound_input e
]

-- add to the list what was published, in its order
abbrev publish : List Output → FixtureNode → FixtureNode
publish [] n = n
publish (o ∷ os) n = publish os (record n { published = o ∷ n.published })

abbrev exit_code_after : FixturePhase → FixtureNode → ℕ
exit_code_after owned_child_exit n = expected_child_exit_code n.scenario.fault_kind
exit_code_after _ n = n.exit_code

-- the end of `_tick`: the last event ends the run, and another goes on to the next
abbrev advance : List FixtureEvent → FixtureNode → FixtureNode
advance [] n = record n { done = true }
advance (next ∷ rest) n = record n { remaining = next ∷ rest }

unfoldable pub emit : FixtureEvent → List FixtureEvent → FixtureNode → FixtureNode
unfolding expected_child_exit_code inputs_of
emit e rest n =
    let outputs =
      clock e.clock_nanoseconds ∷ inputs_of n.scenario.fault_kind e ++ (declared e ∷ []) in
    let sent = publish outputs (record n { current_clock_nanoseconds = e.clock_nanoseconds }) in
    advance rest (record sent { exit_code = exit_code_after e.phase n })

abbrev move_clock : ℤ → List Output → FixtureNode → FixtureNode
move_clock at outputs n = publish (clock at ∷ outputs) (record n { current_clock_nanoseconds = at })

-- `_tick`, where an event is left
unfoldable pub tick_event : FixtureEvent → List FixtureEvent → FixtureNode → FixtureNode
unfolding emit
tick_event e rest n =
    let next_clock = n.current_clock_nanoseconds +ℤ tick_nanoseconds in
    let seed = e.clock_nanoseconds -ℤ pos 1 in
    if ltb_ℤ next_clock e.clock_nanoseconds
    then move_clock next_clock [] n
    else if is_recovered e.phase
        && is_odometry_fault n.scenario.fault_kind
        && ltb_ℤ n.current_clock_nanoseconds seed
    then move_clock seed (odometry seed 0 ∷ []) n
    else emit e rest n

-- without an event left the run is done, so the index stays in range
abbrev tick_remaining : List FixtureEvent → FixtureNode → FixtureNode
tick_remaining [] n = n
tick_remaining (e ∷ rest) n = tick_event e rest n

unfoldable pub tick : FixtureNode → FixtureNode
unfolding tick_event
tick n = let after = tick_remaining n.remaining n in if n.done then n else after

-- the timer fires a number of times
unfoldable pub ticks : ℕ → FixtureNode → FixtureNode
unfolding tick
ticks zero n = n
ticks (suc k) n = ticks k (tick n)
