-- ===== src/Validation/FixtureNode/Ends.antt =====
-- How a run of the fixture ends.
use go2_local_navigation.Prelude.{
  ℕ, ◌≡◌, refl, String, Bool, true, false, none, List, [], ◌∷◌, ◌++◌, ok, ok-injective,
  bind-returns,
}
use mathlib.Core.Path.{subst}
use go2_local_navigation.Prelude.Int.{ℤ, ◌+ℤ◌, ◌-ℤ◌}
use go2_local_navigation.Validation.FaultFixture.{
  FaultKind, malformed_layout, empty_cloud, nan_cloud, stale_cloud, tf_loss, odom_regression,
  odom_jump, odom_loss, process_exit, launch_failure, FaultScenario, FixtureEvent, chosen_delay,
  events_of, recovering_events, process_exit_events, suppressed_outputs, build_attempt_events,
  expected_child_exit_code, accepted_delay,
}
use go2_local_navigation.Validation.FixtureNode.{
  Output, declared, FixtureNode, with_events, make_fixture, ticks, tick, tick_event, emit,
  inputs_of, fault_input, cloud_message, time_of,
}

-- The events that were published, in their order.
abbrev pub declared_of : List Output → List FixtureEvent
declared_of [] = []
declared_of (declared e ∷ os) = declared_of os ++ (e ∷ [])
declared_of (o ∷ os) = declared_of os

-- A child that is started again after its exit ends well.
abbrev pub final_exit_code : FaultKind → Bool → ℕ
final_exit_code process_exit true = 0
final_exit_code kind restart = expected_child_exit_code kind

abbrev pub max_ticks : ℕ
max_ticks = 40

abbrev pub IsEnded : FaultKind → Bool → List FixtureEvent → FixtureNode → Type 0
IsEnded kind restart es n =
    (n.done ≡ true) × (declared_of n.published ≡ es) × (n.exit_code ≡ final_exit_code kind restart)

plays :
    (name reason : String) (deadline : ℤ) (kind : FaultKind) (restart : Bool)
    → let s : FaultScenario = record {
      scenario_id = name;
      fault_kind = kind;
      reason_code = reason;
      recovery_deadline_nanoseconds = deadline;
    } in
      let es = events_of s kind restart (chosen_delay kind none) in
      IsEnded kind restart es (ticks max_ticks (with_events s restart es))
unfolding ticks tick tick_event emit inputs_of fault_input cloud_message time_of events_of
    recovering_events process_exit_events suppressed_outputs expected_child_exit_code ◌+ℤ◌ ◌-ℤ◌
plays name reason deadline malformed_layout false = (refl, refl, refl)
plays name reason deadline malformed_layout true = (refl, refl, refl)
plays name reason deadline empty_cloud false = (refl, refl, refl)
plays name reason deadline empty_cloud true = (refl, refl, refl)
plays name reason deadline nan_cloud false = (refl, refl, refl)
plays name reason deadline nan_cloud true = (refl, refl, refl)
plays name reason deadline stale_cloud false = (refl, refl, refl)
plays name reason deadline stale_cloud true = (refl, refl, refl)
plays name reason deadline tf_loss false = (refl, refl, refl)
plays name reason deadline tf_loss true = (refl, refl, refl)
plays name reason deadline odom_regression false = (refl, refl, refl)
plays name reason deadline odom_regression true = (refl, refl, refl)
plays name reason deadline odom_jump false = (refl, refl, refl)
plays name reason deadline odom_jump true = (refl, refl, refl)
plays name reason deadline odom_loss false = (refl, refl, refl)
plays name reason deadline odom_loss true = (refl, refl, refl)
plays name reason deadline process_exit false = (refl, refl, refl)
plays name reason deadline process_exit true = (refl, refl, refl)
plays name reason deadline launch_failure false = (refl, refl, refl)
plays name reason deadline launch_failure true = (refl, refl, refl)

-- Every timeline that the fixture accepts is played to its end within 40 ticks of its timer: the run
-- is then done, the events were published once each and in their order, and the exit code is the one
-- that the kind of fault calls for, or 0 for a child that is started again after its exit.
pub ticks_end :
    (s : FaultScenario) (restart : Bool) (n : FixtureNode)
    → make_fixture s restart ≡ ok n
    → (es : List FixtureEvent) × (build_attempt_events s restart none ≡ ok es)
      × IsEnded s.fault_kind restart es (ticks max_ticks n)
unfolding make_fixture
ticks_end s restart n h =
    let (es, made, built) = bind-returns (build_attempt_events s restart none) _ h in
    let (_, timeline) = accepted_delay s restart none es built in
    let ended : FixtureNode → Type 0 = λ n. IsEnded s.fault_kind restart es (ticks max_ticks n) in
    let played =
      subst (λ es. IsEnded s.fault_kind restart es (ticks max_ticks (with_events s restart es)))
        timeline
        (plays s.scenario_id s.reason_code s.recovery_deadline_nanoseconds s.fault_kind restart) in
    (es, built, subst ended (ok-injective made) played)
