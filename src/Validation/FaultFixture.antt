-- ===== src/Validation/FaultFixture.antt =====
-- src/go2_validation/go2_validation/fault_fixture_model.py: the timelines that the fault fixture
-- emits.
use go2_local_navigation.Prelude.{
  ℕ, ◌≡◌, ◌≢◌, ◌∙◌, refl, sym, String, Bool, true, false, Option, none, some, List, [], ◌∷◌, ◌++◌,
  Result, ok, err, ok-injective, ap, length, arith, when, ltb, if◌then◌else◌,
}
use go2_local_navigation.Prelude.Int.{ℤ, pos, ltb_ℤ, leb_ℤ, eqb_ℤ, ◌+ℤ◌, ◌≤ℤ◌, +ℤ_parts}

pub data FaultKind : Type 0 where
  malformed_layout empty_cloud nan_cloud stale_cloud tf_loss : FaultKind
  odom_regression odom_jump odom_loss process_exit launch_failure : FaultKind

pub data FixturePhase : Type 0 where
  baseline suppressed recovered owned_child_exit : FixturePhase

pub data FixtureConfigurationError : Type 0 where
  invalid_recovery_deadline recovery_deadline_exceeded : FixtureConfigurationError

pub record FaultScenario : Type 0 where
  pub scenario_id : String
  pub fault_kind : FaultKind
  pub reason_code : String
  pub recovery_deadline_nanoseconds : ℤ

pub record OutputCounts : Type 0 where
  pub validated_cloud : ℕ
  pub scan : ℕ
  pub odom : ℕ
  pub tf : ℕ

abbrev pub captured_streams : OutputCounts → List String
captured_streams c =
    when (ltb 0 c.validated_cloud) "validated_cloud"
    ++ when (ltb 0 c.scan) "scan"
    ++ when (ltb 0 c.odom) "odom"
    ++ when (ltb 0 c.tf) "tf"

pub record FixtureEvent : Type 0 where
  pub phase : FixturePhase
  pub clock_nanoseconds : ℤ
  pub output_counts : OutputCounts
  pub reason_code : Option String
  pub child_exit_code : Option ℤ

abbrev counts : ℕ → ℕ → ℕ → ℕ → OutputCounts
counts cloud scan odom tf = record { validated_cloud = cloud; scan = scan; odom = odom; tf = tf }

abbrev pub all_outputs : OutputCounts
all_outputs = counts 1 1 1 1

abbrev pub no_outputs : OutputCounts
no_outputs = counts 0 0 0 0

-- 10 s, and 100 ms after that
abbrev pub baseline_clock : ℤ
baseline_clock = pos 10000000000

abbrev pub suppressed_at : ℤ
suppressed_at = pos 10100000000

abbrev default_recovery_delay : ℤ
default_recovery_delay = pos 400000000

abbrev odometry_loss_recovery_delay : ℤ
odometry_loss_recovery_delay = pos 700000000

abbrev event : FixturePhase → ℤ → OutputCounts → Option String → FixtureEvent
event phase clock outputs reason = record {
  phase = phase;
  clock_nanoseconds = clock;
  output_counts = outputs;
  reason_code = reason;
  child_exit_code = none;
}

unfoldable pub suppressed_outputs : FaultKind → OutputCounts
suppressed_outputs tf_loss = counts 1 0 1 0
suppressed_outputs odom_regression = counts 1 1 0 0
suppressed_outputs odom_jump = counts 1 1 0 0
suppressed_outputs odom_loss = counts 1 1 0 0
suppressed_outputs process_exit = no_outputs
suppressed_outputs launch_failure = no_outputs
suppressed_outputs _ = counts 0 0 1 1

unfoldable pub process_exit_events : FaultScenario → List FixtureEvent
process_exit_events s =
    event baseline baseline_clock all_outputs none
    ∷ event suppressed suppressed_at no_outputs (some s.reason_code)
    ∷ record (event owned_child_exit suppressed_at no_outputs (some s.reason_code)) {
      child_exit_code = some (pos 75);
    }
    ∷ []

unfoldable pub recovering_events : FaultScenario → ℤ → List FixtureEvent
recovering_events s delay =
    event baseline baseline_clock all_outputs none
    ∷ event suppressed suppressed_at (suppressed_outputs s.fault_kind) (some s.reason_code)
    ∷ event recovered (suppressed_at +ℤ delay) all_outputs none
    ∷ []

-- `delay or DEFAULT`
abbrev or_default : ℤ → ℤ
or_default delay = if eqb_ℤ delay (pos 0) then default_recovery_delay else delay

abbrev pub chosen_delay : FaultKind → Option ℤ → ℤ
chosen_delay odom_loss none = odometry_loss_recovery_delay
chosen_delay _ none = default_recovery_delay
chosen_delay _ (some delay) = or_default delay

unfoldable pub events_of : FaultScenario → FaultKind → Bool → ℤ → List FixtureEvent
events_of s launch_failure restart_attempt delay = []
events_of s process_exit restart_attempt delay =
    if restart_attempt
    then event recovered (suppressed_at +ℤ odometry_loss_recovery_delay) all_outputs none ∷ []
    else process_exit_events s
events_of s _ restart_attempt delay = recovering_events s delay

unfoldable pub build_attempt_events :
    FaultScenario → Bool → Option ℤ → Result FixtureConfigurationError (List FixtureEvent)
build_attempt_events s restart_attempt recovery_delay =
    let delay = chosen_delay s.fault_kind recovery_delay in
    if leb_ℤ s.recovery_deadline_nanoseconds (pos 0)
    then err invalid_recovery_deadline
    else if ltb_ℤ s.recovery_deadline_nanoseconds delay
    then err recovery_deadline_exceeded
    else ok (events_of s s.fault_kind restart_attempt delay)

unfoldable pub expected_child_exit_code : FaultKind → ℕ
expected_child_exit_code launch_failure = 23
expected_child_exit_code process_exit = 75
expected_child_exit_code _ = 0

-- Faults from which the same child recovers.
abbrev pub recovers : FaultKind → Bool
recovers launch_failure = false
recovers process_exit = false
recovers _ = true

-- A baseline with all outputs, a suppression that names the reason and stops some output, and a
-- recovery of all of them within the deadline.
pub record IsRecovery (s : FaultScenario) (events : List FixtureEvent) : Type 0 where
  pub at : ℤ
  pub deadline : at ≤ℤ (suppressed_at +ℤ s.recovery_deadline_nanoseconds)
  pub timeline : events ≡ (
      event baseline baseline_clock all_outputs none
      ∷ event suppressed suppressed_at (suppressed_outputs s.fault_kind) (some s.reason_code)
      ∷ event recovered at all_outputs none
      ∷ [])
  pub stops : captured_streams (suppressed_outputs s.fault_kind) ≢ captured_streams all_outputs

pub events_of-recovering :
    (s : FaultScenario) (kind : FaultKind) (restart : Bool) (delay : ℤ)
    → recovers kind ≡ true
    → events_of s kind restart delay ≡ recovering_events s delay
unfolding events_of
events_of-recovering s kind restart delay h = ground arith

stops_output :
    (kind : FaultKind) → captured_streams (suppressed_outputs kind) ≢ captured_streams all_outputs
unfolding suppressed_outputs
stops_output kind h = ground (arith, ap length h)

within_deadline : (a d l : ℤ) → ltb_ℤ l d ≡ false → (a +ℤ d) ≤ℤ (a +ℤ l)
within_deadline a d l h = ground (arith, +ℤ_parts a d, +ℤ_parts a l)

pub accepted_delay :
    (s : FaultScenario) (restart : Bool) (delay : Option ℤ) (es : List FixtureEvent)
    → build_attempt_events s restart delay ≡ ok es
    → (ltb_ℤ s.recovery_deadline_nanoseconds (chosen_delay s.fault_kind delay) ≡ false)
      × (events_of s s.fault_kind restart (chosen_delay s.fault_kind delay) ≡ es)
unfolding build_attempt_events
accepted_delay s restart delay es h =
    go (leb_ℤ s.recovery_deadline_nanoseconds (pos 0))
      (ltb_ℤ s.recovery_deadline_nanoseconds (chosen_delay s.fault_kind delay)) h
  where
    go :
        (a b : Bool) {x y : List FixtureEvent}
        → (if a
            then err invalid_recovery_deadline
            else if b
            then err recovery_deadline_exceeded
            else ok x)
          ≡ ok y
        → (b ≡ false) × (x ≡ y)
    go true b e = cc
    go false true e = cc
    go false false e = (refl, ok-injective e)

-- If the fixture accepts a scenario of a fault from which the same child recovers, then its timeline
-- is a baseline with all outputs, a suppression that names the reason and stops some output, and a
-- recovery of all outputs no later than the deadline after the suppression.
pub build_attempt_events-IsRecovery :
    (s : FaultScenario) (restart : Bool) (delay : Option ℤ) (es : List FixtureEvent)
    → recovers s.fault_kind ≡ true
    → build_attempt_events s restart delay ≡ ok es
    → IsRecovery s es
build_attempt_events-IsRecovery s restart delay es r h =
    let d = chosen_delay s.fault_kind delay in
    let (late, e) = accepted_delay s restart delay es h in
    record {
      at = suppressed_at +ℤ d;
      deadline = within_deadline suppressed_at d s.recovery_deadline_nanoseconds late;
      timeline =
          sym e
          ∙ events_of-recovering s s.fault_kind restart d r
          ∙ (unfold recovering_events in refl);
      stops = stops_output s.fault_kind;
    }
