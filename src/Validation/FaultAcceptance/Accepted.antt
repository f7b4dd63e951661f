-- ===== src/Validation/FaultAcceptance/Accepted.antt =====
-- What a fault scenario that passes shows.
use go2_local_navigation.Prelude.{
  not-false, ◌≡◌, refl, ap, String, Bool, true, false, not, Option, none, some, List, [], ◌∷◌, ◌==◌,
  if◌then◌else◌, arith,
}
use go2_local_navigation.Prelude.Int.{ℤ, pos, leb_ℤ, eqb_ℤ, ◌-ℤ◌, ◌<ℤ◌, eq_of_parts}
use go2_local_navigation.Prelude.Text.{str_eq_iff}
use go2_local_navigation.Validation.FaultFixture.{
  FaultKind, malformed_layout, empty_cloud, nan_cloud, stale_cloud, tf_loss, odom_regression,
  odom_jump, odom_loss, process_exit, launch_failure, suppressed, recovered, owned_child_exit,
  FixtureEvent, captured_streams, expected_child_exit_code,
}
use go2_local_navigation.Validation.FaultAcceptance.{
  FaultExpectation, AttemptOutcome, FaultAcceptanceResult, common_failure, event_of, total,
  required_streams, failed, evaluate_recovery, evaluate_restart, evaluate_kind,
  evaluate_launch_failure, evaluate_fault_acceptance, names_eq, passed_with, code_is, reason_is,
  exit_missing, verdict_after, evaluate_exit, evaluate_suppression,
}

-- Nothing is left over, and nothing could have moved the robot.
pub record IsSafe (o : AttemptOutcome) : Type 0 where
  pub no_owner : o.global_tf_owner_count ≡ 0
  pub no_nodes : o.residual_nodes ≡ []
  pub no_processes : o.residual_processes ≡ []
  pub no_requests : o.sport_request_publishers ≡ 0
  pub no_lowcmd : o.lowcmd_publishers ≡ 0
  pub gate_closed : o.output_enabled ≡ false
  pub not_approved : o.physical_validation_approved ≡ false

common_failure-IsSafe : (o : AttemptOutcome) → common_failure o ≡ none → IsSafe o
unfolding common_failure
common_failure-IsSafe o h = ground arith

-- The suppression names the reason, and all outputs are back before the deadline.
pub record Recovers (e : FaultExpectation) (o : AttemptOutcome) : Type 0 where
  pub stop : FixtureEvent
  pub back : FixtureEvent
  pub stop_event : event_of o.events suppressed ≡ some stop
  pub reason : stop.reason_code ≡ some e.reason_code
  pub back_event : event_of o.events recovered ≡ some back
  pub streams : captured_streams back.output_counts ≡ required_streams
  pub in_time :
      (back.clock_nanoseconds -ℤ stop.clock_nanoseconds) <ℤ e.recovery_deadline_nanoseconds

names_eq-equal : (s t : List String) → names_eq s t ≡ true → s ≡ t
names_eq-equal [] [] h = refl
names_eq-equal [] (b ∷ t) h = cc
names_eq-equal (a ∷ s) [] h = cc
names_eq-equal (a ∷ s) (b ∷ t) h = ground (arith, str_eq_iff a b, names_eq-equal s t)

-- A test whose failure is reported did not fail in a run that passed.
guard_passed :
    (test : Bool) (e : FaultExpectation) (reason : String) (y : FaultAcceptanceResult)
    → (if test then failed e reason else y).passed ≡ true
    → (test ≡ false) × (y.passed ≡ true)
guard_passed true e reason y h = cc
guard_passed false e reason y h = (refl, h)

code_equal : (a b : ℤ) → eqb_ℤ a b ≡ true → a ≡ b
code_equal a b h = ground (arith, eq_of_parts a b)

code_is-some : (c : Option ℤ) (code : ℤ) → code_is c code ≡ true → c ≡ some code
code_is-some none code h = cc
code_is-some (some c) code h = ap some (code_equal c code h)

reason_is-some : (r : Option String) (reason : String) → reason_is r reason ≡ true → r ≡ some reason
reason_is-some none reason h = cc
reason_is-some (some r) reason h = ap some ((str_eq_iff r reason).0 h)

recovery_passed :
    (e : FaultExpectation) (stop : FixtureEvent) (found : Option FixtureEvent)
    → (evaluate_recovery e stop found).passed ≡ true
    → (back : FixtureEvent) × (found ≡ some back)
      × (captured_streams back.output_counts ≡ required_streams)
      × ((back.clock_nanoseconds -ℤ stop.clock_nanoseconds) <ℤ e.recovery_deadline_nanoseconds)
unfolding evaluate_recovery
recovery_passed e stop none h = cc
recovery_passed e stop (some back) h =
    let elapsed = back.clock_nanoseconds -ℤ stop.clock_nanoseconds in
    let streams = captured_streams back.output_counts in
    let (same, in_time) =
      go (not (names_eq streams required_streams)) (leb_ℤ e.recovery_deadline_nanoseconds elapsed)
        (passed_with e false required_streams (some elapsed)) h in
    (back, refl, names_eq-equal _ _ (not-false _ same), ground (arith, in_time))
  where
    go :
        (a b : Bool) (y : FaultAcceptanceResult)
        → (if a
            then failed e "recovery_output_missing"
            else if b
            then failed e "recovery_deadline_exceeded"
            else y).passed
          ≡ true
        → (a ≡ false) × (b ≡ false)
    go true b y k = cc
    go false true y k = cc
    go false false y k = (refl, refl)

suppression-Recovers :
    (e : FaultExpectation) (o : AttemptOutcome) (stop : FixtureEvent)
    → event_of o.events suppressed ≡ some stop
    → reason_is stop.reason_code e.reason_code ≡ true
    → (evaluate_recovery e stop (event_of o.events recovered)).passed ≡ true
    → Recovers e o
suppression-Recovers e o stop found reason h =
    let (back, there, streams, in_time) = recovery_passed e stop (event_of o.events recovered) h in
    record {
      stop = stop;
      back = back;
      stop_event = found;
      reason = reason_is-some _ _ reason;
      back_event = there;
      streams = streams;
      in_time = in_time;
    }

-- How the child ends: it fails as it should, it is restarted after it exits, or it goes on.
abbrev pub Lifecycle : FaultKind → FaultExpectation → AttemptOutcome → Type 0
Lifecycle launch_failure e o = o.first_exit_code ≡ pos (expected_child_exit_code e.fault_kind)
Lifecycle process_exit e o =
    (o.first_exit_code ≡ pos (expected_child_exit_code e.fault_kind))
    × (o.restart_exit_code ≡ some (pos 0))
    × Recovers e o
Lifecycle _ e o = (o.first_exit_code ≡ pos 0) × Recovers e o

restart_passed :
    (e : FaultExpectation) (o : AttemptOutcome) (stop : FixtureEvent)
    → event_of o.events suppressed ≡ some stop
    → reason_is stop.reason_code e.reason_code ≡ true
    → (evaluate_restart e o stop).passed ≡ true
    → Lifecycle process_exit e o
unfolding evaluate_restart
restart_passed e o stop found reason h =
    let code = pos (expected_child_exit_code e.fault_kind) in
    let ends = evaluate_recovery e stop (event_of o.events recovered) in
    let restarted = code_is o.restart_exit_code (pos 0) in
    let third = if not restarted then failed e "owned_process_restart_failed" else ends in
    let second =
      if not (eqb_ℤ o.first_exit_code code)
      then failed e "owned_process_exit_oracle_mismatch"
      else third in
    let (_, h1) =
      guard_passed (exit_missing code (event_of o.events owned_child_exit)) e
        "owned_process_exit_missing" second h in
    let (first, h2) =
      guard_passed (not (eqb_ℤ o.first_exit_code code)) e "owned_process_exit_oracle_mismatch" third
        h1 in
    let (again, h3) = guard_passed (not restarted) e "owned_process_restart_failed" ends h2 in
    (
      code_equal _ _ (not-false _ first),
      code_is-some _ _ (not-false _ again),
      suppression-Recovers e o stop found reason h3,
    )

exit_passed :
    (e : FaultExpectation) (o : AttemptOutcome) (found : Option FixtureEvent)
    → event_of o.events suppressed ≡ found
    → (evaluate_exit e o found).passed ≡ true
    → Lifecycle process_exit e o
exit_passed e o none f h = cc
exit_passed e o (some stop) f h = go (reason_is stop.reason_code e.reason_code) refl h
  where
    go :
        (b : Bool)
        → reason_is stop.reason_code e.reason_code ≡ b
        → (if b then evaluate_restart e o stop else failed e "fault_reason_mismatch").passed ≡ true
        → Lifecycle process_exit e o
    go true r k = restart_passed e o stop f r k
    go false r k = cc

goes_on_passed :
    (e : FaultExpectation) (o : AttemptOutcome) (found : Option FixtureEvent)
    → event_of o.events suppressed ≡ found
    → (if not (eqb_ℤ o.first_exit_code (pos 0))
        then failed e "unexpected_child_exit"
        else evaluate_suppression e o found).passed
      ≡ true
    → (o.first_exit_code ≡ pos 0) × Recovers e o
goes_on_passed e o found f h =
    let (first, h1) =
      guard_passed (not (eqb_ℤ o.first_exit_code (pos 0))) e "unexpected_child_exit"
        (evaluate_suppression e o found) h in
    (code_equal _ _ (not-false _ first), go found f h1)
  where
    go :
        (found : Option FixtureEvent)
        → event_of o.events suppressed ≡ found
        → (evaluate_suppression e o found).passed ≡ true
        → Recovers e o
    go none f h = cc
    go (some stop) f h =
        let ends = evaluate_recovery e stop (event_of o.events recovered) in
        let second =
          if total stop.output_counts == 4 then failed e "suppression_missing" else ends in
        let (reason, h1) =
          guard_passed (not (reason_is stop.reason_code e.reason_code)) e "fault_reason_mismatch"
            second h in
        let (_, h2) =
          guard_passed (total stop.output_counts == 4) e "suppression_missing" ends h1 in
        suppression-Recovers e o stop f (not-false _ reason) h2

launch_failure_passed :
    (e : FaultExpectation) (o : AttemptOutcome)
    → (evaluate_launch_failure e o).passed ≡ true
    → o.first_exit_code ≡ pos (expected_child_exit_code e.fault_kind)
unfolding evaluate_launch_failure
launch_failure_passed e o h =
    go (eqb_ℤ o.first_exit_code (pos (expected_child_exit_code e.fault_kind))) (code_equal _ _) h
  where
    go :
        (same : Bool) {P : Type 0}
        → (same ≡ true → P)
        → (if not same
            then failed e "launch_failure_oracle_mismatch"
            else passed_with e true [] none).passed
          ≡ true
        → P
    go true f k = f refl
    go false f k = cc

kind_passed :
    (kind : FaultKind) (e : FaultExpectation) (o : AttemptOutcome)
    → (evaluate_kind kind e o).passed ≡ true
    → Lifecycle kind e o
unfolding evaluate_kind evaluate_launch_failure
kind_passed launch_failure e o h = launch_failure_passed e o h
kind_passed process_exit e o h = exit_passed e o (event_of o.events suppressed) refl h
kind_passed malformed_layout e o h = goes_on_passed e o (event_of o.events suppressed) refl h
kind_passed empty_cloud e o h = goes_on_passed e o (event_of o.events suppressed) refl h
kind_passed nan_cloud e o h = goes_on_passed e o (event_of o.events suppressed) refl h
kind_passed stale_cloud e o h = goes_on_passed e o (event_of o.events suppressed) refl h
kind_passed tf_loss e o h = goes_on_passed e o (event_of o.events suppressed) refl h
kind_passed odom_regression e o h = goes_on_passed e o (event_of o.events suppressed) refl h
kind_passed odom_jump e o h = goes_on_passed e o (event_of o.events suppressed) refl h
kind_passed odom_loss e o h = goes_on_passed e o (event_of o.events suppressed) refl h

-- A fault scenario passes only if no global TF owner, node or process is left, no command publisher
-- was seen and the motion gate stayed closed; and if the child failed to launch with the expected
-- code, or the suppression named the reason and all four outputs were back before the deadline,
-- with the exit codes that the kind of fault calls for.
pub evaluate_fault_acceptance-IsSafe :
    (e : FaultExpectation) (o : AttemptOutcome)
    → (evaluate_fault_acceptance e o).passed ≡ true
    → IsSafe o × Lifecycle e.fault_kind e o
unfolding evaluate_fault_acceptance
evaluate_fault_acceptance-IsSafe e o h = go (common_failure o) refl h
  where
    go :
        (found : Option String)
        → common_failure o ≡ found
        → (verdict_after found e o).passed ≡ true
        → IsSafe o × Lifecycle e.fault_kind e o
    go (some reason) f h = cc
    go none f h = (common_failure-IsSafe o f, kind_passed e.fault_kind e o h)
