-- ===== src/Validation/FaultCapture.antt =====
-- src/go2_validation/go2_validation/fault_runtime_capture.py: the events that the fixture declares are
-- read from their JSON, and joined with the stamps of the outputs that were seen. The JSON codec of
-- the standard library is a parameter; `none` is a `JSONDecodeError`.
pub mod RoundTrip
use go2_local_navigation.Prelude.{
  ℕ, String, Bool, true, false, ◌&&◌, Option, none, some, List, [], ◌∷◌, map, any, Result, ok, err,
  ◌>>=◌, if◌then◌else◌,
}
use go2_local_navigation.Prelude.Int.{ℤ, pos, leb_ℤ, ◌+ℤ◌}
use go2_local_navigation.Prelude.Text.{str_eq}
use go2_local_navigation.Prelude.Document.{YamlValue, null, integer, text, mapping, get}
use go2_local_navigation.Validation.FaultFixture.{
  FixturePhase, baseline, suppressed, recovered, owned_child_exit, FixtureEvent,
}

pub record FixtureEventMarker : Type 0 where
  pub phase : FixturePhase
  pub clock_nanoseconds : ℤ
  pub reason_code : Option String
  pub child_exit_code : Option ℤ

pub record StreamStampObservation : Type 0 where
  pub validated_cloud : List ℤ
  pub scan : List ℤ
  pub odom : List ℤ
  pub tf : List ℤ

pub data FixtureEventParseError : Type 0 where
  json_invalid root_invalid phase_invalid phase_unknown : FixtureEventParseError
  clock_invalid reason_invalid exit_invalid : FixtureEventParseError

unfoldable pub phase_text : FixturePhase → String
phase_text baseline = "baseline"
phase_text suppressed = "suppressed"
phase_text recovered = "recovered"
phase_text owned_child_exit = "owned_child_exit"

-- `FixturePhase(value)`
unfoldable pub phase_named : String → Option FixturePhase
phase_named s =
    if str_eq s "baseline"
    then some baseline
    else if str_eq s "suppressed"
    then some suppressed
    else if str_eq s "recovered"
    then some recovered
    else if str_eq s "owned_child_exit"
    then some owned_child_exit
    else none

abbrev known_phase : Option FixturePhase → Result FixtureEventParseError FixturePhase
known_phase none = err phase_unknown
known_phase (some phase) = ok phase

module _ {F : Type 0} where
  abbrev pub phase_of : YamlValue F → Result FixtureEventParseError FixturePhase
  phase_of (text s) = known_phase (phase_named s)
  phase_of _ = err phase_invalid

  -- a bool is refused, as the document keeps it apart from an int
  abbrev pub clock_of : YamlValue F → Result FixtureEventParseError ℤ
  clock_of (integer n) = ok n
  clock_of _ = err clock_invalid

  abbrev pub reason_of : YamlValue F → Result FixtureEventParseError (Option String)
  reason_of null = ok none
  reason_of (text s) = ok (some s)
  reason_of _ = err reason_invalid

  abbrev pub exit_of : YamlValue F → Result FixtureEventParseError (Option ℤ)
  exit_of null = ok none
  exit_of (integer n) = ok (some n)
  exit_of _ = err exit_invalid

  unfoldable pub marker_of : YamlValue F → Result FixtureEventParseError FixtureEventMarker
  unfolding phase_named
  marker_of (mapping es) = phase_of (get "phase" es) >>= λ phase.
      clock_of (get "clock_nanoseconds" es) >>= λ clock.
      reason_of (get "reason_code" es) >>= λ reason.
      exit_of (get "child_exit_code" es) >>= λ exit_code. ok (record {
        phase = phase;
        clock_nanoseconds = clock;
        reason_code = reason;
        child_exit_code = exit_code;
      })
  marker_of _ = err root_invalid

  abbrev read_event : Option (YamlValue F) → Result FixtureEventParseError FixtureEventMarker
  read_event none = err json_invalid
  read_event (some document) = marker_of document

  unfoldable pub parse_fixture_event :
      (List ℕ → Option (YamlValue F)) → List ℕ → Result FixtureEventParseError FixtureEventMarker
  parse_fixture_event loads payload = read_event (loads payload)

abbrev pub is_near : ℤ → ℤ → Bool
is_near clock stamp = leb_ℤ clock stamp && leb_ℤ stamp (clock +ℤ pos 1)

-- `int(any(clock <= stamp <= clock + 1 for stamp in stamps))`
unfoldable pub seen : FixtureEventMarker → List ℤ → ℕ
seen marker stamps = if any (is_near marker.clock_nanoseconds) stamps then 1 else 0

unfoldable pub correlated : StreamStampObservation → FixtureEventMarker → FixtureEvent
correlated streams marker = record {
  phase = marker.phase;
  clock_nanoseconds = marker.clock_nanoseconds;
  output_counts = record {
    validated_cloud = seen marker streams.validated_cloud;
    scan = seen marker streams.scan;
    odom = seen marker streams.odom;
    tf = seen marker streams.tf;
  };
  reason_code = marker.reason_code;
  child_exit_code = marker.child_exit_code;
}

unfoldable pub correlate_fixture_events :
    List FixtureEventMarker → StreamStampObservation → List FixtureEvent
unfolding correlated
correlate_fixture_events markers streams = map (correlated streams) markers
