-- ===== src/Validation/FaultCapture/RoundTrip.antt =====
-- `_event_json` of src/go2_validation/go2_validation/fault_fixture_node.py, and reading it back.
use go2_local_navigation.Prelude.{ℕ, ◌≡◌, refl, String, Option, none, some, List, ok}
use go2_local_navigation.Prelude.Int.{ℤ}
use go2_local_navigation.Prelude.Document.{
  YamlValue, null, integer, text, mapping, entry, no_entries,
}
use go2_local_navigation.Validation.FaultFixture.{
  FixturePhase, baseline, suppressed, recovered, owned_child_exit, FixtureEvent,
}
use go2_local_navigation.Validation.FaultCapture.{
  FixtureEventMarker, phase_text, phase_named, reason_of, exit_of, marker_of, parse_fixture_event,
}

abbrev optional_text : {F : Type 0} → Option String → YamlValue F
optional_text none = null
optional_text (some s) = text s

abbrev optional_integer : {F : Type 0} → Option ℤ → YamlValue F
optional_integer none = null
optional_integer (some n) = integer n

unfoldable pub event_document : {F : Type 0} → FixtureEvent → YamlValue F
event_document e = mapping (
    entry (text "phase") (text (phase_text e.phase)) (
      entry (text "clock_nanoseconds") (integer e.clock_nanoseconds) (
        entry (text "reason_code") (optional_text e.reason_code)
          (entry (text "child_exit_code") (optional_integer e.child_exit_code) no_entries))))

unfoldable pub event_json : {F : Type 0} → (YamlValue F → List ℕ) → FixtureEvent → List ℕ
event_json dumps e = dumps (event_document e)

-- What an event says without its outputs.
abbrev pub marker_for : FixtureEvent → FixtureEventMarker
marker_for e = record {
  phase = e.phase;
  clock_nanoseconds = e.clock_nanoseconds;
  reason_code = e.reason_code;
  child_exit_code = e.child_exit_code;
}

phase_named-phase_text : (phase : FixturePhase) → phase_named (phase_text phase) ≡ some phase
unfolding phase_named phase_text
phase_named-phase_text baseline = refl
phase_named-phase_text suppressed = refl
phase_named-phase_text recovered = refl
phase_named-phase_text owned_child_exit = refl

reason_of-optional_text :
    (F : Type 0) (reason : Option String) → reason_of (optional_text {F = F} reason) ≡ ok reason
reason_of-optional_text F none = refl
reason_of-optional_text F (some s) = refl

exit_of-optional_integer :
    (F : Type 0) (code : Option ℤ) → exit_of (optional_integer {F = F} code) ≡ ok code
exit_of-optional_integer F none = refl
exit_of-optional_integer F (some n) = refl

marker_of-event_document :
    (F : Type 0) (e : FixtureEvent) → marker_of (event_document {F = F} e) ≡ ok (marker_for e)
unfolding marker_of event_document
marker_of-event_document F e = rw (phase_named-phase_text e.phase) (
    rw (reason_of-optional_text F e.reason_code)
      (rw (exit_of-optional_integer F e.child_exit_code) refl))

-- The observer reads every event that the fixture publishes as the marker with its phase, clock,
-- reason and exit code, if the JSON codec reads back the document that it wrote.
pub parse-event_json :
    {F : Type 0} (dumps : YamlValue F → List ℕ) (loads : List ℕ → Option (YamlValue F))
    (e : FixtureEvent)
    → loads (dumps (event_document e)) ≡ some (event_document e)
    → parse_fixture_event loads (event_json dumps e) ≡ ok (marker_for e)
unfolding parse_fixture_event event_json
parse-event_json dumps loads e codec = rw codec (marker_of-event_document _ e)
