-- ===== src/Bringup/FaultContract.antt =====
-- src/bringup/bringup/fault_contract.py: the fault scenarios are read from the YAML document, which
-- is an argument. The details of `missing_fields` are the names in the order of `required`.
pub mod Complete
use go2_local_navigation.Prelude.{
  ℕ, zero, suc, String, Bool, true, false, not, ◌&&◌, ◌||◌, Option, none, some, List, [], ◌∷◌,
  is_empty, Result, ok, err, ◌>>=◌, ◌>>◌, if◌then◌else◌,
}
use go2_local_navigation.Prelude.Int.{ℤ, pos}
use go2_local_navigation.Prelude.Text.{str_eq, elem_str}
use go2_local_navigation.Prelude.Document.{
  YamlValue, integer, boolean, sequence, mapping, text, Values, no_values, value, Entries, get,
  has_key, nonempty_text,
}

abbrev pub known_reasons : List String
known_reasons =
    "MALFORMED_LAYOUT" ∷ "EMPTY_CLOUD" ∷ "NAN_CLOUD" ∷ "STALE_CLOUD" ∷ "TF_UNAVAILABLE"
    ∷ "TIMESTAMP_REGRESSION" ∷ "ODOMETRY_JUMP" ∷ "STALE_ODOMETRY" ∷ "PROCESS_EXIT"
    ∷ "LAUNCH_FAILURE" ∷ []

abbrev pub known_fault_kinds : List String
known_fault_kinds =
    "malformed_layout" ∷ "empty_cloud" ∷ "nan_cloud" ∷ "stale_cloud" ∷ "tf_loss" ∷ "odom_regression"
    ∷ "odom_jump" ∷ "odom_loss" ∷ "process_exit" ∷ "launch_failure" ∷ []

abbrev pub known_terminal_statuses : List String
known_terminal_statuses = "suppressed" ∷ "recovered" ∷ []

pub record FaultScenario : Type 0 where
  pub scenario_id : String
  pub fault_kind : String
  pub suppressed_outputs : List String
  pub reason_code : String
  pub recovery_trigger : String
  pub recovery_deadline_seconds : ℕ
  pub terminal_status : String

pub data FaultConfigurationError : Type 0 where
  missing_scenarios invalid_scenario_row duplicate_scenario_id : FaultConfigurationError
  missing_recovery_trigger invalid_suppressed_outputs : FaultConfigurationError
  empty_suppressed_outputs invalid_recovery_deadline unknown_reason_code : FaultConfigurationError
  unknown_fault_kind empty_recovery_trigger unknown_terminal_status : FaultConfigurationError
  missing_fields : List String → FaultConfigurationError
  invalid_string : String → FaultConfigurationError

abbrev required_fields : List String
required_fields =
    "id" ∷ "fault_kind" ∷ "suppressed_outputs" ∷ "reason_code" ∷ "recovery_trigger"
    ∷ "recovery_deadline_seconds" ∷ "terminal_status" ∷ []

-- `if failed: raise error`
abbrev pub raise_if {ℓ} : {E : Type ℓ} → Bool → E → Result E (Unit {0})
raise_if true error = err error
raise_if false error = ok tt

abbrev string_or : Option String → String → Result FaultConfigurationError String
string_or none field_name = err (invalid_string field_name)
string_or (some s) field_name = ok s

module _ {F : Type 0} where
  -- `required.difference(raw)`
  abbrev missing_of : List String → Entries F → List String
  missing_of [] raw = []
  missing_of (name ∷ names) raw =
      let rest = missing_of names raw in if has_key name raw then rest else name ∷ rest

  -- a list of strings that are not empty
  unfoldable pub output_names : Values F → Option (List String)
  output_names no_values = some []
  output_names (value v vs) = elim (nonempty_text v) [
    | none ↦ none
    | some s ↦ elim (output_names vs) [ none ↦ none | some rest ↦ some (s ∷ rest) ]
  ]

  unfoldable pub outputs_of : YamlValue F → Result FaultConfigurationError (List String)
  outputs_of (sequence vs) = elim (output_names vs) [
    | none ↦ err invalid_suppressed_outputs
    | some names ↦ ok names
  ]
  outputs_of _ = err invalid_suppressed_outputs

  unfoldable pub required_string : Entries F → String → Result FaultConfigurationError String
  required_string raw field_name = string_or (nonempty_text (get field_name raw)) field_name

  -- an int above 0; a bool is an int in Python, so `true` is 1
  unfoldable pub deadline_of : YamlValue F → Result FaultConfigurationError ℕ
  deadline_of (integer (pos (suc n))) = ok (suc n)
  deadline_of (boolean true) = ok 1
  deadline_of _ = err invalid_recovery_deadline

  unfoldable pub parse_scenario : Entries F → Result FaultConfigurationError FaultScenario
  parse_scenario raw =
      raise_if (not (has_key "recovery_trigger" raw)) missing_recovery_trigger
      >> (raise_if (not (is_empty (missing_of required_fields raw)))
            (missing_fields (missing_of required_fields raw))
          >> (outputs_of (get "suppressed_outputs" raw) >>= λ outputs.
              required_string raw "id" >>= λ scenario_id.
              required_string raw "reason_code" >>= λ reason.
              required_string raw "fault_kind" >>= λ fault_kind.
              required_string raw "recovery_trigger" >>= λ recovery_trigger.
              required_string raw "terminal_status" >>= λ terminal_status.
              raise_if (is_empty outputs) empty_suppressed_outputs >>= λ _.
              deadline_of (get "recovery_deadline_seconds" raw) >>= λ deadline.
              raise_if (not (elem_str reason known_reasons)) unknown_reason_code >>= λ _.
              raise_if (not (elem_str fault_kind known_fault_kinds)) unknown_fault_kind >>= λ _.
              raise_if (str_eq recovery_trigger "") empty_recovery_trigger >>= λ _.
              raise_if (not (elem_str terminal_status known_terminal_statuses))
                unknown_terminal_status
              >>= λ _. ok (record {
                scenario_id = scenario_id;
                fault_kind = fault_kind;
                suppressed_outputs = outputs;
                reason_code = reason;
                recovery_trigger = recovery_trigger;
                recovery_deadline_seconds = deadline;
                terminal_status = terminal_status;
              })))

  -- the loop over the rows
  unfoldable pub parse_rows : Values F → Result FaultConfigurationError (List FaultScenario)
  parse_rows no_values = ok []
  parse_rows (value (mapping raw) vs) =
      parse_scenario raw >>= λ scenario. parse_rows vs >>= λ rest. ok (scenario ∷ rest)
  parse_rows (value _ vs) = err invalid_scenario_row

abbrev pub has_id : String → List FaultScenario → Bool
has_id name [] = false
has_id name (s ∷ ss) = str_eq name s.scenario_id || has_id name ss

-- `len(set(identifiers)) == len(identifiers)`
abbrev pub ids_unique : List FaultScenario → Bool
ids_unique [] = true
ids_unique (s ∷ ss) = not (has_id s.scenario_id ss) && ids_unique ss

abbrev pub unique_or_err : List FaultScenario → Result FaultConfigurationError (List FaultScenario)
unique_or_err ss = if ids_unique ss then ok ss else err duplicate_scenario_id

module _ {F : Type 0} where
  abbrev pub scenarios_of : YamlValue F → Result FaultConfigurationError (List FaultScenario)
  scenarios_of (sequence vs) = parse_rows vs >>= unique_or_err
  scenarios_of _ = err missing_scenarios

  unfoldable pub load_fault_scenarios :
      YamlValue F → Result FaultConfigurationError (List FaultScenario)
  load_fault_scenarios (mapping es) = scenarios_of (get "scenarios" es)
  load_fault_scenarios _ = err missing_scenarios
