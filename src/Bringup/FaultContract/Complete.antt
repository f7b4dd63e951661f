-- ===== src/Bringup/FaultContract/Complete.antt =====
-- What the loaded fault scenarios are.
use go2_local_navigation.Prelude.{
  not-false, skip_check, ℕ, ◌≡◌, ◌≢◌, ◌≤◌, refl, String, Bool, true, false, not, List, [], ◌∷◌,
  is_empty, All, ok, err, ok-injective, bind-returns, arith, if◌then◌else◌,
}
use mathlib.Core.Path.{subst}
use go2_local_navigation.Prelude.Text.{elem_str, str_eq, str_eq_iff}
use go2_local_navigation.Prelude.Document.{
  YamlValue, null, boolean, integer, number, text, sequence, mapping, Values, no_values, value,
  Entries, get,
}
use go2_local_navigation.Bringup.FaultContract.{
  FaultScenario, FaultConfigurationError, known_reasons, known_fault_kinds, known_terminal_statuses,
  parse_scenario, parse_rows, load_fault_scenarios, has_id, ids_unique, unique_or_err, scenarios_of,
  duplicate_scenario_id, raise_if, deadline_of, outputs_of, required_string,
}

pub record IsComplete (s : FaultScenario) : Type 0 where
  pub reason : elem_str s.reason_code known_reasons ≡ true
  pub kind : elem_str s.fault_kind known_fault_kinds ≡ true
  pub status : elem_str s.terminal_status known_terminal_statuses ≡ true
  pub outputs : is_empty s.suppressed_outputs ≡ false
  pub deadline : 1 ≤ s.recovery_deadline_seconds
  pub trigger : str_eq s.recovery_trigger "" ≡ false

module _ {F : Type 0} where
  deadline_of-positive : (v : YamlValue F) {n : ℕ} → deadline_of v ≡ ok n → 1 ≤ n
  unfolding deadline_of
  deadline_of-positive v h = ground arith

raise_if-passed :
    (b : Bool) (e : FaultConfigurationError) {u : Unit {0}} → raise_if b e ≡ ok u → b ≡ false
raise_if-passed false e h = refl
raise_if-passed true e h = cc

module _ {F : Type 0} where
  parse_scenario-IsComplete :
      (raw : Entries F) {s : FaultScenario} → parse_scenario raw ≡ ok s → IsComplete s
  unfolding parse_scenario
  parse_scenario-IsComplete raw {s} h =
      let h1 = skip_check _ (skip_check _ h) in
      let (outputs, h2, _) = bind-returns (outputs_of (get "suppressed_outputs" raw)) _ h1 in
      let (id, h3, _) = bind-returns (required_string raw "id") _ h2 in
      let (reason, h4, _) = bind-returns (required_string raw "reason_code") _ h3 in
      let (kind, h5, _) = bind-returns (required_string raw "fault_kind") _ h4 in
      let (trigger, h6, _) = bind-returns (required_string raw "recovery_trigger") _ h5 in
      let (status, h7, _) = bind-returns (required_string raw "terminal_status") _ h6 in
      let (_, h8, o) = bind-returns (raise_if (is_empty outputs) _) _ h7 in
      let (deadline, h9, d) = bind-returns (deadline_of _) _ h8 in
      let (_, h10, r) = bind-returns (raise_if (not (elem_str reason known_reasons)) _) _ h9 in
      let (_, h11, k) = bind-returns (raise_if (not (elem_str kind known_fault_kinds)) _) _ h10 in
      let (_, h12, t) = bind-returns (raise_if (str_eq trigger "") _) _ h11 in
      let (_, h13, u) =
        bind-returns (raise_if (not (elem_str status known_terminal_statuses)) _) _ h12 in
      subst IsComplete (ok-injective h13) (record {
        reason = not-false _ (raise_if-passed _ _ r);
        kind = not-false _ (raise_if-passed _ _ k);
        status = not-false _ (raise_if-passed _ _ u);
        outputs = raise_if-passed _ _ o;
        deadline = deadline_of-positive _ d;
        trigger = raise_if-passed _ _ t;
      })

  parse_rows-IsComplete :
      (rows : Values F) {ss : List FaultScenario} → parse_rows rows ≡ ok ss → All IsComplete ss
  unfolding parse_rows
  parse_rows-IsComplete no_values {ss} h = subst (All IsComplete) (ok-injective h) tt
  parse_rows-IsComplete (value (mapping raw) vs) {ss} h =
      let (s, h1, e) = bind-returns (parse_scenario raw) _ h in
      let (rest, h2, f) = bind-returns (parse_rows vs) _ h1 in
      subst (All IsComplete) (ok-injective h2)
        (parse_scenario-IsComplete raw e, parse_rows-IsComplete vs f)
  parse_rows-IsComplete (value null vs) h = cc
  parse_rows-IsComplete (value (boolean b) vs) h = cc
  parse_rows-IsComplete (value (integer n) vs) h = cc
  parse_rows-IsComplete (value (number x) vs) h = cc
  parse_rows-IsComplete (value (text s) vs) h = cc
  parse_rows-IsComplete (value (sequence s) vs) h = cc

-- The names of the scenarios, of which no two are the same.
abbrev pub Distinct : List FaultScenario → Type 0
Distinct [] = Unit
Distinct (s ∷ ss) = All (λ (t : FaultScenario). t.scenario_id ≢ s.scenario_id) ss × Distinct ss

has_id-differs :
    (name : String) (ss : List FaultScenario)
    → has_id name ss ≡ false
    → All (λ (t : FaultScenario). t.scenario_id ≢ name) ss
has_id-differs name [] h = tt
has_id-differs name (s ∷ ss) h =
    ground (arith, str_eq_iff name s.scenario_id, has_id-differs name ss)

ids_unique-Distinct : (ss : List FaultScenario) → ids_unique ss ≡ true → Distinct ss
ids_unique-Distinct [] h = tt
ids_unique-Distinct (s ∷ ss) h =
    ground (arith, has_id-differs s.scenario_id ss, ids_unique-Distinct ss)

unique_or_err-Distinct :
    (ss : List FaultScenario) {ts : List FaultScenario}
    → unique_or_err ss ≡ ok ts
    → (ss ≡ ts) × Distinct ss
unique_or_err-Distinct ss h = go (ids_unique ss) refl h
  where
    go :
        (b : Bool) {ts : List FaultScenario}
        → ids_unique ss ≡ b
        → (if b then ok ss else err duplicate_scenario_id) ≡ ok ts
        → (ss ≡ ts) × Distinct ss
    go true e h = (ok-injective h, ids_unique-Distinct ss e)
    go false e h = cc

module _ {F : Type 0} where
  scenarios_of-IsComplete :
      (v : YamlValue F) {ss : List FaultScenario}
      → scenarios_of v ≡ ok ss
      → All IsComplete ss × Distinct ss
  scenarios_of-IsComplete (sequence vs) {ss} h =
      let (rows, h1, e) = bind-returns (parse_rows vs) unique_or_err h in
      let (same, d) = unique_or_err-Distinct rows h1 in
      subst (λ ts. All IsComplete ts × Distinct ts) same (parse_rows-IsComplete vs e, d)
  scenarios_of-IsComplete null h = cc
  scenarios_of-IsComplete (boolean b) h = cc
  scenarios_of-IsComplete (integer n) h = cc
  scenarios_of-IsComplete (number x) h = cc
  scenarios_of-IsComplete (text s) h = cc
  scenarios_of-IsComplete (mapping es) h = cc

  -- Every scenario that is loaded has a known reason, fault kind and terminal status, outputs that it
  -- suppresses, a recovery trigger and a deadline of a second or more, and no two have one identifier.
  pub load_fault_scenarios-IsComplete :
      (document : YamlValue F) (ss : List FaultScenario)
      → load_fault_scenarios document ≡ ok ss
      → All IsComplete ss × Distinct ss
  unfolding load_fault_scenarios
  load_fault_scenarios-IsComplete (mapping es) ss h = scenarios_of-IsComplete (get "scenarios" es) h
  load_fault_scenarios-IsComplete null ss h = cc
  load_fault_scenarios-IsComplete (boolean b) ss h = cc
  load_fault_scenarios-IsComplete (integer n) ss h = cc
  load_fault_scenarios-IsComplete (number x) ss h = cc
  load_fault_scenarios-IsComplete (text s) ss h = cc
  load_fault_scenarios-IsComplete (sequence vs) ss h = cc
