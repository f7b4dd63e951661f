-- ===== src/Perception/ScanProfile.antt =====
-- src/go2_perception/go2_perception/mapping_scan_profiles.py: a scan projection profile is read from
-- the YAML document; `none` is a document that cannot be read. An integer that is too large for a
-- float is refused here, where `float` raises an OverflowError.
pub mod Closed
use go2_local_navigation.Prelude.{
  ℕ, zero, suc, String, Bool, true, false, not, ◌&&◌, ◌||◌, Option, none, some, Result, ok, err,
  ◌>>=◌, ◌>>◌, ◌==◌, if◌then◌else◌,
}
use go2_local_navigation.Prelude.Int.{ℤ, pos}
use go2_local_navigation.Prelude.Text.{str_eq}
use go2_local_navigation.Prelude.Float.{Float}
use go2_local_navigation.Prelude.Document.{
  YamlValue, null, boolean, integer, number, mapping, Entries, get, has_key, nonempty_text,
  positive_natural,
}

pub record MappingScanProfile (F : Type 0) : Type 0 where
  pub profile_id : String
  pub scope : String
  pub accumulator_enabled : Bool
  pub frame_limit : ℕ
  pub emit_every : ℕ
  pub input_qos_depth : ℕ
  pub retry_queue_capacity : ℕ
  pub accumulator_target_frame : String
  pub accumulator_output_topic : String
  pub converter_input_topic : String
  pub converter_min_height : Option F
  pub converter_queue_size : Option ℕ
  pub source_commit : Option String

-- `MappingScanProfileError`: its reason code and detail.
pub data ScanProfileError : Type 0 where
  registry_unreadable : ScanProfileError
  unknown_profile unknown_execution_mode unknown_scope : String → ScanProfileError
  external_replay_required single_frame_required emit_every_refused : ScanProfileError
  mapping_refused string_refused boolean_refused integer_refused numeric_refused :
      String → ScanProfileError

pub data ScanMode : Type 0 where
  onboard external_replay : ScanMode

unfoldable pub parse_execution_mode : String → Result ScanProfileError ScanMode
parse_execution_mode value =
    if str_eq value "onboard"
    then ok onboard
    else if str_eq value "external_replay"
    then ok external_replay
    else err (unknown_execution_mode value)

abbrev pub external_only : ScanMode → Result ScanProfileError (Unit {0})
external_only external_replay = ok tt
external_only onboard = err external_replay_required

unfoldable pub require_scope : String → ScanMode → Result ScanProfileError (Unit {0})
require_scope scope mode =
    if str_eq scope "onboard_and_replay_default"
    then ok tt
    else if str_eq scope "dimos_external_replay_only"
    then external_only mode
    else err (unknown_scope scope)

abbrev found {ℓ} : {A : Type ℓ} → Option A → ScanProfileError → Result ScanProfileError A
found none e = err e
found (some a) e = ok a

module _ {F : Type 0} where
  unfoldable pub required_entries : YamlValue F → String → Result ScanProfileError (Entries F)
  required_entries (mapping es) field_name = ok es
  required_entries _ field_name = err (mapping_refused field_name)

  unfoldable pub optional_entries :
      YamlValue F → String → Result ScanProfileError (Option (Entries F))
  optional_entries null field_name = ok none
  optional_entries (mapping es) field_name = ok (some es)
  optional_entries _ field_name = err (mapping_refused field_name)

  unfoldable pub required_text : YamlValue F → String → Result ScanProfileError String
  required_text v field_name = found (nonempty_text v) (string_refused field_name)

  unfoldable pub required_flag : YamlValue F → String → Result ScanProfileError Bool
  required_flag (boolean b) field_name = ok b
  required_flag _ field_name = err (boolean_refused field_name)

  unfoldable pub required_positive_integer : YamlValue F → String → Result ScanProfileError ℕ
  required_positive_integer v field_name = found (positive_natural v) (integer_refused field_name)

  abbrev pub known_profile : YamlValue F → String → Result ScanProfileError (YamlValue F)
  known_profile null profile_id = err (unknown_profile profile_id)
  known_profile v profile_id = ok v

  abbrev pub source_commit_of : Option (Entries F) → Result ScanProfileError (Option String)
  source_commit_of none = ok none
  source_commit_of (some source) =
      required_text (get "commit" source) "source_commit" >>= λ commit. ok (some commit)

  abbrev pub queue_size_of : Option (Entries F) → Result ScanProfileError (Option ℕ)
  queue_size_of none = ok none
  queue_size_of (some override) =
      if has_key "queue_size" override
      then (required_positive_integer (get "queue_size" override) "converter_queue_size" >>= λ n.
          ok (some n))
      else ok none

module _ {F : Type 0} ⦃fl : Float F⦄ where
  abbrev finite : F → String → Result ScanProfileError F
  finite x field_name = if fl.is_finite x then ok x else err (numeric_refused field_name)

  unfoldable pub required_finite_number : YamlValue F → String → Result ScanProfileError F
  required_finite_number (integer n) field_name = finite (fl.ratio n (pos 1)) field_name
  required_finite_number (number x) field_name = finite x field_name
  required_finite_number _ field_name = err (numeric_refused field_name)

  abbrev pub min_height_of : Option (Entries F) → Result ScanProfileError (Option F)
  min_height_of none = ok none
  min_height_of (some override) =
      if has_key "min_height" override
      then (required_finite_number (get "min_height" override) "converter_min_height" >>= λ x.
          ok (some x))
      else ok none

-- What is read first, and checked.
pub record Cadence : Type 0 where
  pub enabled : Bool
  pub frame_limit : ℕ
  pub emit_every : ℕ
  pub input_qos_depth : ℕ
  pub retry_queue_capacity : ℕ

-- A disabled accumulator takes one frame; one frame or the whole window is emitted at a time.
unfoldable pub check_cadence : Cadence → Result ScanProfileError Cadence
check_cadence c =
    if not c.enabled && not (c.frame_limit == 1)
    then err single_frame_required
    else if not (c.emit_every == 1) && not (c.emit_every == c.frame_limit)
    then err emit_every_refused
    else ok c

module _ {F : Type 0} where
  unfoldable pub read_cadence : Entries F → Result ScanProfileError Cadence
  unfolding required_flag required_positive_integer
  read_cadence accumulator = required_flag (get "enabled" accumulator) "enabled" >>= λ enabled.
      required_positive_integer (get "frame_limit" accumulator) "frame_limit" >>= λ frame_limit.
      required_positive_integer (get "emit_every" accumulator) "emit_every" >>= λ emit_every.
      required_positive_integer (get "input_qos_depth" accumulator) "input_qos_depth" >>= λ depth.
      required_positive_integer (get "retry_queue_capacity" accumulator) "retry_queue_capacity"
      >>= λ capacity. ok (record {
        enabled = enabled;
        frame_limit = frame_limit;
        emit_every = emit_every;
        input_qos_depth = depth;
        retry_queue_capacity = capacity;
      })

module _ {F : Type 0} ⦃fl : Float F⦄ where
  unfoldable pub read_profile :
      String → Entries F → ScanMode → Result ScanProfileError (MappingScanProfile F)
  unfolding require_scope read_cadence check_cadence optional_entries required_entries required_text
  read_profile profile_id profile mode = required_text (get "scope" profile) "scope" >>= λ scope.
      require_scope scope mode >>= λ _.
      required_entries (get "accumulator" profile) "accumulator" >>= λ accumulator.
      optional_entries (get "converter_override" profile) "converter_override" >>= λ override.
      optional_entries (get "source" profile) "source" >>= λ source.
      source_commit_of source >>= λ commit. read_cadence accumulator >>= λ read.
      check_cadence read >>= λ cadence. min_height_of override >>= λ min_height.
      queue_size_of override >>= λ queue_size.
      required_text (get "target_frame" accumulator) "target_frame" >>= λ target_frame.
      required_text (get "output_topic" accumulator) "output_topic" >>= λ output_topic.
      required_text (get "converter_input_topic" profile) "converter_input_topic" >>= λ input_topic.
      ok (record {
        profile_id = profile_id;
        scope = scope;
        accumulator_enabled = cadence.enabled;
        frame_limit = cadence.frame_limit;
        emit_every = cadence.emit_every;
        input_qos_depth = cadence.input_qos_depth;
        retry_queue_capacity = cadence.retry_queue_capacity;
        accumulator_target_frame = target_frame;
        accumulator_output_topic = output_topic;
        converter_input_topic = input_topic;
        converter_min_height = min_height;
        converter_queue_size = queue_size;
        source_commit = commit;
      })

  abbrev pub load_from :
      YamlValue F → String → ScanMode → Result ScanProfileError (MappingScanProfile F)
  load_from document profile_id mode = required_entries document "registry_root" >>= λ root.
      required_entries (get "mapping_scan" root) "mapping_scan" >>= λ mapping_scan.
      required_entries (get "projection_profiles" mapping_scan) "projection_profiles"
      >>= λ registry. required_entries (get "profiles" registry) "profiles" >>= λ profiles.
          known_profile (get profile_id profiles) profile_id >>= λ raw_profile.
          required_entries raw_profile profile_id >>= λ profile.
          read_profile profile_id profile mode

  unfoldable pub load_mapping_scan_profile :
      Option (YamlValue F) → String → String → Result ScanProfileError (MappingScanProfile F)
  unfolding parse_execution_mode read_profile
  load_mapping_scan_profile none profile_id execution_mode = err registry_unreadable
  load_mapping_scan_profile (some document) profile_id execution_mode =
      parse_execution_mode execution_mode >>= λ mode. load_from document profile_id mode
