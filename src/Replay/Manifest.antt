-- ===== src/Replay/Manifest.antt =====
-- src/go2_validation/go2_validation/external_replay_manifest.py: the pinned source is read from the
-- YAML document. `Document` is what `read_text` and `safe_load` gave, and a missing key that is read
-- by `raw[key]` is a KeyError.
pub mod Sound
use go2_local_navigation.Prelude.{
  ℕ, zero, suc, String, Bool, true, false, not, ◌&&◌, ◌||◌, Option, none, some, List, [], ◌∷◌,
  Result, ok, err, ◌>>=◌, ◌==◌, if◌then◌else◌,
}
use go2_local_navigation.Prelude.Int.{ℤ, pos}
use go2_local_navigation.Prelude.Text.{str_eq}
use go2_local_navigation.Prelude.Document.{
  YamlValue, mapping, sequence, Values, no_values, value, Entries, get, has_key, nonempty_text,
  positive_natural,
}
use go2_local_navigation.Replay.Contract.{
  AcquisitionError, conflict, SourceSpec, make_source, ChannelContract, cloud_contract,
  odometry_contract, expected_cloud_count, expected_odometry_count,
}

pub data Document (F : Type 0) : Type 0 where
  unreadable yaml_invalid : Document F
  loaded : YamlValue F → Document F

-- `AcquisitionConflict`, or a `KeyError` that nothing catches
pub data ManifestError : Type 0 where
  refused : AcquisitionError → ManifestError
  key_error : String → ManifestError

pub record ConversionSpec : Type 0 where
  pub source : SourceSpec
  pub expected_cloud_count : ℕ
  pub expected_odometry_count : ℕ
  pub short_minimum_cloud_count : ℕ
  pub short_minimum_odometry_count : ℕ
  pub full_output_cap_bytes : ℕ

abbrev pub refuse : {A : Type 0} → String → Result ManifestError A
refuse reason = err (refused (conflict reason))

abbrev string_value : Option String → Result ManifestError String
string_value none = refuse "source_manifest_string_invalid"
string_value (some s) = ok s

abbrev integer_value : Option ℕ → Result ManifestError ℕ
integer_value none = refuse "source_manifest_integer_invalid"
integer_value (some n) = ok n

module _ {F : Type 0} where
  unfoldable pub required_string : Entries F → String → Result ManifestError String
  required_string raw key =
      if has_key key raw then string_value (nonempty_text (get key raw)) else err (key_error key)

  unfoldable pub required_positive_int : Entries F → String → Result ManifestError ℕ
  required_positive_int raw key =
      if has_key key raw
      then integer_value (positive_natural (get key raw))
      else err (key_error key)

  abbrev only_row : Values F → Result ManifestError (Entries F)
  only_row (value (mapping raw) no_values) = ok raw
  only_row (value _ no_values) = refuse "source_manifest_row_invalid"
  only_row _ = refuse "source_manifest_cardinality_invalid"

  abbrev sources_of : YamlValue F → Result ManifestError (Entries F)
  sources_of (sequence rows) = only_row rows
  sources_of _ = refuse "source_manifest_cardinality_invalid"

  unfoldable pub source_row : Document F → Result ManifestError (Entries F)
  source_row unreadable = refuse "source_manifest_unreadable"
  source_row yaml_invalid = refuse "source_manifest_yaml_invalid"
  source_row (loaded (mapping document)) = sources_of (get "sources" document)
  source_row (loaded _) = refuse "source_manifest_root_invalid"

abbrev pub built : Result AcquisitionError SourceSpec → Result ManifestError SourceSpec
built (ok s) = ok s
built (err e) = err (refused e)

-- `except KeyError`
abbrev pub field_missing : {A : Type 0} → Result ManifestError A → Result ManifestError A
field_missing (err (key_error key)) = refuse "source_manifest_field_missing"
field_missing r = r

module _ {F : Type 0} where
  unfoldable pub source_fields : Entries F → Result ManifestError SourceSpec
  unfolding make_source
  source_fields raw = required_string raw "source_id" >>= λ source_id.
      required_string raw "download_url" >>= λ download_url.
      required_string raw "archive_filename" >>= λ archive_filename.
      required_string raw "extracted_filename" >>= λ extracted_filename.
      required_string raw "archive_sha256" >>= λ archive_sha256.
      required_positive_int raw "archive_size_bytes" >>= λ archive_size.
      required_positive_int raw "extracted_size_bytes" >>= λ extracted_size.
      required_positive_int raw "minimum_free_bytes" >>= λ minimum_free.
      required_positive_int raw "connect_timeout_seconds" >>= λ connect_timeout.
      required_positive_int raw "total_timeout_seconds" >>= λ total_timeout.
      required_positive_int raw "max_attempts" >>= λ max_attempts. built (
        make_source (record {
          source_id = source_id;
          download_url = download_url;
          archive_filename = archive_filename;
          extracted_filename = extracted_filename;
          archive_sha256 = archive_sha256;
          archive_size_bytes = pos archive_size;
          extracted_size_bytes = pos extracted_size;
          minimum_free_bytes = pos minimum_free;
          connect_timeout_seconds = pos connect_timeout;
          total_timeout_seconds = pos total_timeout;
          max_attempts = pos max_attempts;
        }))

  unfoldable pub parse_source_spec : Entries F → Result ManifestError SourceSpec
  unfolding source_fields
  parse_source_spec raw = field_missing (source_fields raw)

  unfoldable pub load_source_spec : Document F → Result ManifestError SourceSpec
  unfolding source_row parse_source_spec
  load_source_spec document = source_row document >>= parse_source_spec

-- The dictionary `counts` with its two possible keys.
pub record Counts : Type 0 where
  pub cloud : Option ℕ
  pub odometry : Option ℕ

abbrev contract_of : String → Option ChannelContract
contract_of topic =
    if str_eq topic cloud_contract.source_topic
    then some cloud_contract
    else if str_eq topic odometry_contract.source_topic
    then some odometry_contract
    else none

abbrev counted : String → Counts → Option ℕ
counted topic c =
    if str_eq topic cloud_contract.source_topic
    then c.cloud
    else if str_eq topic odometry_contract.source_topic
    then c.odometry
    else none

abbrev count_topic : String → ℕ → Counts → Counts
count_topic topic n c =
    if str_eq topic cloud_contract.source_topic
    then record c { cloud = some n }
    else record c { odometry = some n }

module _ {F : Type 0} where
  abbrev channel_contract : Entries F → String → Option ChannelContract → Result ManifestError ℕ
  channel_contract channel topic none = refuse "selected_channel_set_invalid"
  channel_contract channel topic (some k) = required_string channel "source_schema" >>= λ schema.
      required_string channel "canonical_topic" >>= λ canonical_topic.
      required_string channel "canonical_type" >>= λ canonical_type.
      if str_eq schema k.schema
        && str_eq canonical_topic k.output_topic
        && str_eq canonical_type k.output_type
      then required_positive_int channel "expected_count"
      else refuse "selected_channel_contract_mismatch"

  abbrev channel_count : Entries F → String → Option ℕ → Result ManifestError ℕ
  channel_count channel topic (some n) = refuse "duplicate_selected_channel"
  channel_count channel topic none = channel_contract channel topic (contract_of topic)

  unfoldable pub count_channels : Values F → Counts → Result ManifestError Counts
  unfolding required_string required_positive_int
  count_channels no_values c = ok c
  count_channels (value (mapping channel) rows) c =
      required_string channel "source_topic" >>= λ topic.
      channel_count channel topic (counted topic c) >>= λ n.
      count_channels rows (count_topic topic n c)
  count_channels (value _ rows) c = refuse "selected_channel_row_invalid"

  abbrev pub channels_of : YamlValue F → Result ManifestError Counts
  channels_of (sequence rows) = count_channels rows (record { cloud = none; odometry = none })
  channels_of _ = refuse "selected_channels_invalid"

  abbrev pub conversion_limits : Entries F → ℕ → ℕ → Result ManifestError ConversionSpec
  conversion_limits raw clouds odometry = parse_source_spec raw >>= λ source.
      required_positive_int raw "short_minimum_cloud_count" >>= λ minimum_clouds.
      required_positive_int raw "short_minimum_odometry_count" >>= λ minimum_odometry.
      required_positive_int raw "full_output_cap_bytes" >>= λ cap. ok (record {
        source = source;
        expected_cloud_count = clouds;
        expected_odometry_count = odometry;
        short_minimum_cloud_count = minimum_clouds;
        short_minimum_odometry_count = minimum_odometry;
        full_output_cap_bytes = cap;
      })

  abbrev pub conversion_fields : Entries F → ℕ → ℕ → Result ManifestError ConversionSpec
  conversion_fields raw clouds odometry =
      required_positive_int raw "short_duration_seconds" >>= λ seconds.
      if seconds == 120
      then conversion_limits raw clouds odometry
      else refuse "short_duration_contract_mismatch"

  -- both counts are there, and are the pinned ones
  abbrev pub with_counts : Entries F → Option ℕ → Option ℕ → Result ManifestError ConversionSpec
  with_counts raw (some clouds) (some odometry) =
      if clouds == expected_cloud_count && odometry == expected_odometry_count
      then conversion_fields raw clouds odometry
      else refuse "selected_count_contract_mismatch"
  with_counts raw _ _ = refuse "selected_channel_set_invalid"

  unfoldable pub load_conversion_spec : Document F → Result ManifestError ConversionSpec
  unfolding source_row count_channels
  load_conversion_spec document = source_row document >>= λ raw.
      channels_of (get "selected_channels" raw) >>= λ counts.
      with_counts raw counts.cloud counts.odometry
