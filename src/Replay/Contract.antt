-- ===== src/Replay/Contract.antt =====
-- src/go2_validation/go2_validation/external_replay_contract.py: the pinned source and the channels
-- that are selected from it. The reasons of an error are its texts; details are left out where they
-- only print a value.
use go2_local_navigation.Prelude.{
  ℕ, String, Bool, not, ◌&&◌, ◌||◌, List, [], ◌∷◌, length, all, any, is_empty, Result, ok, err,
  ◌>>=◌, ◌==◌, leb, if◌then◌else◌,
}
use go2_local_navigation.Prelude.Int.{ℤ, pos, leb_ℤ}
use go2_local_navigation.Prelude.Text.{codes, str_eq, starts_with}

-- An acquisition may conflict with the contract, or be put off; a conversion may only conflict.
pub data AcquisitionError : Type 0 where
  conflict deferred : String → AcquisitionError

pub record SourceSpec : Type 0 where
  pub source_id : String
  pub download_url : String
  pub archive_filename : String
  pub extracted_filename : String
  pub archive_sha256 : String
  pub archive_size_bytes : ℤ
  pub extracted_size_bytes : ℤ
  pub minimum_free_bytes : ℤ
  pub connect_timeout_seconds : ℤ
  pub total_timeout_seconds : ℤ
  pub max_attempts : ℤ

abbrev is_hex : ℕ → Bool
is_hex c = (leb 48 c && leb c 57) || (leb 97 c && leb c 102)

-- the whole text is 64 lower-case hexadecimal digits
unfoldable pub is_sha256 : String → Bool
is_sha256 s = length (codes s) == 64 && all is_hex (codes s)

abbrev is_separator : ℕ → Bool
is_separator c = c == 47 || c == 92

unfoldable pub is_filename : String → Bool
is_filename s =
    not (is_empty (codes s))
    && not (any is_separator (codes s))
    && not (str_eq s ".")
    && not (str_eq s "..")

abbrev pub is_positive : ℤ → Bool
is_positive n = not (leb_ℤ n (pos 0))

-- `min(limits) <= 0`
abbrev pub limits_positive : SourceSpec → Bool
limits_positive s =
    is_positive s.archive_size_bytes
    && is_positive s.extracted_size_bytes
    && is_positive s.minimum_free_bytes
    && is_positive s.connect_timeout_seconds
    && is_positive s.total_timeout_seconds
    && is_positive s.max_attempts

-- `__post_init__`: a source that is built is returned
unfoldable pub make_source : SourceSpec → Result AcquisitionError SourceSpec
make_source s =
    if not (is_sha256 s.archive_sha256)
    then err (conflict "invalid_archive_sha256")
    else if not (starts_with (codes "https://") (codes s.download_url))
    then err (conflict "download_url_must_be_https")
    else if not (is_filename s.archive_filename) || not (is_filename s.extracted_filename)
    then err (conflict "source_filename_invalid")
    else if not (limits_positive s)
    then err (conflict "source_limit_must_be_positive")
    else ok s

-- `ContractConflict`: its reason, and the detail where that is a topic.
pub record ContractConflict : Type 0 where
  pub reason : String
  pub detail : String

pub record Channel : Type 0 where
  pub channel_id : ℤ
  pub topic : String
  pub schema : String

pub record CanonicalChannel : Type 0 where
  pub source_id : ℤ
  pub source_topic : String
  pub output_topic : String
  pub output_type : String

pub record ChannelContract : Type 0 where
  pub source_topic : String
  pub schema : String
  pub output_topic : String
  pub output_type : String

abbrev pub cloud_contract : ChannelContract
cloud_contract = record {
  source_topic = "rt/utlidar/cloud";
  schema = "sensor_msgs::msg::dds_::PointCloud2_";
  output_topic = "/utlidar/cloud";
  output_type = "sensor_msgs/msg/PointCloud2";
}

abbrev pub odometry_contract : ChannelContract
odometry_contract = record {
  source_topic = "rt/utlidar/robot_odom";
  schema = "nav_msgs::msg::dds_::Odometry_";
  output_topic = "/utlidar/robot_odom";
  output_type = "nav_msgs/msg/Odometry";
}

abbrev pub expected_cloud_count : ℕ
expected_cloud_count = 17776

abbrev pub expected_odometry_count : ℕ
expected_odometry_count = 173616

-- `tuple(channel for channel in channels if channel.topic == source_topic)`
unfoldable pub with_topic : String → List Channel → List Channel
with_topic topic [] = []
with_topic topic (c ∷ cs) =
    let rest = with_topic topic cs in if str_eq c.topic topic then c ∷ rest else rest

abbrev pub selected_of : ChannelContract → List Channel → Result ContractConflict CanonicalChannel
selected_of k [] = err (record { reason = "selected_channel_missing"; detail = k.source_topic })
selected_of k (c ∷ []) =
    if str_eq c.schema k.schema
    then ok (record {
      source_id = c.channel_id;
      source_topic = k.source_topic;
      output_topic = k.output_topic;
      output_type = k.output_type;
    })
    else err (record { reason = "selected_schema_mismatch"; detail = k.source_topic })
selected_of k _ = err (record { reason = "duplicate_selected_channel"; detail = k.source_topic })

-- one round of the loop over the contracts
unfoldable pub select_channel :
    ChannelContract → List Channel → Result ContractConflict CanonicalChannel
unfolding with_topic
select_channel k channels = selected_of k (with_topic k.source_topic channels)

unfoldable pub canonical_channels : List Channel → Result ContractConflict (List CanonicalChannel)
unfolding select_channel
canonical_channels channels = select_channel cloud_contract channels >>= λ cloud.
    select_channel odometry_contract channels >>= λ odometry. ok (cloud ∷ odometry ∷ [])

unfoldable pub validate_counts : ℕ → ℕ → Result ContractConflict (Unit {0})
validate_counts cloud_count odometry_count =
    if cloud_count == expected_cloud_count && odometry_count == expected_odometry_count
    then ok tt
    else err (record { reason = "selected_count_mismatch"; detail = "" })
