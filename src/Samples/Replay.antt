-- ===== src/Samples/Replay.antt =====
-- Runs of the external replay: a pinned source, its download, what is in custody, and the window.
use go2_local_navigation.Prelude.Text.{starts_with, str_eq}
use go2_local_navigation.Prelude.{
  ℕ, zero, suc, ◌*◌, ◌≡◌, refl, String, true, false, Option, none, some, List, [], ◌∷◌, All, ok,
  if◌then◌else◌,
}
use go2_local_navigation.Prelude.Int.{pos}
use go2_local_navigation.Prelude.Document.{
  YamlValue, integer, text, sequence, mapping, no_values, value, Entries, no_entries, entry,
}
use go2_local_navigation.Replay.Contract.{is_filename, is_sha256, SourceSpec}
use go2_local_navigation.Replay.Manifest.{
  parse_source_spec, Document, loaded, ConversionSpec, load_conversion_spec,
}
use go2_local_navigation.Replay.Manifest.Sound.{IsConvertible, load_conversion_spec-IsConvertible}
use go2_local_navigation.Replay.Window.{
  MessageRecord, ShortWindow, short_window_candidates, choose_short_window,
}
use go2_local_navigation.Replay.Window.Counts.{IsWindow}
use go2_local_navigation.Replay.Window.Best.{IsScored, IsAtLeast, choose_short_window-IsBest}
use go2_local_navigation.Replay.Files.{regular, Files}
use go2_local_navigation.Replay.Download.{CurlAttempt, download_archive_with_curl}
use go2_local_navigation.Replay.Acquire.{
  AcquisitionPaths, AcquisitionResult, passed, Outside, acquire_external_replay,
}
use go2_local_navigation.Replay.Acquire.Custody.{IsApart}
use go2_local_navigation.Replay.Acquire.Keeps.{InCustody, acquire_external_replay-InCustody}
use go2_local_navigation.Samples.Fixed.{
  Fixed, fixed_float, fixed_trig, fixed-IsOrdered, fixed-IsSigned,
}

abbrev digest : String
digest = "0123456789abcdef0123456789abcdef0123456789abcdef0123456789abcdef"

abbrev other_digest : String
other_digest = "ffffffffffffffffffffffffffffffffffffffffffffffffffffffffffffffff"

-- the hash of three bytes, and of all else
abbrev hash : List ℕ → String
hash (a ∷ b ∷ c ∷ []) = digest
hash _ = other_digest

abbrev source : SourceSpec
source = record {
  source_id = "replay";
  download_url = "https://example.org/replay.tar";
  archive_filename = "replay.tar";
  extracted_filename = "replay.mcap";
  archive_sha256 = digest;
  archive_size_bytes = pos 3;
  extracted_size_bytes = pos 2;
  minimum_free_bytes = pos 100;
  connect_timeout_seconds = pos 10;
  total_timeout_seconds = pos 60;
  max_attempts = pos 2;
}

abbrev row : String → YamlValue Fixed → Entries Fixed → Entries Fixed
row name v rest = entry (text name) v rest

abbrev words : String → String → Entries Fixed → Entries Fixed
words name s rest = row name (text s) rest

abbrev count : String → ℕ → Entries Fixed → Entries Fixed
count name n rest = row name (integer (pos n)) rest

abbrev cloud_row : Entries Fixed
cloud_row = words "source_topic" "rt/utlidar/cloud" (
    words "source_schema" "sensor_msgs::msg::dds_::PointCloud2_" (
      words "canonical_topic" "/utlidar/cloud" (
        words "canonical_type" "sensor_msgs/msg/PointCloud2"
          (count "expected_count" 17776 no_entries))))

abbrev odometry_row : Entries Fixed
odometry_row = words "source_topic" "rt/utlidar/robot_odom" (
    words "source_schema" "nav_msgs::msg::dds_::Odometry_" (
      words "canonical_topic" "/utlidar/robot_odom" (
        words "canonical_type" "nav_msgs/msg/Odometry" (count "expected_count" 173616 no_entries))))

abbrev channels : YamlValue Fixed
channels = sequence (value (mapping odometry_row) (value (mapping cloud_row) no_values))

abbrev source_entries : Entries Fixed → Entries Fixed
source_entries rest = words "source_id" "replay" (
    words "download_url" "https://example.org/replay.tar" (
      words "archive_filename" "replay.tar" (
        words "extracted_filename" "replay.mcap" (
          words "archive_sha256" digest (
            count "archive_size_bytes" 3 (
              count "extracted_size_bytes" 2 (
                count "minimum_free_bytes" 100 (
                  count "connect_timeout_seconds" 10
                    (count "total_timeout_seconds" 60 (count "max_attempts" 2 rest))))))))))

abbrev conversion_entries : Entries Fixed
conversion_entries = row "selected_channels" channels (
    count "short_duration_seconds" 120 (
      count "short_minimum_cloud_count" 1000 (
        count "short_minimum_odometry_count" 2000
          (count "full_output_cap_bytes" 4000000 no_entries))))

abbrev manifest : Document Fixed
manifest = loaded (
    mapping (
      row "sources" (sequence (value (mapping (source_entries conversion_entries)) no_values))
        no_entries))

abbrev conversion : ConversionSpec
conversion = record {
  source = source;
  expected_cloud_count = 17776;
  expected_odometry_count = 173616;
  short_minimum_cloud_count = 1000;
  short_minimum_odometry_count = 2000;
  full_output_cap_bytes = 4000000;
}

manifest_loads : load_conversion_spec manifest ≡ ok conversion
unfolding load_conversion_spec parse_source_spec is_sha256 starts_with is_filename
manifest_loads = refl

load_conversion_spec-IsConvertible_example : IsConvertible conversion
load_conversion_spec-IsConvertible_example =
    load_conversion_spec-IsConvertible manifest conversion manifest_loads

-- The first attempt times out and leaves a part, and the second one gets the archive.
abbrev curl : ℕ → CurlAttempt
curl zero = record { return_code = pos 28; http_status = 0; left_behind = some (regular (1 ∷ [])) }
curl (suc i) = record {
  return_code = pos 0;
  http_status = 200;
  left_behind = some (regular (1 ∷ 2 ∷ 3 ∷ []));
}

abbrev no_files : Files
no_files path = none

-- the directories above the staged archive
abbrev parents : List String
parents = "cache" ∷ "cache/staging" ∷ []

run_download :
    (left : Files) × (download_archive_with_curl hash curl source "cache/staging/a.tar" parents
        no_files
      ≡ some (left, ok digest))
unfolding download_archive_with_curl
run_download = (_, refl)

-- A regular file stands where a directory belongs.
below_file :
    download_archive_with_curl hash curl source "cache/staging/a.tar" parents
      (λ path. if str_eq path "cache" then some (regular []) else none)
    ≡ none
unfolding download_archive_with_curl
below_file = refl

abbrev outside : Outside
outside = record {
  sha256 = hash;
  free_bytes = pos 1000;
  curl = curl;
  write_fails = λ n. false;
  members = λ bytes. some (
      record { name = "log/replay.MCAP"; is_regular = true; size = 2; content = some (8 ∷ 9 ∷ []) }
      ∷ []);
}

abbrev paths : AcquisitionPaths
paths = record {
  archive_path = "replay.tar";
  extracted_path = "replay.mcap";
  staged_archive = "staged.tar";
  staged_extracted = "staged.mcap";
  staged_partial = "staged.mcap.partial";
}

paths-IsApart : IsApart paths
paths-IsApart = record {
  archive = refl;
  archive_extracted = refl;
  archive_partial = refl;
  archive_final = refl;
}

abbrev files_of : Option (Files × AcquisitionResult) → Files
files_of none = no_files
files_of (some r) = r.0

abbrev success : AcquisitionResult
success = record {
  status = passed;
  source_id = "replay";
  reason_code = none;
  artifact_absent = false;
  archive_path = some "replay.tar";
  archive_size_bytes = some (pos 3);
  archive_sha256 = some digest;
  extracted_path = some "replay.mcap";
  extracted_size_bytes = some (pos 2);
  extracted_sha256 = some other_digest;
}

abbrev after : Files
after = files_of (acquire_external_replay outside source paths no_files)

run_acquisition : acquire_external_replay outside source paths no_files ≡ some (after, success)
unfolding acquire_external_replay
run_acquisition = refl

acquire_external_replay-InCustody_example :
    InCustody outside source paths paths-IsApart after success
acquire_external_replay-InCustody_example =
    acquire_external_replay-InCustody outside source paths paths-IsApart no_files after success
      run_acquisition refl

-- a position at a number of seconds
abbrev pose : ℕ → ℕ → MessageRecord Fixed
pose t n = record {
  channel = "rt/utlidar/robot_odom";
  log_time_ns = t;
  sequence = n;
  planar_xy = some (some (pos (1000 * n)), some (pos 0));
}

abbrev poses : List (MessageRecord Fixed)
poses = pose 3000000000 2 ∷ pose 1000000000 1 ∷ pose 121000000000 3 ∷ []

abbrev clouds : List ℕ
clouds = 1500000000 ∷ 900000000 ∷ 119000000000 ∷ []

abbrev window : ShortWindow Fixed
window = record {
  start_ns = 1000000000;
  end_ns = 121000000000;
  cloud_count = 2;
  odometry_count = 2;
  path_score = some (pos 1000);
}

run_window : choose_short_window (λ x. x) poses clouds 500000000 122000000000 2 2 ≡ ok window
unfolding choose_short_window
run_window = refl

scored : All IsScored (short_window_candidates (λ x. x) poses clouds 500000000 122000000000 2 2)
unfolding short_window_candidates
scored = (refl, tt)

choose_short_window-IsBest_example :
    IsWindow poses clouds 500000000 122000000000 2 2 window
    × All
        (IsAtLeast window)
        (short_window_candidates (λ x. x) poses clouds 500000000 122000000000 2 2)
choose_short_window-IsBest_example =
    choose_short_window-IsBest fixed-IsOrdered fixed-IsSigned (λ x. x) poses clouds 500000000
      122000000000 2 2 window scored run_window
