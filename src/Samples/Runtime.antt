-- ===== src/Samples/Runtime.antt =====
-- Runs of the sensor, the perception contracts and what the mapping runners read and wait for.
use go2_local_navigation.Prelude.{
  ℕ, Bool, ◌*◌, ◌+◌, ◌≡◌, ◌↔◌, Mem, refl, String, true, false, Option, none, some, List, [], ◌∷◌,
  ◌++◌, ok, arith,
}
use go2_local_navigation.Prelude.Int.{◌*ℤ◌, pos}
use go2_local_navigation.Prelude.Text.{contains, starts_with}
use go2_local_navigation.Prelude.Document.{
  YamlValue, boolean, integer, number, text, mapping, Entries, no_entries, entry,
}
use go2_local_navigation.Estimation.Contract.{Xyz}
use go2_local_navigation.Perception.RetryQueue.{MappingCloudAccounting}
use go2_local_navigation.Perception.Candidates.{
  apply_transform, is_obstacle_candidate, identity, transform_and_filter_points,
}
use go2_local_navigation.Perception.Candidates.Sound.{Origin, transform_and_filter_points_iff}
use go2_local_navigation.Perception.ScanProfile.{
  required_finite_number, MappingScanProfile, load_mapping_scan_profile,
}
use go2_local_navigation.Perception.ScanProfile.Closed.{
  IsClosed, load_mapping_scan_profile-IsClosed,
}
use go2_local_navigation.Sensor.{CloudSample, validate_cloud_sample}
use go2_local_navigation.Sensor.Valid.{IsAcceptable, validate_cloud_sample_iff}
use go2_local_navigation.Validation.CloudAccounting.{parse_mapping_cloud_accounting_log}
use go2_local_navigation.Validation.CloudAccounting.RoundTrip.{
  document_of, format_mapping_cloud_accounting, IsCodec, IsPlain, IsLine, IsPrefix, unlines,
  parse-format,
}
use go2_local_navigation.Validation.BoundedWait.{World, spin_until, tested}
use go2_local_navigation.Validation.BoundedWait.Ends.{IsTicking, IsEnd, spin_until-IsEnd}
use go2_local_navigation.Validation.ScanQuality.{
  MappingScanQualityObservation, make_quality, observe_count, quality_of,
}
use go2_local_navigation.Validation.ScanQuality.Histogram.{observe_counts}
use go2_local_navigation.Validation.ScanQuality.Summary.{IsSummary, quality_of-IsSummary}
use go2_local_navigation.Samples.Fixed.{
  Fixed, fixed_float, fixed_trig, fixed_truncation, fixed-IsRounded, fixed-IsMonotone,
}

abbrev printed : MappingCloudAccounting
printed = record {
  received = 4;
  future_waited = 1;
  recovered_after_retry = 1;
  processed = 4;
  output_published = 2;
  dropped_unrecoverable = 0;
  dropped_overflow = 0;
  pending_at_shutdown = 0;
  partial_frames_not_emitted = 0;
  emit_every = 2;
  output_stamp_regression_count = 0;
}

-- a codec that knows one document, and its text on one line
abbrev loads : List ℕ → Option (YamlValue Fixed)
loads (c ∷ []) = some (document_of printed)
loads _ = none

abbrev dumps : YamlValue Fixed → List ℕ
dumps v = 123 ∷ []

codec : IsCodec dumps loads printed
codec = record { one_line = (refl, tt); loads-dumps = refl }

-- `[1] `, and another line
abbrev prefix : List ℕ
prefix = 91 ∷ 49 ∷ 93 ∷ 32 ∷ []

abbrev other_line : List ℕ
other_line = 77 ∷ 65 ∷ 80 ∷ []

prefix-IsLine : IsLine prefix
prefix-IsLine = (refl, (refl, (refl, (refl, tt))))

prefix-IsPrefix : IsPrefix prefix
prefix-IsPrefix = (refl, (refl, (refl, (refl, tt))))

other_line-IsPlain : IsPlain other_line
unfolding contains starts_with
other_line-IsPlain = ((refl, (refl, (refl, tt))), refl)

parse-format_example :
    parse_mapping_cloud_accounting_log loads (
      unlines (
        (other_line ∷ [])
        ++ (prefix ++ format_mapping_cloud_accounting dumps printed) ∷ (other_line ∷ [])))
    ≡ ok printed
parse-format_example =
    parse-format dumps loads printed 1 (other_line ∷ []) (other_line ∷ []) prefix codec refl
      (other_line-IsPlain, tt) (other_line-IsPlain, tt) prefix-IsLine prefix-IsPrefix

abbrev at : ℕ → ℕ → Xyz Fixed
at x z = record { x = some (pos x); y = some (pos 0); z = some (pos z) }

abbrev not_a_number : Xyz Fixed
not_a_number = record { x = none; y = some (pos 0); z = some (pos 0) }

abbrev points : List (Xyz Fixed)
points = at 100 0 ∷ at 1000 200 ∷ not_a_number ∷ at 6000 0 ∷ at 1000 1500 ∷ []

run_filter : transform_and_filter_points points identity ≡ at 1000 200 ∷ []
unfolding transform_and_filter_points is_obstacle_candidate apply_transform
run_filter = refl

transform_and_filter_points_iff_example :
    Mem (at 1000 200) (transform_and_filter_points points identity)
    ↔ Origin points identity (at 1000 200)
transform_and_filter_points_iff_example =
    transform_and_filter_points_iff points identity (at 1000 200)

abbrev sample : CloudSample
sample = record {
  frame_id = "utlidar_lidar";
  stamp_nanoseconds = pos 2000;
  layout = record {
    height = pos 1;
    width = pos 10;
    point_step = pos 12;
    row_step = pos 120;
    data_length = pos 120;
    field_names = "x" ∷ "y" ∷ "z" ∷ "intensity" ∷ [];
  };
}

validate_cloud_sample_iff_example :
    ((validate_cloud_sample sample (some (pos 2000))).is_valid ≡ true)
    ↔ IsAcceptable sample (some (pos 2000))
validate_cloud_sample_iff_example = validate_cloud_sample_iff sample (some (pos 2000))

run_sample : (validate_cloud_sample sample (some (pos 2000))).is_valid ≡ true
unfolding validate_cloud_sample ◌*ℤ◌
run_sample = refl

run_regressed_sample :
    (validate_cloud_sample sample (some (pos 2001))).reason ≡ some "timestamp regressed"
unfolding validate_cloud_sample ◌*ℤ◌
run_regressed_sample = refl

-- 10 ns a spin
abbrev world : World
world = record { ros_ok = λ i. true; now = λ i. 10 * i + 5 }

world-IsTicking : IsTicking world
world-IsTicking i = omega arith

abbrev never : ℕ → Bool
never i = false

spin_until-IsEnd_example :
    (k : ℕ) × (spin_until world never 30 ≡ some (never k))
    × IsEnd world (tested never) (world.now 0 + 30) k
spin_until-IsEnd_example = spin_until-IsEnd world never 30 world-IsTicking

abbrev row : String → YamlValue Fixed → Entries Fixed → Entries Fixed
row name v rest = entry (text name) v rest

abbrev count : String → ℕ → Entries Fixed → Entries Fixed
count name n rest = row name (integer (pos n)) rest

abbrev accumulator : Entries Fixed
accumulator = row "enabled" (boolean true) (
    count "frame_limit" 8 (
      count "emit_every" 8 (
        count "input_qos_depth" 10 (
          count "retry_queue_capacity" 64 (
            row "target_frame" (text "odom")
              (row "output_topic" (text "/mapping_cloud_window") no_entries))))))

abbrev profile_entries : Entries Fixed
profile_entries = row "scope" (text "onboard_and_replay_default") (
    row "accumulator" (mapping accumulator) (
      row "converter_override" (mapping (row "min_height" (number (some (pos 150))) no_entries))
        (row "converter_input_topic" (text "/mapping_cloud_window") no_entries)))

abbrev registry : YamlValue Fixed
registry = mapping (
    row "mapping_scan"
      (mapping (
        row "projection_profiles"
          (mapping (
            row "profiles" (mapping (row "window" (mapping profile_entries) no_entries))
              no_entries))
          no_entries))
      no_entries)

abbrev profile : MappingScanProfile Fixed
profile = record {
  profile_id = "window";
  scope = "onboard_and_replay_default";
  accumulator_enabled = true;
  frame_limit = 8;
  emit_every = 8;
  input_qos_depth = 10;
  retry_queue_capacity = 64;
  accumulator_target_frame = "odom";
  accumulator_output_topic = "/mapping_cloud_window";
  converter_input_topic = "/mapping_cloud_window";
  converter_min_height = some (some (pos 150));
  converter_queue_size = none;
  source_commit = none;
}

registry_loads : load_mapping_scan_profile (some registry) "window" "onboard" ≡ ok profile
unfolding load_mapping_scan_profile required_finite_number
registry_loads = refl

load_mapping_scan_profile-IsClosed_example : IsClosed "window" "onboard" profile
load_mapping_scan_profile-IsClosed_example =
    load_mapping_scan_profile-IsClosed (some registry) "window" "onboard" profile registry_loads

abbrev counts : List ℕ
counts = 300 ∷ 280 ∷ 310 ∷ 280 ∷ []

quality_read :
    quality_of Fixed (observe_counts counts make_quality)
    ≡ some (record {
      sample_count = 4;
      minimum_valid_beams = 280;
      percentile_10_valid_beams = 280;
      median_valid_beams = 280;
      percentile_90_valid_beams = 310;
      maximum_valid_beams = 310;
    })
unfolding quality_of observe_count
quality_read = refl

quality_of-IsSummary_example :
    (q : MappingScanQualityObservation) × (quality_of Fixed (observe_counts counts make_quality)
      ≡ some q)
    × IsSummary counts q
quality_of-IsSummary_example =
    quality_of-IsSummary Fixed fixed-IsRounded fixed-IsMonotone counts (omega arith)
