-- ===== src/Bringup/Topic.antt =====
-- src/bringup/bringup/preflight_accumulator.py with the types of preflight_types.py: the statistics
-- that the preflight keeps of a topic. A set of texts is its sorted list, as `sorted` returns it.
pub mod Frames
pub mod Counts
use go2_local_navigation.Prelude.{
  ℕ, ◌+◌, ◌-◌, ◌*◌, String, Bool, true, false, not, ◌&&◌, ◌||◌, Option, none, some, List, [], ◌∷◌,
  ltb, ◌==◌, if◌then◌else◌,
}
use go2_local_navigation.Prelude.Int.{ℤ, pos, ltb_ℤ, leb_ℤ, ◌-ℤ◌}
use go2_local_navigation.Prelude.Text.{codes, str_eq}
use go2_local_navigation.Prelude.Float.{Float, Trig, fmax}

pub record TopicContract (F : Type 0) : Type 0 where
  pub topic : String
  pub expected_type : String
  pub expected_frame : Option String
  pub expected_child_frame : Option String
  pub minimum_rate_hz : F
  pub maximum_gap_seconds : F

pub record Pose2D (F : Type 0) : Type 0 where
  pub x : F
  pub y : F
  pub yaw : F

pub record ObservedMessage (F : Type 0) : Type 0 where
  pub receive_nanoseconds : ℤ
  pub stamp_nanoseconds : Option ℤ
  pub frame_id : Option String
  pub child_frame_id : Option String
  pub is_valid : Bool
  pub pose : Option (Pose2D F)

pub record TopicSummary (F : Type 0) : Type 0 where
  pub contract : TopicContract F
  pub received_messages : ℕ
  pub invalid_messages : ℕ
  pub timestamp_regressions : ℕ
  pub observed_frames : List String
  pub observed_child_frames : List String
  pub observed_types : List String
  pub maximum_publisher_count : ℕ
  pub rate_hz : F
  pub maximum_gap_seconds : F
  pub drift_translation_m : Option F
  pub drift_yaw_rad : Option F
  pub maximum_step_translation_m : Option F
  pub maximum_step_yaw_rad : Option F

pub record TopicAccumulator (F : Type 0) : Type 0 where
  pub contract : TopicContract F
  pub received_messages : ℕ
  pub invalid_messages : ℕ
  pub timestamp_regressions : ℕ
  pub observed_frames : List String
  pub observed_child_frames : List String
  pub observed_types : List String
  pub maximum_publisher_count : ℕ
  pub first_receive_nanoseconds : Option ℤ
  pub last_receive_nanoseconds : Option ℤ
  pub previous_stamp_nanoseconds : Option ℤ
  pub maximum_gap_nanoseconds : ℤ
  pub first_pose : Option (Pose2D F)
  pub last_pose : Option (Pose2D F)
  pub maximum_step_translation_m : F
  pub maximum_step_yaw_rad : F

-- the order of texts, by code points
unfoldable pub codes_lt : List ℕ → List ℕ → Bool
codes_lt s [] = false
codes_lt [] (b ∷ t) = true
codes_lt (a ∷ s) (b ∷ t) = ltb a b || (a == b && codes_lt s t)

-- `set.add`
unfoldable pub add_text : String → List String → List String
add_text s [] = s ∷ []
add_text s (t ∷ ts) =
    let rest = add_text s ts in
    if str_eq s t then t ∷ ts else if codes_lt (codes s) (codes t) then s ∷ t ∷ ts else t ∷ rest

-- `if frame_id: frames.add(frame_id)`
unfoldable pub add_frame : Option String → List String → List String
add_frame none frames = frames
add_frame (some frame) frames = if str_eq frame "" then frames else add_text frame frames

-- `set.update`
unfoldable pub add_texts : List String → List String → List String
add_texts [] texts = texts
add_texts (s ∷ ss) texts = add_texts ss (add_text s texts)

abbrev widest_gap : Option ℤ → ℤ → ℤ → ℤ
widest_gap none receive gap = gap
widest_gap (some last) receive gap = if ltb_ℤ gap (receive -ℤ last) then receive -ℤ last else gap

abbrev keep_first {ℓ} : {A : Type ℓ} → Option A → A → Option A
keep_first none x = some x
keep_first (some y) x = some y

abbrev elapsed : Option ℤ → Option ℤ → ℤ
elapsed (some first) (some last) = last -ℤ first
elapsed _ _ = pos 0

module _ {F : Type 0} where
  -- `_observe_stamp`, on a stamp that is there
  observe_present : ℤ → TopicAccumulator F → TopicAccumulator F
  observe_present stamp s =
      if leb_ℤ stamp (pos 0)
      then s
      else if (elim s.previous_stamp_nanoseconds [ none ↦ false | some p ↦ ltb_ℤ stamp p ])
      then record s { timestamp_regressions = s.timestamp_regressions + 1 }
      else record s { previous_stamp_nanoseconds = some stamp }

  unfoldable pub observe_stamp : Option ℤ → TopicAccumulator F → TopicAccumulator F
  unfolding observe_present
  observe_stamp none s = s
  observe_stamp (some stamp) s = observe_present stamp s

  -- `observe_graph`
  unfoldable pub observe_graph : List String → ℕ → TopicAccumulator F → TopicAccumulator F
  observe_graph types publisher_count s = record s {
    observed_types = add_texts types s.observed_types;
    maximum_publisher_count =
        if ltb s.maximum_publisher_count publisher_count
        then publisher_count
        else s.maximum_publisher_count;
  }

  -- `observe` up to `_observe_stamp`
  unfoldable pub observe_receipt : ObservedMessage F → TopicAccumulator F → TopicAccumulator F
  observe_receipt sample s = record s {
    received_messages = s.received_messages + 1;
    invalid_messages = if sample.is_valid then s.invalid_messages else s.invalid_messages + 1;
    first_receive_nanoseconds = keep_first s.first_receive_nanoseconds sample.receive_nanoseconds;
    maximum_gap_nanoseconds =
        widest_gap s.last_receive_nanoseconds sample.receive_nanoseconds s.maximum_gap_nanoseconds;
    last_receive_nanoseconds = some sample.receive_nanoseconds;
  }

  unfoldable pub observe_frames : ObservedMessage F → TopicAccumulator F → TopicAccumulator F
  observe_frames sample s = record s {
    observed_frames = add_frame sample.frame_id s.observed_frames;
    observed_child_frames = add_frame sample.child_frame_id s.observed_child_frames;
  }

module _ {F : Type 0} ⦃fl : Float F⦄ ⦃m : Trig F⦄ where
  -- `__init__`
  abbrev pub make_topic : TopicContract F → TopicAccumulator F
  make_topic contract = record {
    contract = contract;
    received_messages = 0;
    invalid_messages = 0;
    timestamp_regressions = 0;
    observed_frames = [];
    observed_child_frames = [];
    observed_types = [];
    maximum_publisher_count = 0;
    first_receive_nanoseconds = none;
    last_receive_nanoseconds = none;
    previous_stamp_nanoseconds = none;
    maximum_gap_nanoseconds = pos 0;
    first_pose = none;
    last_pose = none;
    maximum_step_translation_m = fl.nought;
    maximum_step_yaw_rad = fl.nought;
  }

  abbrev pub angle_difference : F → F → F
  angle_difference current previous =
      m.atan2 (m.sin (fl.sub current previous)) (m.cos (fl.sub current previous))

  abbrev distance : Pose2D F → Pose2D F → F
  distance a b = m.hypot (fl.sub a.x b.x) (fl.sub a.y b.y)

  abbrev turn : Pose2D F → Pose2D F → F
  turn a b = m.fabs (angle_difference a.yaw b.yaw)

  observe_present_pose : Pose2D F → Option (Pose2D F) → TopicAccumulator F → TopicAccumulator F
  observe_present_pose pose none s = record s {
    first_pose = keep_first s.first_pose pose;
    last_pose = some pose;
  }
  observe_present_pose pose (some last) s = record s {
    first_pose = keep_first s.first_pose pose;
    maximum_step_translation_m = fmax s.maximum_step_translation_m (distance pose last);
    maximum_step_yaw_rad = fmax s.maximum_step_yaw_rad (turn pose last);
    last_pose = some pose;
  }

  unfoldable pub observe_pose : Option (Pose2D F) → TopicAccumulator F → TopicAccumulator F
  unfolding observe_present_pose
  observe_pose none s = s
  observe_pose (some pose) s = observe_present_pose pose s.last_pose s

  unfoldable pub observe : ObservedMessage F → TopicAccumulator F → TopicAccumulator F
  observe sample s =
      observe_pose sample.pose
        (observe_frames sample (observe_stamp sample.stamp_nanoseconds (observe_receipt sample s)))

  abbrev drift_of : Option (Pose2D F) → Option (Pose2D F) → Option (F × F)
  drift_of (some first) (some last) = some (distance last first, turn last first)
  drift_of _ _ = none

  abbrev only_with : Option (Pose2D F) → F → Option F
  only_with none x = none
  only_with (some p) x = some x

  unfoldable pub summary : TopicAccumulator F → TopicSummary F
  summary s =
      let elapsed_nanoseconds = elapsed s.first_receive_nanoseconds s.last_receive_nanoseconds in
      let drift = drift_of s.first_pose s.last_pose in
      record {
        contract = s.contract;
        received_messages = s.received_messages;
        invalid_messages = s.invalid_messages;
        timestamp_regressions = s.timestamp_regressions;
        observed_frames = s.observed_frames;
        observed_child_frames = s.observed_child_frames;
        observed_types = s.observed_types;
        maximum_publisher_count = s.maximum_publisher_count;
        rate_hz =
            if ltb 1 s.received_messages && ltb_ℤ (pos 0) elapsed_nanoseconds
            then fl.ratio (pos ((s.received_messages - 1) * 1000000000)) elapsed_nanoseconds
            else fl.nought;
        maximum_gap_seconds = fl.ratio s.maximum_gap_nanoseconds (pos 1000000000);
        drift_translation_m = elim drift [ none ↦ none | some d ↦ some d.0 ];
        drift_yaw_rad = elim drift [ none ↦ none | some d ↦ some d.1 ];
        maximum_step_translation_m = only_with s.first_pose s.maximum_step_translation_m;
        maximum_step_yaw_rad = only_with s.first_pose s.maximum_step_yaw_rad;
      }
