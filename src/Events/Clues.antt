-- ===== src/Events/Clues.antt =====
-- The data of app/event_timeline.py: the fingerprints of posts, and the signals and conflicts of a match.
use jeonghan_daily_review_bo.Prelude.{ℕ, Text, codes, Bool, true, false, Option, List}

pub record SegmentFingerprint : Type 0 where
  pub update_id : Text
  pub event_id : Text
  pub source : Text
  pub created_at : Text
  pub event_type : Text
  pub language : Text
  pub conversation_id : Text
  pub reply_to_id : Text
  pub quoted_id : Text
  pub reference_hashes : List Text
  pub topic_hashes : List Text
  pub participants : List Text
  pub content_timestamp_seconds : Option ℕ
  pub timestamp_kind : Text
  pub part_number : Option ℕ
  pub question_hashes : List Text
  pub media_hashes : List Text
  pub text_anchor_hashes : List Text
  pub fact_numbers : List Text
  pub has_negation : Bool

pub data Clue : Type 0 where
  same_update_identity direct_reply_relation shared_quoted_reference shared_media_reference : Clue
  same_content_timestamp near_content_timestamp shared_clip_reference : Clue
  shared_container_reference same_question_anchor same_part_number adjacent_part_sequence : Clue
  same_conversation topic_overlap shared_spoken_text_anchor shared_participants : Clue
  temporal_proximity same_event_type : Clue

pub data Clash : Type 0 where
  different_event content_timestamp_mismatch different_question distant_part_sequence : Clash
  large_source_time_gap fact_value_conflict polarity_conflict : Clash

pub data Relationship : Type 0 where
  conflicting same_moment continuation complementary ambiguous separate : Relationship

pub record SegmentCandidate : Type 0 where
  pub left_update_id : Text
  pub right_update_id : Text
  pub confidence : ℕ
  pub matching_signals : List Clue
  pub conflicts : List Clash
  pub relationship : Relationship
  pub same_segment : Bool

-- `_STRONG_SAME_MOMENT`
abbrev pub is_strong_clue : Clue → Bool
is_strong_clue shared_quoted_reference = true
is_strong_clue shared_media_reference = true
is_strong_clue same_content_timestamp = true
is_strong_clue shared_clip_reference = true
is_strong_clue same_question_anchor = true
is_strong_clue _ = false

abbrev pub is_supporting : Clue → Bool
is_supporting topic_overlap = true
is_supporting shared_participants = true
is_supporting temporal_proximity = true
is_supporting shared_spoken_text_anchor = true
is_supporting same_part_number = true
is_supporting _ = false

abbrev pub is_reply_or_thread : Clue → Bool
is_reply_or_thread direct_reply_relation = true
is_reply_or_thread adjacent_part_sequence = true
is_reply_or_thread same_conversation = true
is_reply_or_thread _ = false

abbrev pub is_unresolved : Clash → Bool
is_unresolved fact_value_conflict = true
is_unresolved polarity_conflict = true
is_unresolved _ = false

abbrev pub is_time_clash : Clash → Bool
is_time_clash content_timestamp_mismatch = true
is_time_clash _ = false

abbrev pub is_question_clash : Clash → Bool
is_question_clash different_question = true
is_question_clash _ = false

-- What a match reads of its two fingerprints; a distance is there where both have the number.
pub record Moments : Type 0 where
  pub direct_reply : Bool
  pub shared_quote : Bool
  pub shared_media : Bool
  pub timestamps : Option ℕ
  pub moment_reference : Bool
  pub shared_reference : Bool
  pub shared_question : Bool
  pub both_questions : Bool
  pub parts : Option ℕ
  pub one_conversation : Bool
  pub shared_topics : ℕ
  pub union_topics : ℕ
  pub shared_text : Bool
  pub shared_people : Bool
  pub delta : ℕ
  pub one_type : Bool
  pub facts_disjoint : Bool
  pub negations_differ : Bool

-- The names of the signals and conflicts, by which the code sorts them.
abbrev pub clue_name : Clue → Text
clue_name same_update_identity = codes "same_update_identity"
clue_name direct_reply_relation = codes "direct_reply_relation"
clue_name shared_quoted_reference = codes "shared_quoted_reference"
clue_name shared_media_reference = codes "shared_media_reference"
clue_name same_content_timestamp = codes "same_content_timestamp"
clue_name near_content_timestamp = codes "near_content_timestamp"
clue_name shared_clip_reference = codes "shared_clip_reference"
clue_name shared_container_reference = codes "shared_container_reference"
clue_name same_question_anchor = codes "same_question_anchor"
clue_name same_part_number = codes "same_part_number"
clue_name adjacent_part_sequence = codes "adjacent_part_sequence"
clue_name same_conversation = codes "same_conversation"
clue_name topic_overlap = codes "topic_overlap"
clue_name shared_spoken_text_anchor = codes "shared_spoken_text_anchor"
clue_name shared_participants = codes "shared_participants"
clue_name temporal_proximity = codes "temporal_proximity"
clue_name same_event_type = codes "same_event_type"

abbrev pub clash_name : Clash → Text
clash_name different_event = codes "different_event"
clash_name content_timestamp_mismatch = codes "content_timestamp_mismatch"
clash_name different_question = codes "different_question"
clash_name distant_part_sequence = codes "distant_part_sequence"
clash_name large_source_time_gap = codes "large_source_time_gap"
clash_name fact_value_conflict = codes "fact_value_conflict"
clash_name polarity_conflict = codes "polarity_conflict"
