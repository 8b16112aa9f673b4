-- ===== src/Events/Segments.antt =====
-- `match_segment_fingerprints` of app/event_timeline.py: whether two posts of one event are about the same
-- moment of it. A score is in hundredths; `moment` is `_created`, in seconds.
use jeonghan_daily_review_bo.Prelude.{
  ℕ, ◌+◌, ◌-◌, ◌*◌, min, Text, ◌===◌, text_le, Bool, true, false, not, ◌&&◌, ◌||◌, Option, none,
  some, List, [], ◌∷◌, ◌++◌, length, select, any, is_empty, leb, ltb, ◌==◌, if◌then◌else◌,
}
use jeonghan_daily_review_bo.Events.Sets.{mem, overlap, union}
use jeonghan_daily_review_bo.Events.Match.{
  names_post, shares, distance, reaches_ratio, points_if, hour,
}
use jeonghan_daily_review_bo.Prelude.Sort.{sort}
use jeonghan_daily_review_bo.Events.Clues.{
  SegmentFingerprint, Clue, same_update_identity, direct_reply_relation, shared_quoted_reference,
  shared_media_reference, same_content_timestamp, near_content_timestamp, shared_clip_reference,
  shared_container_reference, same_question_anchor, same_part_number, adjacent_part_sequence,
  same_conversation, topic_overlap, shared_spoken_text_anchor, shared_participants,
  temporal_proximity, same_event_type, Clash, different_event, content_timestamp_mismatch,
  different_question, distant_part_sequence, large_source_time_gap, fact_value_conflict,
  polarity_conflict, Relationship, conflicting, same_moment, continuation, complementary, ambiguous,
  separate, SegmentCandidate, is_strong_clue, is_supporting, is_reply_or_thread, is_unresolved,
  is_time_clash, is_question_clash, Moments, clue_name, clash_name,
}

abbrev pub both {ℓ} : {A : Type ℓ} → Option ℕ → Option ℕ → (ℕ → ℕ → A) → Option A
both (some a) (some b) f = some (f a b)
both (some a) none f = none
both none b f = none

abbrev pub is_at : (ℕ → Bool) → Option ℕ → Bool
is_at p none = false
is_at p (some n) = p n

abbrev pub has_thread : SegmentFingerprint → Bool
has_thread fp = not (is_empty fp.conversation_id) && not (fp.conversation_id === fp.update_id)

module _ (left right : SegmentFingerprint) where
  unfoldable pub segment_replies : Bool
  segment_replies =
      names_post left.reply_to_id right.update_id || names_post right.reply_to_id left.update_id

  unfoldable pub segment_quotes : Bool
  segment_quotes =
      names_post left.quoted_id right.quoted_id
      || names_post left.quoted_id right.update_id
      || names_post right.quoted_id left.update_id

  unfoldable pub segment_converses : Bool
  segment_converses =
      has_thread left && has_thread right && left.conversation_id === right.conversation_id

  unfoldable pub both_ask : Bool
  both_ask = not (is_empty left.question_hashes) && not (is_empty right.question_hashes)

  unfoldable pub facts_differ : Bool
  facts_differ =
      not (is_empty left.fact_numbers)
      && not (is_empty right.fact_numbers)
      && not (shares left.fact_numbers right.fact_numbers)

  unfoldable pub negation_differs : Bool
  negation_differs = if left.has_negation then not right.has_negation else right.has_negation

-- A reference that both have and that is not one of the container.
unfoldable pub shares_moment : List Text → List Text → List Text → Bool
shares_moment container xs ys = any (λ x. not (mem x container)) (overlap xs ys)

abbrev pub clue_if : Bool → Clue → List Clue
clue_if t s = if t then s ∷ [] else []

abbrev pub clash_if : Bool → Clash → List Clash
clash_if t s = if t then s ∷ [] else []

module _ (m : Moments) where
  abbrev pub is_same_time : Bool
  is_same_time = is_at (λ n. leb n 15) m.timestamps

  abbrev pub is_other_time : Bool
  is_other_time = is_at (λ n. ltb 120 n) m.timestamps

  abbrev pub is_near_time : Bool
  is_near_time = is_at (λ n. ltb 15 n && leb n 120) m.timestamps

  abbrev pub is_container_only : Bool
  is_container_only = not m.moment_reference && m.shared_reference

  abbrev pub is_other_question : Bool
  is_other_question = not m.shared_question && m.both_questions

  abbrev pub is_distant_part : Bool
  is_distant_part = is_at (λ n. ltb 2 n) m.parts

  abbrev pub topic_score : ℕ
  topic_score =
      if leb 3 m.shared_topics && reaches_ratio 28 m.shared_topics m.union_topics
      then 28
      else if leb 2 m.shared_topics && reaches_ratio 20 m.shared_topics m.union_topics
      then 18
      else 0

  abbrev pub time_score : ℕ
  time_score = if leb m.delta 900 then 8 else if leb m.delta (2 * hour) then 4 else 0

  unfoldable pub gains : ℕ
  gains =
      points_if m.direct_reply 94
      + points_if m.shared_quote 98
      + points_if m.shared_media 97
      + points_if is_same_time 95
      + points_if is_near_time 22
      + points_if m.moment_reference 90
      + points_if is_container_only 4
      + points_if m.shared_question 90
      + points_if (is_at (λ n. n == 0) m.parts) 62
      + points_if (is_at (λ n. n == 1) m.parts) 48
      + points_if m.one_conversation 50
      + topic_score
      + points_if m.shared_text 30
      + points_if m.shared_people 10
      + time_score
      + points_if m.one_type 2

  unfoldable pub losses : ℕ
  losses =
      points_if is_other_time 35
      + points_if is_other_question 30
      + points_if is_distant_part 18
      + points_if (ltb (24 * hour) m.delta) 20

  unfoldable pub clues : List Clue
  clues =
      clue_if m.direct_reply direct_reply_relation
      ++ (clue_if m.shared_quote shared_quoted_reference
          ++ (clue_if m.shared_media shared_media_reference
              ++ (clue_if is_same_time same_content_timestamp
                  ++ (clue_if is_near_time near_content_timestamp
                      ++ (clue_if m.moment_reference shared_clip_reference
                          ++ (clue_if is_container_only shared_container_reference
                              ++ (clue_if m.shared_question same_question_anchor
                                  ++ (clue_if (is_at (λ n. n == 0) m.parts) same_part_number
                                      ++ (clue_if (is_at (λ n. n == 1) m.parts)
                                            adjacent_part_sequence
                                          ++ (clue_if m.one_conversation same_conversation
                                              ++ (clue_if (ltb 0 topic_score) topic_overlap
                                                  ++ (clue_if m.shared_text
                                                        shared_spoken_text_anchor
                                                      ++ (clue_if m.shared_people
                                                            shared_participants
                                                          ++ (clue_if (ltb 0 time_score)
                                                            temporal_proximity
                                                            ++ clue_if m.one_type
                                                            same_event_type))))))))))))))

  -- `same_moment_anchor`
  abbrev pub is_anchored : Bool
  unfolding clues
  is_anchored = any is_strong_clue clues

  abbrev pub differs_in_sense : Bool
  differs_in_sense = m.negations_differ && (ltb 0 topic_score || m.shared_text)

  unfoldable pub clashes : List Clash
  unfolding clues
  clashes =
      clash_if is_other_time content_timestamp_mismatch
      ++ (clash_if is_other_question different_question
          ++ (clash_if is_distant_part distant_part_sequence
              ++ (clash_if (ltb (24 * hour) m.delta) large_source_time_gap
                  ++ (clash_if (is_anchored && m.facts_disjoint) fact_value_conflict
                      ++ clash_if (is_anchored && differs_in_sense) polarity_conflict))))

  unfoldable pub segment_score : ℕ
  unfolding gains losses
  segment_score = min 100 (gains - losses)

  unfoldable pub relate : Relationship × Bool
  unfolding clues clashes segment_score
  relate =
      let on_time = not (any is_time_clash clashes) in
      let one_question = not (any is_question_clash clashes) in
      let continues = any is_reply_or_thread clues && leb 1 (length (select is_supporting clues)) in
      if is_anchored && any is_unresolved clashes && on_time
      then (conflicting, true)
      else if is_anchored && leb 78 segment_score && on_time && one_question
      then (same_moment, true)
      else if m.direct_reply && leb 80 segment_score && on_time
      then (continuation, true)
      else if continues && leb 82 segment_score && one_question && on_time
      then (continuation, true)
      else if continues && leb 55 segment_score
      then (complementary, false)
      else if leb 45 segment_score || is_anchored
      then (ambiguous, false)
      else (separate, false)

abbrev pub segment_candidate : Text → Text → Moments → SegmentCandidate
unfolding text_le clues clashes segment_score relate
segment_candidate left_id right_id m = record {
  left_update_id = left_id;
  right_update_id = right_id;
  confidence = segment_score m;
  matching_signals = sort (λ a b. text_le (clue_name a) (clue_name b)) (clues m);
  conflicts = sort (λ a b. text_le (clash_name a) (clash_name b)) (clashes m);
  relationship = (relate m).0;
  same_segment = (relate m).1;
}

abbrev pub settled :
    Text → Text → ℕ → List Clue → List Clash → Relationship → Bool → SegmentCandidate
settled left_id right_id score signals conflicts relation same = record {
  left_update_id = left_id;
  right_update_id = right_id;
  confidence = score;
  matching_signals = signals;
  conflicts = conflicts;
  relationship = relation;
  same_segment = same;
}

module _ (moment : Text → ℕ) (container : List Text) where
  unfoldable pub moments : SegmentFingerprint → SegmentFingerprint → Moments
  unfolding segment_replies segment_quotes segment_converses both_ask facts_differ negation_differs
      shares_moment
  moments left right = record {
    direct_reply = segment_replies left right;
    shared_quote = segment_quotes left right;
    shared_media = shares left.media_hashes right.media_hashes;
    timestamps = both left.content_timestamp_seconds right.content_timestamp_seconds distance;
    moment_reference = shares_moment container left.reference_hashes right.reference_hashes;
    shared_reference = shares left.reference_hashes right.reference_hashes;
    shared_question = shares left.question_hashes right.question_hashes;
    both_questions = both_ask left right;
    parts = both left.part_number right.part_number distance;
    one_conversation = segment_converses left right;
    shared_topics = length (overlap left.topic_hashes right.topic_hashes);
    union_topics = length (union left.topic_hashes right.topic_hashes);
    shared_text = shares left.text_anchor_hashes right.text_anchor_hashes;
    shared_people = shares left.participants right.participants;
    delta = distance (moment left.created_at) (moment right.created_at);
    one_type = left.event_type === right.event_type;
    facts_disjoint = facts_differ left right;
    negations_differ = negation_differs left right;
  }

  unfoldable pub match_segment_fingerprints :
      SegmentFingerprint → SegmentFingerprint → SegmentCandidate
  unfolding text_le moments clues clashes segment_score relate
  match_segment_fingerprints left right =
      if not (left.event_id === right.event_id)
      then settled left.update_id right.update_id 0 [] (different_event ∷ []) separate false
      else if left.update_id === right.update_id
      then settled left.update_id right.update_id 100 (same_update_identity ∷ []) [] same_moment
          true
      else segment_candidate left.update_id right.update_id (moments left right)
