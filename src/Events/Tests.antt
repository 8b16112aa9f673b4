-- ===== src/Events/Tests.antt =====
-- Concrete matches, and an instance of each property of them.
use jeonghan_daily_review_bo.Prelude.{
  ℕ, ◌≤◌, ◌*◌, Text, codes, ◌===◌, ◌≡◌, refl, inr, true, false, ◌||◌, Option, none, some, [], ◌∷◌,
  ltb, text_dec,
}
use jeonghan_daily_review_bo.Events.Match.{
  confident_same_event, EventFingerprint, shares, distance, hour, facts, replies, converses, quotes,
  is_one_type, is_two_types, points, penalty, score, signals, conflicts_of, decide,
  match_fingerprints,
}
use jeonghan_daily_review_bo.Events.Matched.{
  swapped, match_fingerprints-swapped, confident-IsRelated,
}
use jeonghan_daily_review_bo.Events.Related.{best_relation}
use jeonghan_daily_review_bo.Events.Best.{IsBest, AllPairs, Holds, best_relation-IsBest}
use jeonghan_daily_review_bo.Events.Clues.{SegmentFingerprint}
use jeonghan_daily_review_bo.Events.Segments.{
  both, is_at, moments, segment_replies, segment_quotes, segment_converses, both_ask, facts_differ,
  negation_differs, shares_moment, gains, losses, clues, clashes, segment_score, relate,
  match_segment_fingerprints,
}
use jeonghan_daily_review_bo.Events.Segmented.{
  turned, is_linked, match_segment_fingerprints-turned, same_segment-IsLinked,
}

abbrev print : Text → Text → Text → EventFingerprint
print id reply kind = record {
  update_id = id;
  source = codes "pledis_17";
  created_at = id;
  event_type = kind;
  conversation_id = id;
  reply_to_id = reply;
  quoted_id = [];
  reference_hashes = codes "r1" ∷ [];
  topic_hashes = codes "t1" ∷ codes "t2" ∷ [];
  anchor_hashes = [];
  participants = codes "dk" ∷ [];
}

abbrev live : EventFingerprint
live = print (codes "1") [] (codes "live")

abbrev reply : EventFingerprint
reply = print (codes "2") (codes "1") (codes "live")

abbrev no_moment : Text → ℕ
no_moment t = 5

abbrev segment : Text → Text → Option ℕ → SegmentFingerprint
segment id reply_id at = record {
  update_id = id;
  event_id = codes "evt:1";
  source = codes "pledis_17";
  created_at = id;
  event_type = codes "live";
  language = codes "ko";
  conversation_id = id;
  reply_to_id = reply_id;
  quoted_id = [];
  reference_hashes = codes "r1" ∷ [];
  topic_hashes = codes "t1" ∷ [];
  participants = [];
  content_timestamp_seconds = at;
  timestamp_kind = [];
  part_number = none;
  question_hashes = [];
  media_hashes = [];
  text_anchor_hashes = [];
  fact_numbers = [];
  has_negation = false;
}

abbrev first : SegmentFingerprint
first = segment (codes "1") [] (some 60)

abbrev second : SegmentFingerprint
second = segment (codes "2") (codes "1") (some 70)

match_fingerprints-swapped_example :
    match_fingerprints no_moment reply live ≡ swapped (match_fingerprints no_moment live reply)
match_fingerprints-swapped_example = match_fingerprints-swapped no_moment live reply

confident-IsRelated_example :
    ((replies live reply
        || converses live reply
        || quotes live reply
        || shares live.reference_hashes reply.reference_hashes)
      ≡ true)
    × (distance (no_moment live.created_at) (no_moment reply.created_at) ≤ 72 * hour)
    × (is_two_types live reply ≡ false)
unfolding match_fingerprints facts replies converses quotes is_one_type is_two_types points penalty
    score signals conflicts_of decide text_dec
confident-IsRelated_example = confident-IsRelated no_moment live reply refl refl

match_segment_fingerprints-turned_example :
    match_segment_fingerprints no_moment [] second first
    ≡ turned (match_segment_fingerprints no_moment [] first second)
match_segment_fingerprints-turned_example =
    match_segment_fingerprints-turned no_moment [] first second

same_segment-IsLinked_example :
    ((first.event_id === second.event_id) ≡ true)
    × (is_at
          (λ n. ltb 120 n)
          (both first.content_timestamp_seconds second.content_timestamp_seconds distance)
        ≡ false)
    × (is_linked (moments no_moment [] first second) ≡ true)
unfolding match_segment_fingerprints moments segment_replies segment_quotes segment_converses
    both_ask facts_differ negation_differs shares_moment gains losses clues clashes segment_score
    relate text_dec
same_segment-IsLinked_example = same_segment-IsLinked no_moment [] first second refl refl

best_relation-IsBest_example :
    AllPairs no_moment
      (IsBest (best_relation no_moment (reply ∷ []) ((live ∷ []) ∷ [])))
      1
      (reply ∷ [])
      ((live ∷ []) ∷ [])
    × Holds (λ r. r.index ≡ 1) (best_relation no_moment (reply ∷ []) ((live ∷ []) ∷ []))
best_relation-IsBest_example =
    best_relation-IsBest no_moment (λ r. r.index ≡ 1) (reply ∷ []) ((live ∷ []) ∷ [])
      (((inr refl, tt), tt), tt)

related_to_first :
    best_relation no_moment (reply ∷ []) ((live ∷ []) ∷ [])
    ≡ some (record { rank = 2; confidence = 100; index = 1; decision = confident_same_event })
unfolding best_relation match_fingerprints facts replies converses quotes is_one_type is_two_types
    points penalty score signals conflicts_of decide text_dec
related_to_first = refl
