-- ===== src/Events/Match.antt =====
-- `match_fingerprints` of app/event_fusion.py: whether two posts are about the same event. A score is in
-- hundredths, the precision of the code's weights and bounds; what counts against a match is taken off at
-- the end. `moment` is `_created`, in seconds.
use jeonghan_daily_review_bo.Prelude.{
  ℕ, ◌+◌, ◌-◌, ◌*◌, min, max, Text, codes, ◌===◌, Bool, true, false, not, ◌&&◌, ◌||◌, List, [], ◌∷◌,
  ◌++◌, length, select, any, is_empty, leb, ltb, if◌then◌else◌,
}
use jeonghan_daily_review_bo.Events.Sets.{mem, overlap, union}

pub record EventFingerprint : Type 0 where
  pub update_id : Text
  pub source : Text
  pub created_at : Text
  pub event_type : Text
  pub conversation_id : Text
  pub reply_to_id : Text
  pub quoted_id : Text
  pub reference_hashes : List Text
  pub topic_hashes : List Text
  pub anchor_hashes : List Text
  pub participants : List Text

pub data Signal : Type 0 where
  same_update_identity direct_reply_relation same_conversation shared_quoted_reference : Signal
  shared_external_reference shared_context_anchor topic_overlap shared_participants : Signal
  compatible_event_type temporal_proximity : Signal

pub data Conflict : Type 0 where
  large_temporal_gap temporal_gap event_type_conflict : Conflict

pub data Decision : Type 0 where
  confident_same_event probable_same_event ambiguous separate_event : Decision

pub record EventCandidate : Type 0 where
  pub left_update_id : Text
  pub right_update_id : Text
  pub confidence : ℕ
  pub matching_signals : List Signal
  pub conflicts : List Conflict
  pub decision : Decision

-- `_GENERIC_TYPES`
abbrev pub is_generic : Text → Bool
is_generic t =
    mem t (codes "unknown" ∷ codes "official_content" ∷ codes "social_update" ∷ codes "other" ∷ [])

-- `_STRONG_SIGNALS`, and `_SEMANTIC_SIGNALS`.
abbrev pub is_strong : Signal → Bool
is_strong direct_reply_relation = true
is_strong same_conversation = true
is_strong shared_quoted_reference = true
is_strong shared_external_reference = true
is_strong _ = false

abbrev pub is_semantic : Signal → Bool
is_semantic shared_context_anchor = true
is_semantic topic_overlap = true
is_semantic shared_participants = true
is_semantic _ = false

abbrev pub is_type_conflict : Conflict → Bool
is_type_conflict event_type_conflict = true
is_type_conflict _ = false

-- `a and a == b`
abbrev pub names_post : Text → Text → Bool
names_post a b = not (is_empty a) && a === b

abbrev pub shares : List Text → List Text → Bool
shares xs ys = ltb 0 (length (overlap xs ys))

-- The number of seconds between two moments.
abbrev pub distance : ℕ → ℕ → ℕ
distance a b = (a - b) + (b - a)

-- `len(shared) / max(1, len(union)) >= percent / 100`
abbrev pub reaches_ratio : ℕ → ℕ → ℕ → Bool
reaches_ratio percent shared all_of = leb (percent * max 1 all_of) (shared * 100)

-- What a match reads of its two fingerprints.
pub record Facts : Type 0 where
  pub direct_reply : Bool
  pub one_conversation : Bool
  pub shared_quote : Bool
  pub shared_reference : Bool
  pub shared_anchor : Bool
  pub shared_topics : ℕ
  pub union_topics : ℕ
  pub shared_people : Bool
  pub one_type : Bool
  pub two_types : Bool
  pub delta : ℕ

abbrev pub is_threaded : EventFingerprint → Bool
is_threaded fp = not (is_empty fp.conversation_id) && not (fp.conversation_id === fp.update_id)

module _ (left right : EventFingerprint) where
  unfoldable pub replies : Bool
  replies =
      names_post left.reply_to_id right.update_id || names_post right.reply_to_id left.update_id

  unfoldable pub converses : Bool
  converses =
      is_threaded left && is_threaded right && left.conversation_id === right.conversation_id

  unfoldable pub quotes : Bool
  quotes =
      names_post left.quoted_id right.quoted_id
      || names_post left.quoted_id right.update_id
      || names_post right.quoted_id left.update_id

  unfoldable pub is_one_type : Bool
  is_one_type = left.event_type === right.event_type && not (is_generic left.event_type)

  unfoldable pub is_two_types : Bool
  is_two_types =
      not (is_generic left.event_type)
      && not (is_generic right.event_type)
      && not (left.event_type === right.event_type)

abbrev pub hour : ℕ
hour = 3600

abbrev pub points_if : Bool → ℕ → ℕ
points_if t n = if t then n else 0

abbrev pub signal_if : Bool → Signal → List Signal
signal_if t s = if t then s ∷ [] else []

abbrev pub conflict_if : Bool → Conflict → List Conflict
conflict_if t c = if t then c ∷ [] else []

module _ (f : Facts) where
  abbrev pub topic_points : ℕ
  topic_points =
      if leb 3 f.shared_topics && reaches_ratio 28 f.shared_topics f.union_topics
      then 30
      else if leb 2 f.shared_topics && reaches_ratio 22 f.shared_topics f.union_topics
      then 22
      else 0

  abbrev pub near_points : ℕ
  near_points =
      if leb f.delta (2 * hour)
      then 10
      else if leb f.delta (8 * hour)
      then 6
      else if leb f.delta (24 * hour)
      then 3
      else 0

  abbrev pub is_near : Bool
  is_near = leb f.delta (24 * hour)

  abbrev pub is_far : Bool
  is_far = ltb (7 * 24 * hour) f.delta

  abbrev pub is_late : Bool
  is_late = not is_far && ltb (72 * hour) f.delta

  unfoldable pub points : ℕ
  points =
      points_if f.direct_reply 96
      + points_if f.one_conversation 94
      + points_if f.shared_quote 92
      + points_if f.shared_reference 88
      + points_if f.shared_anchor 35
      + topic_points
      + points_if f.shared_people 12
      + points_if f.one_type 6
      + near_points

  unfoldable pub penalty : ℕ
  penalty = points_if is_far 30 + points_if is_late 18 + points_if f.two_types 20

  unfoldable pub signals : List Signal
  signals =
      signal_if f.direct_reply direct_reply_relation
      ++ (signal_if f.one_conversation same_conversation
          ++ (signal_if f.shared_quote shared_quoted_reference
              ++ (signal_if f.shared_reference shared_external_reference
                  ++ (signal_if f.shared_anchor shared_context_anchor
                      ++ (signal_if (ltb 0 topic_points) topic_overlap
                          ++ (signal_if f.shared_people shared_participants
                              ++ (signal_if f.one_type compatible_event_type
                                  ++ signal_if is_near temporal_proximity)))))))

  unfoldable pub conflicts_of : List Conflict
  conflicts_of =
      conflict_if is_far large_temporal_gap
      ++ (conflict_if is_late temporal_gap ++ conflict_if f.two_types event_type_conflict)

  -- `round(max(0.0, min(1.0, score)), 3)`
  unfoldable pub score : ℕ
  unfolding points penalty
  score = min 100 (points - penalty)

  unfoldable pub decide : Decision
  unfolding score signals conflicts_of
  decide =
      let strong = any is_strong signals in
      if strong && leb 85 score && is_empty conflicts_of
      then confident_same_event
      else if strong && leb 65 score
      then probable_same_event
      else if leb 72 score
          && leb 2 (length (select is_semantic signals))
          && not (any is_type_conflict conflicts_of)
      then probable_same_event
      else if leb 45 score
      then ambiguous
      else separate_event

abbrev pub candidate : Text → Text → Facts → EventCandidate
unfolding score signals conflicts_of decide
candidate left_id right_id f = record {
  left_update_id = left_id;
  right_update_id = right_id;
  confidence = score f;
  matching_signals = signals f;
  conflicts = conflicts_of f;
  decision = decide f;
}

module _ (moment : Text → ℕ) where
  unfoldable pub facts : EventFingerprint → EventFingerprint → Facts
  unfolding replies converses quotes is_one_type is_two_types
  facts left right = record {
    direct_reply = replies left right;
    one_conversation = converses left right;
    shared_quote = quotes left right;
    shared_reference = shares left.reference_hashes right.reference_hashes;
    shared_anchor = shares left.anchor_hashes right.anchor_hashes;
    shared_topics = length (overlap left.topic_hashes right.topic_hashes);
    union_topics = length (union left.topic_hashes right.topic_hashes);
    shared_people = shares left.participants right.participants;
    one_type = is_one_type left right;
    two_types = is_two_types left right;
    delta = distance (moment left.created_at) (moment right.created_at);
  }

  unfoldable pub match_fingerprints : EventFingerprint → EventFingerprint → EventCandidate
  unfolding facts score signals conflicts_of decide
  match_fingerprints left right =
      if left.update_id === right.update_id
      then record {
        left_update_id = left.update_id;
        right_update_id = right.update_id;
        confidence = 100;
        matching_signals = same_update_identity ∷ [];
        conflicts = [];
        decision = confident_same_event;
      }
      else candidate left.update_id right.update_id (facts left right)
