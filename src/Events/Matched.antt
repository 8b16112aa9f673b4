-- ===== src/Events/Matched.antt =====
-- The match of two posts does not depend on their order, and what a confident match rests on.
use jeonghan_daily_review_bo.Prelude.{
  ℕ, ◌*◌, ◌≤◌, Text, ◌===◌, ◌≡◌, refl, sym, ap, ◌∙◌, inl, inr, Bool, true, false, not, ◌&&◌, ◌||◌,
  List, [], ◌∷◌, ◌++◌, length, select, any, is_empty, leb, ltb, Bool-cases, arith, if◌then◌else◌,
}
use jeonghan_daily_review_bo.Events.Sets.{===_sym, length-overlap, length-union}
use jeonghan_daily_review_bo.Events.Match.{
  EventFingerprint, Signal, confident_same_event, EventCandidate, Facts, shares, distance,
  is_strong, is_generic, replies, converses, quotes, is_one_type, is_two_types, facts, score,
  signals, conflicts_of, decide, match_fingerprints, candidate, signal_if, direct_reply_relation,
  same_conversation, shared_quoted_reference, shared_external_reference, shared_context_anchor,
  topic_overlap, shared_participants, compatible_event_type, temporal_proximity, topic_points,
  is_near, probable_same_event, ambiguous, separate_event, is_semantic, is_type_conflict, hour,
}

pub shares_sym : (xs ys : List Text) → shares xs ys ≡ shares ys xs
shares_sym xs ys = ap (ltb 0) (length-overlap xs ys)

pub distance_sym : (a b : ℕ) → distance a b ≡ distance b a
distance_sym a b = omega arith

pub swap_first : (a b c : Bool) → (a && b && c) ≡ (b && a && c)
swap_first a b c = ground arith

-- The match of the two posts in the other order.
abbrev pub swapped : EventCandidate → EventCandidate
swapped c = record c { left_update_id = c.right_update_id; right_update_id = c.left_update_id }

module _ (left right : EventFingerprint) where
  replies_sym : replies left right ≡ replies right left
  unfolding replies
  replies_sym = ground arith

  converses_sym : converses left right ≡ converses right left
  unfolding converses
  converses_sym = ground (arith, ===_sym left.conversation_id right.conversation_id)

  quotes_sym : quotes left right ≡ quotes right left
  unfolding quotes
  quotes_sym = ground (arith, ===_sym left.quoted_id right.quoted_id)

  is_one_type_sym : is_one_type left right ≡ is_one_type right left
  unfolding is_one_type
  is_one_type_sym = ground (arith, ===_sym left.event_type right.event_type)

  is_two_types_sym : is_two_types left right ≡ is_two_types right left
  unfolding is_two_types
  is_two_types_sym = rw (===_sym left.event_type right.event_type) (
      swap_first (not (is_generic left.event_type)) (not (is_generic right.event_type))
        (not (right.event_type === left.event_type)))

any-append : (p : Signal → Bool) (xs ys : List Signal) → any p (xs ++ ys) ≡ (any p xs || any p ys)
any-append p [] ys = refl
any-append p (x ∷ xs) ys = ground (arith, any-append p xs ys)

module _ (f : Facts) where
  decide-confident :
      decide f ≡ confident_same_event
      → (any is_strong (signals f) ≡ true) × (is_empty (conflicts_of f) ≡ true)
  unfolding decide
  decide-confident h =
      sure (any is_strong (signals f)) (leb 85 (score f)) (is_empty (conflicts_of f))
        (leb 65 (score f)) (leb 72 (score f)) (leb 2 (length (select is_semantic (signals f))))
        (not (any is_type_conflict (conflicts_of f))) (leb 45 (score f)) h
    where
      sure :
          (a b c d e g i j : Bool)
          → (if a && b && c
              then confident_same_event
              else if a && d
              then probable_same_event
              else if e && g && i
              then probable_same_event
              else if j
              then ambiguous
              else separate_event)
            ≡ confident_same_event
          → (a ≡ true) × (c ≡ true)
      sure a b c d e g i j h = ground arith

  strong-signals :
      any is_strong (signals f)
      ≡ (f.direct_reply || f.one_conversation || f.shared_quote || f.shared_reference)
  unfolding signals
  strong-signals =
      cases f.direct_reply f.one_conversation f.shared_quote f.shared_reference f.shared_anchor
        (ltb 0 (topic_points f)) f.shared_people f.one_type (is_near f)
    where
      cases :
          (a b c d e g h i j : Bool)
          → any is_strong (
              signal_if a direct_reply_relation
              ++ (signal_if b same_conversation
                  ++ (signal_if c shared_quoted_reference
                      ++ (signal_if d shared_external_reference
                          ++ (signal_if e shared_context_anchor
                              ++ (signal_if g topic_overlap
                                  ++ (signal_if h shared_participants
                                      ++ (signal_if i compatible_event_type
                                          ++ signal_if j temporal_proximity))))))))
            ≡ (a || b || c || d)
      cases true b c d e g h i j = refl
      cases false true c d e g h i j = refl
      cases false false true d e g h i j = refl
      cases false false false true e g h i j = refl
      cases false false false false e g h i j = ground arith

  calm-conflicts : is_empty (conflicts_of f) ≡ true → (f.delta ≤ 72 * hour) × (f.two_types ≡ false)
  unfolding conflicts_of
  calm-conflicts h = (ground arith, ground arith)

module _ (moment : Text → ℕ) (left right : EventFingerprint) where
  facts_sym : facts moment left right ≡ facts moment right left
  unfolding facts
  facts_sym =
      rw
        (
          replies_sym left right,
          converses_sym left right,
          quotes_sym left right,
          is_one_type_sym left right,
          is_two_types_sym left right,
          length-overlap left.reference_hashes right.reference_hashes,
          length-overlap left.anchor_hashes right.anchor_hashes,
          length-overlap left.topic_hashes right.topic_hashes,
          length-overlap left.participants right.participants,
          length-union left.topic_hashes right.topic_hashes,
          distance_sym (moment left.created_at) (moment right.created_at),
        )
        refl

  -- The match of two posts in the other order has the same score, signals, conflicts and decision.
  pub match_fingerprints-swapped :
      match_fingerprints moment right left ≡ swapped (match_fingerprints moment left right)
  unfolding match_fingerprints
  match_fingerprints-swapped =
      let other = ===_sym right.update_id left.update_id in
      elim (Bool-cases (left.update_id === right.update_id)) [
        | inl t ↦ rw (other ∙ t, t) refl
        | inr f ↦ rw (other ∙ f, f) (ap (candidate right.update_id left.update_id) (sym facts_sym))
      ]

  -- Whatever two posts say, they are confidently one event only where they are one post, or where one of
  -- them replies to the other, they are of one conversation, quote one post or the other, or link to one
  -- page; they are then at most three days apart, and not of two specific types.
  pub confident-IsRelated :
      (match_fingerprints moment left right).decision ≡ confident_same_event
      → (left.update_id === right.update_id) ≡ false
      → ((replies left right
            || converses left right
            || quotes left right
            || shares left.reference_hashes right.reference_hashes)
          ≡ true)
        × (distance (moment left.created_at) (moment right.created_at) ≤ 72 * hour)
        × (is_two_types left right ≡ false)
  unfolding match_fingerprints facts decide score signals conflicts_of
  confident-IsRelated h other =
      let sure = decide-confident (facts moment left right) (ground arith) in
      let calm = calm-conflicts (facts moment left right) sure.1 in
      (sym (strong-signals (facts moment left right)) ∙ sure.0, calm.0, calm.1)
