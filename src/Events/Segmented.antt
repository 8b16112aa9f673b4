-- ===== src/Events/Segmented.antt =====
-- The match of two posts of a timeline does not depend on their order, and what puts two posts into one
-- segment.
use jeonghan_daily_review_bo.Prelude.{
  ℕ, ◌*◌, Text, ◌===◌, ◌≡◌, refl, sym, ap, ◌∙◌, Bool, true, false, not, ◌&&◌, ◌||◌, Option, none,
  some, List, [], ◌∷◌, ◌++◌, length, select, any-select, any, is_empty, leb, ltb, Bool-cases, inl,
  inr, arith, text_dec, if◌then◌else◌,
}
use jeonghan_daily_review_bo.Events.Sets.{mem, distinct, ===_sym, length-overlap, length-union}
use jeonghan_daily_review_bo.Events.Match.{shares, distance, hour}
use jeonghan_daily_review_bo.Events.Matched.{distance_sym, swap_first}
use jeonghan_daily_review_bo.Events.Clues.{
  content_timestamp_mismatch, different_question, distant_part_sequence, large_source_time_gap,
  fact_value_conflict, polarity_conflict, SegmentFingerprint, SegmentCandidate, Moments,
  Relationship, conflicting, same_moment, continuation, complementary, ambiguous, separate,
  is_time_clash, is_question_clash, is_unresolved, is_reply_or_thread, is_supporting,
}
use jeonghan_daily_review_bo.Events.Segments.{
  both, is_at, segment_replies, segment_quotes, segment_converses, both_ask, facts_differ,
  negation_differs, shares_moment, moments, match_segment_fingerprints, relate, clues, clashes,
  segment_candidate, segment_score, is_anchored, is_other_time, is_other_question, is_distant_part,
  differs_in_sense, clash_if,
}

both_sym : (a b : Option ℕ) → both a b distance ≡ both b a distance
both_sym none none = refl
both_sym none (some b) = refl
both_sym (some a) none = refl
both_sym (some a) (some b) = ap some (distance_sym a b)

module _ (p : Text → Bool) where
  any-none : (ys : List Text) → any (λ y. mem y [] && p y) ys ≡ false
  any-none [] = refl
  any-none (y ∷ ys) = any-none ys

  any-cons :
      (x : Text) (xs ys : List Text)
      → any (λ y. mem y (x ∷ xs) && p y) ys ≡ (mem x ys && p x || any (λ y. mem y xs && p y) ys)
  any-cons x xs [] = refl
  any-cons x xs (y ∷ ys) = elim (text_dec x y) [
    | yes e ↦ ground (arith, ===_sym x y, ap p e, any-cons x xs ys)
    | no n ↦ ground (arith, ===_sym x y, any-cons x xs ys)
  ]

  any_sym : (xs ys : List Text) → any (λ x. mem x ys && p x) xs ≡ any (λ y. mem y xs && p y) ys
  any_sym [] ys = sym (any-none ys)
  any_sym (x ∷ xs) ys = ground (arith, any-cons x xs ys, any_sym xs ys)

shares_moment_sym :
    (container xs ys : List Text) → shares_moment container xs ys ≡ shares_moment container ys xs
unfolding shares_moment
shares_moment_sym container xs ys =
    let outside = λ (x : Text). not (mem x container) in
    any-select outside (λ x. mem x (distinct ys)) (distinct xs)
    ∙ any_sym outside (distinct xs) (distinct ys)
    ∙ sym (any-select outside (λ y. mem y (distinct xs)) (distinct ys))

module _ (left right : SegmentFingerprint) where
  segment_replies_sym : segment_replies left right ≡ segment_replies right left
  unfolding segment_replies
  segment_replies_sym = ground arith

  segment_quotes_sym : segment_quotes left right ≡ segment_quotes right left
  unfolding segment_quotes
  segment_quotes_sym = ground (arith, ===_sym left.quoted_id right.quoted_id)

  segment_converses_sym : segment_converses left right ≡ segment_converses right left
  unfolding segment_converses
  segment_converses_sym = ground (arith, ===_sym left.conversation_id right.conversation_id)

  both_ask_sym : both_ask left right ≡ both_ask right left
  unfolding both_ask
  both_ask_sym = ground arith

  facts_differ_sym : facts_differ left right ≡ facts_differ right left
  unfolding facts_differ
  facts_differ_sym = rw (length-overlap left.fact_numbers right.fact_numbers) (
      swap_first (not (is_empty left.fact_numbers)) (not (is_empty right.fact_numbers))
        (not (shares right.fact_numbers left.fact_numbers)))

  negation_differs_sym : negation_differs left right ≡ negation_differs right left
  unfolding negation_differs
  negation_differs_sym = ground arith

-- The match of the two posts in the other order.
abbrev pub turned : SegmentCandidate → SegmentCandidate
turned c = record c { left_update_id = c.right_update_id; right_update_id = c.left_update_id }

abbrev is_one : Relationship × Bool → Bool
is_one r = r.1

module _ (m : Moments) where
  -- What puts two posts into one segment: a signal of one moment, a reply, a thread or a next part.
  abbrev pub is_linked : Bool
  unfolding clues
  is_linked = is_anchored m || m.direct_reply || any is_reply_or_thread (clues m)

  relate-same : (relate m).1 ≡ true → (any is_time_clash (clashes m) ≡ false) × (is_linked ≡ true)
  unfolding relate
  relate-same h =
      sure (is_anchored m) m.direct_reply (any is_reply_or_thread (clues m))
        (any is_unresolved (clashes m)) (any is_time_clash (clashes m))
        (any is_question_clash (clashes m)) (leb 1 (length (select is_supporting (clues m))))
        (leb 78 (segment_score m)) (leb 80 (segment_score m)) (leb 82 (segment_score m))
        (leb 55 (segment_score m)) (leb 45 (segment_score m)) h
    where
      sure :
          (a r c u t q e g i j k l : Bool)
          → is_one (
              if a && u && not t
              then (conflicting, true)
              else if a && g && not t && not q
              then (same_moment, true)
              else if r && i && not t
              then (continuation, true)
              else if c && e && j && not q && not t
              then (continuation, true)
              else if c && e && k
              then (complementary, false)
              else if l || a
              then (ambiguous, false)
              else (separate, false))
            ≡ true
          → (t ≡ false) × ((a || r || c) ≡ true)
      sure a r c u t q e g i j k l h = ground arith

  time_clash_lem : any is_time_clash (clashes m) ≡ is_other_time m
  unfolding clashes
  time_clash_lem =
      cases (is_other_time m) (is_other_question m) (is_distant_part m) (ltb (24 * hour) m.delta)
        (is_anchored m && m.facts_disjoint) (is_anchored m && differs_in_sense m)
    where
      cases :
          (a b c d e g : Bool)
          → any is_time_clash (
              clash_if a content_timestamp_mismatch
              ++ (clash_if b different_question
                  ++ (clash_if c distant_part_sequence
                      ++ (clash_if d large_source_time_gap
                          ++ (clash_if e fact_value_conflict ++ clash_if g polarity_conflict)))))
            ≡ a
      cases a b c d e g = ground arith

module _ (moment : Text → ℕ) (container : List Text) (left right : SegmentFingerprint) where
  moments_sym : moments moment container left right ≡ moments moment container right left
  unfolding moments
  moments_sym =
      rw
        (
          segment_replies_sym left right,
          segment_quotes_sym left right,
          segment_converses_sym left right,
          both_ask_sym left right,
          facts_differ_sym left right,
          negation_differs_sym left right,
          shares_moment_sym container left.reference_hashes right.reference_hashes,
          both_sym left.content_timestamp_seconds right.content_timestamp_seconds,
          both_sym left.part_number right.part_number,
          ===_sym left.event_type right.event_type,
          length-overlap left.media_hashes right.media_hashes,
          length-overlap left.reference_hashes right.reference_hashes,
          length-overlap left.question_hashes right.question_hashes,
          length-overlap left.topic_hashes right.topic_hashes,
          length-overlap left.text_anchor_hashes right.text_anchor_hashes,
          length-overlap left.participants right.participants,
          length-union left.topic_hashes right.topic_hashes,
          distance_sym (moment left.created_at) (moment right.created_at),
        )
        refl

  -- The match of two posts in the other order has the same score, signals, conflicts and relationship.
  pub match_segment_fingerprints-turned :
      match_segment_fingerprints moment container right left
      ≡ turned (match_segment_fingerprints moment container left right)
  unfolding match_segment_fingerprints
  match_segment_fingerprints-turned =
      let event = ===_sym right.event_id left.event_id in
      let post = ===_sym right.update_id left.update_id in
      elim (Bool-cases (left.event_id === right.event_id)) [
        | inl t ↦ elim (Bool-cases (left.update_id === right.update_id)) [
          | inl u ↦ rw (event ∙ t, t, post ∙ u, u) refl
          | inr g ↦
              rw (event ∙ t, t, post ∙ g, g)
                (ap (segment_candidate right.update_id left.update_id) (sym moments_sym))
        ]
        | inr f ↦ rw (event ∙ f, f) refl
      ]

  -- Two different posts are put into one segment only where they are of one event, their timestamps in
  -- the content, where both have one, are at most two minutes apart, and they share a signal of one
  -- moment, or one replies to the other, continues its thread or is the next part.
  pub same_segment-IsLinked :
      (match_segment_fingerprints moment container left right).same_segment ≡ true
      → (left.update_id === right.update_id) ≡ false
      → ((left.event_id === right.event_id) ≡ true)
        × (is_at
              (λ n. ltb 120 n)
              (both left.content_timestamp_seconds right.content_timestamp_seconds distance)
            ≡ false)
        × (is_linked (moments moment container left right) ≡ true)
  unfolding match_segment_fingerprints moments
  same_segment-IsLinked h other = elim (Bool-cases (left.event_id === right.event_id)) [
    | inl t ↦
        let whole : (match_segment_fingerprints moment container left right).same_segment
            ≡ (relate (moments moment container left right)).1 =
          rw (t, other) refl in
        let linked = relate-same (moments moment container left right) (sym whole ∙ h) in
        (t, sym (time_clash_lem (moments moment container left right)) ∙ linked.0, linked.1)
    | inr f ↦
        let gone : (match_segment_fingerprints moment container left right).same_segment ≡ false =
          rw f refl in
        absurd (ground (arith, gone, h))
  ]
