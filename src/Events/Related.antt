-- ===== src/Events/Related.antt =====
-- `_best_relation` of app/editorial_order.py: the earlier group of posts that a group belongs to. A group is the
-- list of the fingerprints of its posts.
use jeonghan_daily_review_bo.Prelude.{
  ℕ, suc, Text, Bool, ◌&&◌, ◌||◌, Option, none, some, List, [], ◌∷◌, ltb, ◌==◌, if◌then◌else◌,
}
use jeonghan_daily_review_bo.Events.Match.{
  EventFingerprint, EventCandidate, Decision, confident_same_event, probable_same_event, ambiguous,
  separate_event, match_fingerprints,
}

pub record Relation : Type 0 where
  pub rank : ℕ
  pub confidence : ℕ
  pub index : ℕ
  pub decision : Decision

-- `_RELATION_RANK`
abbrev pub rank_of : Decision → ℕ
rank_of confident_same_event = 2
rank_of probable_same_event = 1
rank_of ambiguous = 0
rank_of separate_event = 0

-- `candidate[:2] > best[:2]`
abbrev pub is_better : Relation → Relation → Bool
is_better a b = ltb b.rank a.rank || a.rank == b.rank && ltb b.confidence a.confidence

-- The best relation so far, after one more.
abbrev pub better_of : Option Relation → Relation → Option Relation
better_of none c = some c
better_of (some b) c = if is_better c b then some c else some b

abbrev pub relation : ℕ → EventCandidate → Relation
relation index m = record {
  rank = rank_of m.decision;
  confidence = m.confidence;
  index = index;
  decision = m.decision;
}

abbrev pub improved : Option Relation → Relation → Option Relation
improved best c = if c.rank == 0 then best else better_of best c

module _ (moment : Text → ℕ) where
  abbrev pub with_posts :
      ℕ → EventFingerprint → List EventFingerprint → Option Relation → Option Relation
  with_posts index left [] best = best
  with_posts index left (right ∷ rights) best =
      with_posts index left rights
        (improved best (relation index (match_fingerprints moment left right)))

  abbrev pub with_group :
      ℕ → List EventFingerprint → List EventFingerprint → Option Relation → Option Relation
  with_group index [] prior best = best
  with_group index (left ∷ lefts) prior best =
      with_group index lefts prior (with_posts index left prior best)

  abbrev pub with_groups :
      ℕ → List EventFingerprint → List (List EventFingerprint) → Option Relation → Option Relation
  with_groups index group [] best = best
  with_groups index group (prior ∷ previous) best =
      with_groups (suc index) group previous (with_group index group prior best)

  -- The number of the group, from 1, and the decision.
  unfoldable pub best_relation :
      List EventFingerprint → List (List EventFingerprint) → Option Relation
  best_relation group previous = with_groups 1 group previous none
