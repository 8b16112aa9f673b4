-- ===== src/Events/Best.antt =====
-- The relation that `_best_relation` of app/editorial_order.py gives a group is a best one.
use jeonghan_daily_review_bo.Prelude.{
  ℕ, suc, Text, ◌≡◌, ◌⊎◌, inl, inr, Bool-cases, true, not, ◌||◌, Option, none, some, List, [], ◌∷◌,
  All, All-map, ◌==◌, arith,
}
use jeonghan_daily_review_bo.Events.Match.{EventFingerprint, match_fingerprints}
use jeonghan_daily_review_bo.Events.Related.{
  Relation, is_better, relation, improved, with_posts, with_group, with_groups, best_relation,
}

-- No related pair is better than the best.
abbrev pub IsBest : Option Relation → Relation → Type 0
IsBest none c = (c.rank == 0) ≡ true
IsBest (some b) c = (c.rank == 0 || not (is_better c b)) ≡ true

improved-keeps :
    (best : Option Relation) (c d : Relation) → IsBest best d → IsBest (improved best c) d
improved-keeps none c d h = elim (Bool-cases (c.rank == 0)) [
  | inl t ↦ rw t h
  | inr f ↦ rw f (ground (arith, h))
]
improved-keeps (some b) c d h = elim (Bool-cases (c.rank == 0)) [
  | inl t ↦ rw t h
  | inr f ↦ elim (Bool-cases (is_better c b)) [
    | inl t ↦ rw (f, t) (ground (arith, h))
    | inr g ↦ rw (f, g) h
  ]
]

improved-IsBest : (best : Option Relation) (c : Relation) → IsBest (improved best c) c
improved-IsBest none c = elim (Bool-cases (c.rank == 0)) [
  | inl t ↦ rw t t
  | inr f ↦ rw f (ground arith)
]
improved-IsBest (some b) c = elim (Bool-cases (c.rank == 0)) [
  | inl t ↦ rw t (ground arith)
  | inr f ↦ elim (Bool-cases (is_better c b)) [
    | inl t ↦ rw (f, t) (ground arith)
    | inr g ↦ rw (f, g) (ground (arith, g))
  ]
]

-- What holds of a relation, where there is one.
abbrev pub Holds : (Relation → Type 0) → Option Relation → Type 0
Holds P none = Unit
Holds P (some b) = P b

-- What holds of a relation of posts that match.
abbrev pub IfMatched : (Relation → Type 0) → Relation → Type 0
IfMatched P c = ((c.rank == 0) ≡ true) ⊎ P c

improved-Holds :
    (P : Relation → Type 0) (best : Option Relation) (c : Relation)
    → Holds P best
    → IfMatched P c
    → Holds P (improved best c)
improved-Holds P none c h (inl t) = rw t tt
improved-Holds P (some b) c h (inl t) = rw t h
improved-Holds P none c h (inr g) = elim (Bool-cases (c.rank == 0)) [
  | inl t ↦ rw t tt
  | inr f ↦ rw f g
]
improved-Holds P (some b) c h (inr g) = elim (Bool-cases (c.rank == 0)) [
  | inl t ↦ rw t h
  | inr f ↦ elim (Bool-cases (is_better c b)) [ inl t ↦ rw (f, t) g | inr e ↦ rw (f, e) h ]
]

module _ (moment : Text → ℕ) where
  abbrev pub AllPosts : (Relation → Type 0) → ℕ → List EventFingerprint → EventFingerprint → Type 0
  AllPosts P index prior left =
      All (λ right. P (relation index (match_fingerprints moment left right))) prior

  -- A property of every pair of a post of the group and a post of an earlier group.
  abbrev pub AllPairs :
      (Relation → Type 0) → ℕ → List EventFingerprint → List (List EventFingerprint) → Type 0
  AllPairs P index group [] = Unit
  AllPairs P index group (prior ∷ previous) =
      All (AllPosts P index prior) group × AllPairs P (suc index) group previous

  with_posts-keeps :
      (index : ℕ) (left : EventFingerprint) (rights : List EventFingerprint)
      → (best : Option Relation) (d : Relation) → IsBest best d
      → IsBest (with_posts moment index left rights best) d
  with_posts-keeps index left [] best d h = h
  with_posts-keeps index left (right ∷ rights) best d h =
      let c = relation index (match_fingerprints moment left right) in
      with_posts-keeps index left rights (improved best c) d (improved-keeps best c d h)

  with_group-keeps :
      (index : ℕ) (lefts prior : List EventFingerprint) (best : Option Relation) (d : Relation)
      → IsBest best d
      → IsBest (with_group moment index lefts prior best) d
  with_group-keeps index [] prior best d h = h
  with_group-keeps index (left ∷ lefts) prior best d h =
      with_group-keeps index lefts prior (with_posts moment index left prior best) d
        (with_posts-keeps index left prior best d h)

  with_groups-keeps :
      (index : ℕ) (group : List EventFingerprint) (previous : List (List EventFingerprint))
      → (best : Option Relation) (d : Relation) → IsBest best d
      → IsBest (with_groups moment index group previous best) d
  with_groups-keeps index group [] best d h = h
  with_groups-keeps index group (prior ∷ previous) best d h =
      with_groups-keeps (suc index) group previous (with_group moment index group prior best) d
        (with_group-keeps index group prior best d h)

  with_posts-IsBest :
      (index : ℕ) (left : EventFingerprint) (rights : List EventFingerprint)
      (best : Option Relation)
      → AllPosts (IsBest (with_posts moment index left rights best)) index rights left
  with_posts-IsBest index left [] best = tt
  with_posts-IsBest index left (right ∷ rights) best =
      let c = relation index (match_fingerprints moment left right) in
      (
        with_posts-keeps index left rights (improved best c) c (improved-IsBest best c),
        with_posts-IsBest index left rights (improved best c),
      )

  later_posts :
      (P Q : Relation → Type 0) (index : ℕ) (prior : List EventFingerprint)
      (left : EventFingerprint)
      → ((d : Relation) → P d → Q d)
      → AllPosts P index prior left
      → AllPosts Q index prior left
  later_posts P Q index prior left keep h =
      All-map (λ right. P (relation index (match_fingerprints moment left right)))
        (λ right. Q (relation index (match_fingerprints moment left right))) prior
        (λ right g. keep (relation index (match_fingerprints moment left right)) g) h

  with_group-IsBest :
      (index : ℕ) (lefts prior : List EventFingerprint) (best : Option Relation)
      → All (AllPosts (IsBest (with_group moment index lefts prior best)) index prior) lefts
  with_group-IsBest index [] prior best = tt
  with_group-IsBest index (left ∷ lefts) prior best =
      let next = with_posts moment index left prior best in
      (
        later_posts (IsBest next) (IsBest (with_group moment index lefts prior next)) index prior
            left (with_group-keeps index lefts prior next)
            (with_posts-IsBest index left prior best),
        with_group-IsBest index lefts prior next,
      )

  with_groups-IsBest :
      (index : ℕ) (group : List EventFingerprint) (previous : List (List EventFingerprint))
      → (best : Option Relation)
      → AllPairs (IsBest (with_groups moment index group previous best)) index group previous
  with_groups-IsBest index group [] best = tt
  with_groups-IsBest index group (prior ∷ previous) best =
      let next = with_group moment index group prior best in
      let end = with_groups moment (suc index) group previous next in
      (
        All-map (AllPosts (IsBest next) index prior) (AllPosts (IsBest end) index prior) group
            (λ left.
              later_posts (IsBest next) (IsBest end) index prior left
                (with_groups-keeps (suc index) group previous next))
            (with_group-IsBest index group prior best),
        with_groups-IsBest (suc index) group previous next,
      )

  with_posts-Holds :
      (P : Relation → Type 0) (index : ℕ) (left : EventFingerprint) (rights : List EventFingerprint)
      → (best : Option Relation) → Holds P best
      → AllPosts (IfMatched P) index rights left
      → Holds P (with_posts moment index left rights best)
  with_posts-Holds P index left [] best h g = h
  with_posts-Holds P index left (right ∷ rights) best h g =
      let c = relation index (match_fingerprints moment left right) in
      with_posts-Holds P index left rights (improved best c) (improved-Holds P best c h g.0) g.1

  with_group-Holds :
      (P : Relation → Type 0) (index : ℕ) (lefts prior : List EventFingerprint)
      → (best : Option Relation) → Holds P best
      → All (AllPosts (IfMatched P) index prior) lefts
      → Holds P (with_group moment index lefts prior best)
  with_group-Holds P index [] prior best h g = h
  with_group-Holds P index (left ∷ lefts) prior best h g =
      with_group-Holds P index lefts prior (with_posts moment index left prior best)
        (with_posts-Holds P index left prior best h g.0) g.1

  with_groups-Holds :
      (P : Relation → Type 0) (index : ℕ) (group : List EventFingerprint)
      → (previous : List (List EventFingerprint)) (best : Option Relation) → Holds P best
      → AllPairs (IfMatched P) index group previous
      → Holds P (with_groups moment index group previous best)
  with_groups-Holds P index group [] best h g = h
  with_groups-Holds P index group (prior ∷ previous) best h g =
      with_groups-Holds P (suc index) group previous (with_group moment index group prior best)
        (with_group-Holds P index group prior best h g.0) g.1

  -- The relation of a group to the earlier ones is a best one: no pair of a post of the group and a
  -- post of an earlier group that matches is better, and what holds of every pair that matches holds of
  -- it.
  pub best_relation-IsBest :
      (P : Relation → Type 0) (group : List EventFingerprint)
      → (previous : List (List EventFingerprint)) → AllPairs (IfMatched P) 1 group previous
      → AllPairs (IsBest (best_relation moment group previous)) 1 group previous
        × Holds P (best_relation moment group previous)
  unfolding best_relation
  best_relation-IsBest P group previous h =
      (with_groups-IsBest 1 group previous none, with_groups-Holds P 1 group previous none tt h)
