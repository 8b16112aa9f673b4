-- ===== src/Review/Focus.antt =====
-- The focus of a round of app/source_first_queue.py: which lane is active, through the operations on
-- one round.
use jeonghan_daily_review_bo.Prelude.{
  Text, ◌≡◌, refl, sym, subst, ◌⊎◌, inl, inr, true, false, none, some, List, [], ◌∷◌, any, find,
  is_empty, ◌===◌, text_dec, All, All-rewrite, any-find, any-update_where, arith, Bool-cases,
  Option-cases,
}
use jeonghan_daily_review_bo.Prelude.Table.{lookup, has_key, lookup-key, All-lookup, lookup-has_key}
use jeonghan_daily_review_bo.Prelude.Sort.{any-sort}
use jeonghan_daily_review_bo.Handles.{queue_handle}
use jeonghan_daily_review_bo.Review.Rounds.{
  Draft, active, is_active, with_state, Lane, Round, in_order, lane_le,
}
use jeonghan_daily_review_bo.Review.Activate.{
  is_active_lane, is_next, is_unresolved, focus, turn_to, activate_next,
}

module _ (casefold : Text → Text) where
  -- A source name that the program's normaliser leaves as it is.
  pub record IsSteady (s : Text) : Type 0 where
    pub named : is_empty s ≡ false
    pub fixed : queue_handle casefold s ≡ s

  -- A lane is in the state `active` where the round's active source is its source, and not elsewhere.
  pub record IsTrue (a : Text) (l : Lane) : Type 0 where
    pub state_true : is_active l.state ≡ (l.source === a)
    pub steady : IsSteady l.source

  -- Every lane tells the truth, and an active source has a lane.
  pub record IsFocused (r : Round) : Type 0 where
    pub true_lanes : All (IsTrue r.active_source) r.lanes
    pub has_active :
        (is_empty r.active_source ≡ true) ⊎ (has_key Lane.source r.active_source r.lanes ≡ true)

  pub active_source-IsSteady :
      (a : Text) (ls : List Lane) → All (IsTrue a) ls → has_key Lane.source a ls ≡ true → IsSteady a
  active_source-IsSteady a [] h k = absurd (ground arith)
  active_source-IsSteady a (l ∷ ls) h k = elim (text_dec l.source a) [
    | yes e ↦ subst IsSteady e h.0.steady
    | no n ↦ active_source-IsSteady a ls h.1 (ground arith)
  ]

  pub is_empty-eq : (s : Text) → is_empty s ≡ true → s ≡ []
  is_empty-eq [] h = refl
  is_empty-eq (c ∷ s) h = absurd (ground arith)

  is_empty-has_key :
      (a : Text) (ls : List Lane)
      → All (IsTrue a) ls
      → has_key Lane.source a ls ≡ true
      → is_empty a ≡ false
  is_empty-has_key a ls h k = (active_source-IsSteady a ls h k).named

  pub not_empty : (s : Text) → IsSteady s → (s === []) ≡ false
  not_empty [] t = absurd (ground (arith, t.named))
  not_empty (c ∷ s) t = ground arith

  -- In a round without an active source no lane is active.
  IsTrue-idle : (a : Text) (l : Lane) → is_empty a ≡ true → IsTrue a l → is_active l.state ≡ false
  IsTrue-idle a l e t = ground (arith, t.state_true, t.steady.named, is_empty-eq a e)

  -- Turning to a lane of a round that has no active source.
  focus-IsFocused :
      (r : Round) (s : Text)
      → IsFocused r
      → is_empty r.active_source ≡ true
      → has_key Lane.source s r.lanes ≡ true
      → IsFocused (focus s r)
  unfolding focus
  focus-IsFocused r s h e k = record {
    true_lanes =
        All-rewrite (IsTrue r.active_source) (IsTrue s) (λ l. l.source === s) (with_state active)
          r.lanes (λ l t p. record { state_true = sym p; steady = t.steady })
          (λ l t p. record {
            state_true = rw (p, IsTrue-idle r.active_source l e t) refl;
            steady = t.steady;
          })
          h.true_lanes;
    has_active = inr (
        rw
          (any-update_where (λ l. l.source === s) (λ l. l.source === s) (with_state active) r.lanes
            (λ l. refl))
          k);
  }

  module _ (inbox : List Draft) where
    turn_to-IsFocused :
        (r : Round)
        → IsFocused r
        → is_empty r.active_source ≡ true
        → IsFocused (turn_to inbox (find (is_next inbox r) (in_order r.lanes)) r)
    unfolding turn_to
    turn_to-IsFocused r h e = elim (Option-cases (find (is_next inbox r) (in_order r.lanes))) [
      | inl n ↦ rw n (elim (Bool-cases (any (is_unresolved inbox r) r.lanes)) [
        | inl t ↦ rw t h
        | inr f ↦ rw f (record { true_lanes = h.true_lanes; has_active = h.has_active })
      ])
      | inr (l, found) ↦ rw found (
          focus-IsFocused r l.source h e (
            rw (sym (any-sort lane_le (λ x. x.source === l.source) r.lanes)) (
              any-find (is_next inbox r) (λ x. x.source === l.source) (in_order r.lanes) l found
                (ground arith))))
    ]

    pub activate_next-IsFocused :
        (r : Round) → IsFocused r → IsFocused (activate_next casefold inbox r)
    unfolding activate_next
    activate_next-IsFocused r h =
        elim (Bool-cases (is_empty (queue_handle casefold r.active_source))) [
          | inl t ↦ rw t (turn_to-IsFocused r h (idle t))
          | inr f ↦ rw f h
        ]
      where
        idle :
            is_empty (queue_handle casefold r.active_source) ≡ true
            → is_empty r.active_source ≡ true
        idle t = elim h.has_active [
          | inl e ↦ e
          | inr k ↦ absurd (
              ground (
                arith,
                t,
                (active_source-IsSteady r.active_source r.lanes h.true_lanes k).fixed,
                (active_source-IsSteady r.active_source r.lanes h.true_lanes k).named,
              ))
        ]

  pub active_lane :
      (r : Round)
      → IsFocused r
      → is_empty r.active_source ≡ false
      → IsSteady r.active_source
        × (is_active_lane (lookup Lane.source r.active_source r.lanes) ≡ true)
  active_lane r h f = (
    active_source-IsSteady r.active_source r.lanes h.true_lanes (has h.has_active),
    shown (Option-cases (lookup Lane.source r.active_source r.lanes)),
  )
    where
      has :
          (is_empty r.active_source ≡ true) ⊎ (has_key Lane.source r.active_source r.lanes ≡ true)
          → has_key Lane.source r.active_source r.lanes ≡ true
      has (inl e) = absurd (ground arith)
      has (inr k) = k

      shown :
          (lookup Lane.source r.active_source r.lanes ≡ none)
            ⊎ ((l : Lane) × (lookup Lane.source r.active_source r.lanes ≡ some l))
          → is_active_lane (lookup Lane.source r.active_source r.lanes) ≡ true
      shown (inl n) =
          absurd
            (ground (arith, has h.has_active, lookup-has_key Lane.source r.active_source r.lanes n))
      shown (inr (l, e)) =
          rw
            (
              e,
              (All-lookup Lane.source (IsTrue r.active_source) r.active_source r.lanes l
                  h.true_lanes e).state_true,
              lookup-key Lane.source r.active_source r.lanes l e,
            )
            (ground arith)
