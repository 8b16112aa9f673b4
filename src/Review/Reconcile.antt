-- ===== src/Review/Reconcile.antt =====
-- `_reconcile_states` of app/source_first_queue.py keeps the focus of a round.
use jeonghan_daily_review_bo.Prelude.{
  ℕ, Text, ◌≡◌, refl, ap, ◌⊎◌, inl, inr, true, false, ◌&&◌, List, [], is_empty, ◌===◌, text_dec,
  ltb, All-image, any-map, arith, Bool-cases,
}
use jeonghan_daily_review_bo.Prelude.Table.{lookup}
use jeonghan_daily_review_bo.Review.Rounds.{
  Draft, LaneState, pending, active, deferred, complete, is_active, with_state, Lane, Round,
  pending_of,
}
use jeonghan_daily_review_bo.Review.Activate.{
  next_state, reconcile_lanes, is_active_lane, drop_stale, reconcile_states,
}
use jeonghan_daily_review_bo.Review.Focus.{
  IsSteady, IsTrue, IsFocused, is_empty-eq, not_empty, active_lane,
}

module _ (casefold : Text → Text) (inbox : List Draft) where
  next_state-is_active :
      (n : ℕ) (st : LaneState) → is_active (next_state n st) ≡ (ltb 0 n && is_active st)
  next_state-is_active n pending = ground arith
  next_state-is_active n active = ground arith
  next_state-is_active n deferred = ground arith
  next_state-is_active n complete = ground arith

  -- A lane's state after the loop, by what is pending of its source.
  abbrev reconciled : Round → Lane → Lane
  reconciled r l = with_state (next_state (pending_of inbox r l.source) l.state) l

  IsTrue-reconciled :
      (r : Round) (a : Text) (l : Lane)
      → IsTrue casefold r.active_source l
      → ((l.source === a) ≡ (l.source === r.active_source && ltb 0 (pending_of inbox r l.source)))
      → IsTrue casefold a (reconciled r l)
  IsTrue-reconciled r a l t e = record {
    state_true =
        ground (arith, next_state-is_active (pending_of inbox r l.source) l.state, t.state_true, e);
    steady = t.steady;
  }

  -- The rounds that the two steps of `_reconcile_states` give.
  busy_lanes :
      (r : Round)
      → ltb 0 (pending_of inbox r r.active_source) ≡ true
      → IsFocused casefold r
      → IsFocused casefold (reconcile_lanes inbox r)
  unfolding reconcile_lanes
  busy_lanes r busy h = record {
    true_lanes =
        All-image (IsTrue casefold r.active_source) (IsTrue casefold r.active_source) (reconciled r)
          r.lanes (λ l t. IsTrue-reconciled r r.active_source l t (same l)) h.true_lanes;
    has_active =
        rw (any-map (λ l. l.source === r.active_source) (reconciled r) r.lanes (λ l. refl))
          h.has_active;
  }
    where
      same :
          (l : Lane)
          → (l.source === r.active_source)
            ≡ (l.source === r.active_source && ltb 0 (pending_of inbox r l.source))
      same l = elim (text_dec l.source r.active_source) [
        | yes e ↦ rw (e, busy) (ground arith)
        | no n ↦ ground arith
      ]

  idle_lanes :
      (r : Round)
      → (is_empty r.active_source ≡ true) ⊎ (ltb 0 (pending_of inbox r r.active_source) ≡ false)
      → IsFocused casefold r
      → IsFocused casefold (record (reconcile_lanes inbox r) { active_source = [] })
  unfolding reconcile_lanes
  idle_lanes r idle h = record {
    true_lanes =
        All-image (IsTrue casefold r.active_source) (IsTrue casefold []) (reconciled r) r.lanes
          (λ l t. IsTrue-reconciled r [] l t (none_of l t idle)) h.true_lanes;
    has_active = inl refl;
  }
    where
      none_of :
          (l : Lane)
          → IsTrue casefold r.active_source l
          → (is_empty r.active_source ≡ true) ⊎ (ltb 0 (pending_of inbox r r.active_source) ≡ false)
          → (l.source === [])
            ≡ (l.source === r.active_source && ltb 0 (pending_of inbox r l.source))
      none_of l t i = elim (text_dec l.source r.active_source) [
        | yes q ↦ rw (not_empty casefold l.source t.steady, stale q i) (ground arith)
        | no n ↦ rw (not_empty casefold l.source t.steady) (ground arith)
      ]
        where
          stale :
              l.source ≡ r.active_source
              → (is_empty r.active_source ≡ true)
                ⊎ (ltb 0 (pending_of inbox r r.active_source) ≡ false)
              → ltb 0 (pending_of inbox r l.source) ≡ false
          stale q (inl e) = absurd (ground (arith, t.steady.named, ap is_empty q))
          stale q (inr e) = rw (q, e) refl

  drop_stale-empty :
      (r : Round)
      → is_empty r.active_source ≡ true
      → drop_stale casefold inbox r ≡ record r { active_source = [] }
  unfolding drop_stale
  drop_stale-empty r e = rw (same) (ground arith)
    where
      same : r ≡ record r { active_source = [] }
      same = ap (λ a. record r { active_source = a }) (is_empty-eq casefold r.active_source e)

  drop_stale-idle :
      (r : Round)
      → IsSteady casefold r.active_source
      → ltb 0 (pending_of inbox r r.active_source) ≡ false
      → drop_stale casefold inbox r ≡ record r { active_source = [] }
  unfolding drop_stale
  drop_stale-idle r t i = rw (t.fixed, t.named, i) refl

  drop_stale-busy :
      (r : Round)
      → IsSteady casefold r.active_source
      → ltb 0 (pending_of inbox r r.active_source) ≡ true
      → is_active_lane (lookup Lane.source r.active_source r.lanes) ≡ true
      → drop_stale casefold inbox r ≡ r
  unfolding drop_stale
  drop_stale-busy r t b a = rw (t.fixed, t.named, b, a) refl

  -- The loop over the lanes is all that happens where the active source has pending drafts, and
  -- elsewhere no source stays active.
  pub reconcile-cases :
      (r : Round)
      → IsFocused casefold r
      → ((reconcile_states casefold inbox r ≡ reconcile_lanes inbox r)
          × (ltb 0 (pending_of inbox r r.active_source) ≡ true))
        ⊎ ((reconcile_states casefold inbox r
              ≡ record (reconcile_lanes inbox r) { active_source = [] })
            × ((is_empty r.active_source ≡ true)
                ⊎ (ltb 0 (pending_of inbox r r.active_source) ≡ false)))
  unfolding reconcile_states reconcile_lanes
  reconcile-cases r h = elim (Bool-cases (is_empty r.active_source)) [
    | inl e ↦ inr (drop_stale-empty (reconcile_lanes inbox r) e, inl e)
    | inr f ↦ elim (Bool-cases (ltb 0 (pending_of inbox r r.active_source))) [
      | inl b ↦ inl (
        drop_stale-busy (reconcile_lanes inbox r) (active_lane casefold r h f).0 b
            (active_lane casefold (reconcile_lanes inbox r) (busy_lanes r b h) f).1,
        b,
      )
      | inr i ↦
          inr (drop_stale-idle (reconcile_lanes inbox r) (active_lane casefold r h f).0 i, inr i)
    ]
  ]

  pub reconcile-IsFocused :
      (r : Round) → IsFocused casefold r → IsFocused casefold (reconcile_states casefold inbox r)
  reconcile-IsFocused r h = elim (reconcile-cases r h) [
    | inl (e, b) ↦ rw e (busy_lanes r b h)
    | inr (e, i) ↦ rw e (idle_lanes r i h)
  ]
