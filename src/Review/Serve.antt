-- ===== src/Review/Serve.antt =====
-- What `sync` of app/source_first_queue.py leaves behind: the lane that is served, and when a round
-- is closed.
use jeonghan_daily_review_bo.Prelude.{
  Text, codes, ◌≡◌, refl, sym, ap, ◌∙◌, inl, inr, true, false, not, ◌||◌, none, some, List, [],
  find, any, is_empty, ltb, All, find-holds, All-find, arith, Bool-cases, Option-cases,
}
use jeonghan_daily_review_bo.Prelude.Sort.{any-sort, All-sort, find-none}
use jeonghan_daily_review_bo.Handles.{queue_handle}
use jeonghan_daily_review_bo.Review.Rounds.{Draft, Lane, Round, pending_of, in_order, lane_le}
use jeonghan_daily_review_bo.Review.Merge.{RawSource, pending_rows, merge}
use jeonghan_daily_review_bo.Review.Activate.{
  reconcile_lanes, reconcile_states, is_next, is_unresolved, focus, turn_to, activate_next,
}
use jeonghan_daily_review_bo.Review.Queue.{sync_round}
use jeonghan_daily_review_bo.Review.Focus.{IsSteady, IsTrue, IsFocused, is_empty-eq, active_lane}
use jeonghan_daily_review_bo.Review.Merged.{IsSettled, merged_round-IsFocused}
use jeonghan_daily_review_bo.Review.Reconcile.{reconcile-cases, reconcile-IsFocused}

module _ (inbox : List Draft) where
  -- The active source has pending drafts.
  abbrev pub IsBusy : Round → Type 0
  IsBusy r = (is_empty r.active_source || ltb 0 (pending_of inbox r r.active_source)) ≡ true

  -- The active source has pending drafts; without one, only lanes that were put off have some.
  pub record IsServing (r : Round) : Type 0 where
    pub busy : IsBusy r
    pub waiting : (not (is_empty r.active_source) || not (any (is_next inbox r) r.lanes)) ≡ true

module _ (casefold : Text → Text) (inbox : List Draft) where
  reconcile-IsBusy :
      (r : Round) → IsFocused casefold r → IsBusy inbox (reconcile_states casefold inbox r)
  unfolding reconcile_lanes pending_of
  reconcile-IsBusy r h = elim (reconcile-cases casefold inbox r h) [
    | inl (e, b) ↦ rw e (rw b (ground arith))
    | inr (e, i) ↦ rw e refl
  ]

  turn_to-IsServing :
      (r : Round)
      → IsFocused casefold r
      → is_empty r.active_source ≡ true
      → IsServing inbox (turn_to inbox (find (is_next inbox r) (in_order r.lanes)) r)
  unfolding turn_to focus is_next pending_of
  turn_to-IsServing r h e = elim (Option-cases (find (is_next inbox r) (in_order r.lanes))) [
    | inl n ↦ rw n (elim (Bool-cases (any (is_unresolved inbox r) r.lanes)) [
      | inl t ↦ rw t (record { busy = rw e refl; waiting = rw (e, idle n) refl })
      | inr f ↦ rw f (record { busy = rw e refl; waiting = rw (e, idle n) refl })
    ])
    | inr (l, found) ↦ rw found (record {
      busy = ground (arith, find-holds (is_next inbox r) (in_order r.lanes) l found);
      waiting = rw (steady l found).named refl;
    })
  ]
    where
      idle :
          find (is_next inbox r) (in_order r.lanes) ≡ none → any (is_next inbox r) r.lanes ≡ false
      idle n =
          rw (sym (any-sort lane_le (is_next inbox r) r.lanes))
            (find-none (is_next inbox r) (in_order r.lanes) n)

      steady :
          (l : Lane)
          → find (is_next inbox r) (in_order r.lanes) ≡ some l
          → IsSteady casefold l.source
      steady l found =
          (All-find (IsTrue casefold r.active_source) (is_next inbox r) (in_order r.lanes) l
            (All-sort lane_le (IsTrue casefold r.active_source) r.lanes h.true_lanes) found).steady

  module _ (empty_fold : casefold [] ≡ []) where
    activate_next-IsServing :
        (r : Round)
        → IsFocused casefold r
        → IsBusy inbox r
        → IsServing inbox (activate_next casefold inbox r)
    unfolding activate_next queue_handle
    activate_next-IsServing r h b = elim (Bool-cases (is_empty r.active_source)) [
      | inl e ↦
          let none_left : queue_handle casefold r.active_source ≡ [] =
            ap (queue_handle casefold) (is_empty-eq casefold r.active_source e) ∙ empty_fold in
          rw none_left (turn_to-IsServing r h e)
      | inr f ↦
          rw ((active_lane casefold r h f).0.fixed, f) (record { busy = b; waiting = ground arith })
    ]

    -- Let casefold keep "" and "unknown", and let the names in the configuration and the inbox be
    -- settled by one normalization. `sync` of a focused round leaves one whose active source has a
    -- pending draft; where it leaves no active source, no lane with a pending draft is left but those
    -- that were put off.
    pub sync_round-IsServing :
        casefold (codes "unknown") ≡ codes "unknown"
        → (sources : List RawSource) (r : Round)
        → All (λ raw. IsSettled casefold raw.handle) sources
        → All (λ d. IsSettled casefold d.source) inbox
        → IsFocused casefold r
        → IsServing inbox (sync_round casefold inbox sources r)
    unfolding sync_round
    sync_round-IsServing unknown_fold sources r hs hd h =
        let merged = merge casefold sources (pending_rows inbox) r in
        let ok = merged_round-IsFocused casefold unknown_fold sources inbox r hs hd h in
        activate_next-IsServing (reconcile_states casefold inbox merged)
          (reconcile-IsFocused casefold inbox merged ok) (reconcile-IsBusy merged ok)
