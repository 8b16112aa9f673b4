-- ===== src/Review/Closed.antt =====
-- `sync` of app/source_first_queue.py closes a round only when no draft is pending.
use jeonghan_daily_review_bo.Prelude.{
  Text, ◌≡◌, refl, sym, ap, ◌∙◌, inl, inr, Bool, true, false, ◌&&◌, some, List, [], ◌∷◌, ◌++◌, any,
  find, select, length, is_empty, ◌===◌, text_dec, ltb, All, All-find, find-holds, any-find,
  any-map, any-select, length-select-any, any-witness, arith, Bool-cases, Option-cases,
}
use jeonghan_daily_review_bo.Prelude.Table.{
  lookup, has_key, NodupKeys, NodupKeys-lookup, has_key-any,
}
use jeonghan_daily_review_bo.Prelude.Sort.{any-sort, find-none}
use jeonghan_daily_review_bo.Handles.{queue_handle}
use jeonghan_daily_review_bo.Review.Rounds.{
  Draft, draft_le, Lane, Item, Round, with_state, still_pending, is_waiting, pending_of, in_order,
  lane_le,
}
use jeonghan_daily_review_bo.Review.Merge.{
  RawSource, Known, Merging, pending_rows, configured_sources, unknown_sources, ensure_source,
  ensure_all, add_item, merge_row, merge_rows, merge,
}
use jeonghan_daily_review_bo.Review.Activate.{
  next_state, reconcile_lanes, drop_stale, reconcile_states, is_next, is_unresolved, focus, turn_to,
  activate_next,
}
use jeonghan_daily_review_bo.Review.Queue.{sync_round}
use jeonghan_daily_review_bo.Review.Covered.{HasLane, HasItem, IsCovered, merge-IsCovered}

module _ (casefold : Text → Text) (inbox : List Draft) where
  abbrev has_pending : Round → Lane → Bool
  has_pending r l = ltb 0 (pending_of inbox r l.source)

  nothing_left :
      (r : Round) (ls : List Lane)
      → any (is_next inbox r) ls ≡ false
      → any (is_unresolved inbox r) ls ≡ false
      → any (has_pending r) ls ≡ false
  unfolding is_next is_unresolved
  nothing_left r [] p q = refl
  nothing_left r (l ∷ ls) p q = ground (arith, nothing_left r ls)

  turn_to-closed :
      (r : Round)
      → r.is_open ≡ true
      → (turn_to inbox (find (is_next inbox r) (in_order r.lanes)) r).is_open ≡ false
      → any (has_pending r) r.lanes ≡ false
  unfolding turn_to focus
  turn_to-closed r o c = elim (Option-cases (find (is_next inbox r) (in_order r.lanes))) [
    | inr (l, found) ↦ absurd (ground (arith, found))
    | inl n ↦
        nothing_left r r.lanes
          (sym (any-sort lane_le (is_next inbox r) r.lanes)
            ∙ find-none (is_next inbox r) (in_order r.lanes) n)
          (ground (arith, n))
  ]

  activate_next-closed :
      (r : Round)
      → r.is_open ≡ true
      → (activate_next casefold inbox r).is_open ≡ false
      → any (has_pending r) r.lanes ≡ false
  unfolding activate_next
  activate_next-closed r o c =
      elim (Bool-cases (is_empty (queue_handle casefold r.active_source))) [
        | inl t ↦ turn_to-closed r o (ground (arith, t))
        | inr f ↦ absurd (ground (arith, f))
      ]

  reconcile-kept :
      (r : Round)
      → ((reconcile_states casefold inbox r).is_open ≡ r.is_open)
        × ((reconcile_states casefold inbox r).items ≡ r.items)
        × ((reconcile_states casefold inbox r).lanes ≡ (reconcile_lanes inbox r).lanes)
  unfolding reconcile_states drop_stale reconcile_lanes
  reconcile-kept r = (ground arith, ground arith, ground arith)

  merge_rows-is_open :
      (ds : List Draft) (m : Merging) → (merge_rows casefold ds m).round.is_open ≡ m.round.is_open
  unfolding merge_rows merge_row add_item ensure_source
  merge_rows-is_open [] m = refl
  merge_rows-is_open (d ∷ ds) m = ground (arith, merge_rows-is_open ds (merge_row casefold d m))

  ensure_all-is_open : (ks : List Known) (r : Round) → (ensure_all ks r).is_open ≡ r.is_open
  unfolding ensure_all ensure_source
  ensure_all-is_open [] r = refl
  ensure_all-is_open (k ∷ ks) r = ensure_all-is_open ks (ensure_source k.source k.source_order r)

  merge-is_open :
      (sources : List RawSource) (ds : List Draft) (r : Round)
      → (merge casefold sources ds r).is_open ≡ r.is_open
  unfolding merge
  merge-is_open sources ds r =
      let known = configured_sources casefold sources in
      let ks = known ++ unknown_sources casefold known ds in
      merge_rows-is_open ds (record { known = ks; round = ensure_all ks r })
      ∙ ensure_all-is_open ks r

  -- A pending draft that has an item, and so a lane, counts for that lane.
  counted :
      (r : Round) (d : Draft)
      → still_pending inbox d.draft_id ≡ true
      → HasItem r d.draft_id
      → IsCovered r
      → any (has_pending r) r.lanes ≡ true
  unfolding pending_of is_waiting
  counted r d p h cov =
      let (i, found) = any-witness (λ i. i.draft_id === d.draft_id) r.items h in
      has_key-any Lane.source (λ s. ltb 0 (pending_of inbox r s)) i.source r.lanes
        (All-find (λ i. HasLane r i.source) (λ i. i.draft_id === d.draft_id) r.items i cov found)
        (length-select-any (is_waiting inbox i.source) r.items
          ∙ any-find (λ i. i.draft_id === d.draft_id) (is_waiting inbox i.source) r.items i found
              (waits i (find-holds (λ i. i.draft_id === d.draft_id) r.items i found)))
    where
      waits : (i : Item) → (i.draft_id === d.draft_id) ≡ true → is_waiting inbox i.source i ≡ true
      waits i t = elim (text_dec i.draft_id d.draft_id) [
        | yes e ↦ ground (arith, ap (still_pending inbox) e)
        | no n ↦ absurd (ground arith)
      ]

  -- The counts before and after the reconciliation are the same.
  reconcile-has_pending :
      (r : Round)
      → any
          (has_pending (reconcile_states casefold inbox r))
          (reconcile_states casefold inbox r).lanes
        ≡ any (has_pending r) r.lanes
  unfolding reconcile_lanes pending_of
  reconcile-has_pending r =
      let (o, items, lanes) = reconcile-kept r in
      ap (λ its. any (in_items its) (reconcile_states casefold inbox r).lanes) items
      ∙ ap (any (in_items r.items)) lanes
      ∙ any-map (in_items r.items)
          (λ l. with_state (next_state (pending_of inbox r l.source) l.state) l) r.lanes (λ l. refl)
    where
      in_items : List Item → Lane → Bool
      in_items its l = ltb 0 (length (select (is_waiting inbox l.source) its))

  item_of_pending :
      (r : Round) (d : Draft)
      → find Draft.is_pending inbox ≡ some d
      → All (λ x. HasItem r x.draft_id) (pending_rows inbox)
      → HasItem r d.draft_id
  unfolding pending_rows
  item_of_pending r d found h = among (pending_rows inbox) h (
      any-sort draft_le (λ x. x.draft_id === d.draft_id) (select Draft.is_pending inbox)
      ∙ any-select (λ x. x.draft_id === d.draft_id) Draft.is_pending inbox
      ∙ any-find Draft.is_pending (λ x. x.is_pending && x.draft_id === d.draft_id) inbox d found
          (ground (arith, find-holds Draft.is_pending inbox d found)))
    where
      among :
          (ds : List Draft)
          → All (λ x. HasItem r x.draft_id) ds
          → any (λ x. x.draft_id === d.draft_id) ds ≡ true
          → HasItem r d.draft_id
      among [] h t = absurd (ground arith)
      among (x ∷ ds) h t = elim (text_dec x.draft_id d.draft_id) [
        | yes e ↦ ap (λ k. has_key Item.draft_id k r.items) (sym e) ∙ h.0
        | no n ↦ among ds h.1 (ground arith)
      ]

  -- Where the drafts of the inbox have distinct ids and the source of each item of an open round has a
  -- lane, a `sync` that closes the round finds no pending draft in the inbox.
  pub sync_round-closed :
      (sources : List RawSource) (r : Round)
      → NodupKeys Draft.draft_id inbox
      → IsCovered r
      → r.is_open ≡ true
      → (sync_round casefold inbox sources r).is_open ≡ false
      → any Draft.is_pending inbox ≡ false
  unfolding sync_round merge still_pending
  sync_round-closed sources r nd cov o c = elim (Bool-cases (any Draft.is_pending inbox)) [
    | inr f ↦ f
    | inl t ↦ let (d, found) = any-witness Draft.is_pending inbox t in absurd (clash d found)
  ]
    where
      merged : Round
      merged = merge casefold sources (pending_rows inbox) r

      merged_open : merged.is_open ≡ true
      merged_open = merge-is_open sources (pending_rows inbox) r ∙ o

      clash : (d : Draft) → find Draft.is_pending inbox ≡ some d → ⊥
      clash d found = ground (
        arith,
        activate_next-closed (reconcile_states casefold inbox merged)
            ((reconcile-kept merged).0 ∙ merged_open) c,
        reconcile-has_pending merged,
        counted merged d (pending d found)
            (item_of_pending merged d found
              (merge-IsCovered casefold sources (pending_rows inbox) r cov).1)
            (merge-IsCovered casefold sources (pending_rows inbox) r cov).0,
      )
        where
          pending :
              (d : Draft)
              → find Draft.is_pending inbox ≡ some d
              → still_pending inbox d.draft_id ≡ true
          pending d found =
              rw
                (
                  still_pending,
                  All-find (λ a. lookup Draft.draft_id a.draft_id inbox ≡ some a) Draft.is_pending
                      inbox d (NodupKeys-lookup Draft.draft_id inbox nd) found,
                )
                (find-holds Draft.is_pending inbox d found)
