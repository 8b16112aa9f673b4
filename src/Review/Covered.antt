-- ===== src/Review/Covered.antt =====
-- The merge in `sync` of app/source_first_queue.py loses no draft: each pending draft becomes an item,
-- and the source of each item has a lane.
use jeonghan_daily_review_bo.Prelude.{
  ℕ, Text, ◌≡◌, refl, sym, ap, ◌∙◌, inl, inr, true, ◌||◌, List, [], ◌∷◌, ◌++◌, length, ◌===◌,
  text_dec, All, All-append, All-map, arith, Bool-cases,
}
use jeonghan_daily_review_bo.Prelude.Table.{
  has_key, has_key-upsert, has_key-insert_ignore, All-insert_ignore,
}
use jeonghan_daily_review_bo.Review.Rounds.{Draft, pending, never, Lane, Item, Round}
use jeonghan_daily_review_bo.Review.Merge.{
  RawSource, Known, is_known, Merging, ensure_source, ensure_all, configured_sources,
  unknown_sources, name_of, item_of, add_item, merge_row, merge_rows, merge,
}

-- The lane and the item of a source and a draft.
abbrev pub HasLane : Round → Text → Type 0
HasLane r s = has_key Lane.source s r.lanes ≡ true

abbrev pub HasItem : Round → Text → Type 0
HasItem r id = has_key Item.draft_id id r.items ≡ true

-- The source of each item has a lane.
abbrev pub IsCovered : Round → Type 0
IsCovered r = All (λ i. HasLane r i.source) r.items

ensure_source-has :
    (s j : Text) (order : ℕ) (r : Round)
    → has_key Lane.source j (ensure_source s order r).lanes
      ≡ (s === j || has_key Lane.source j r.lanes)
unfolding ensure_source
ensure_source-has s j order r =
    has_key-upsert Lane.source s j
      (record {
        source = s;
        source_order = order;
        state = pending;
        retry_count = 0;
        last_retry_status = never;
        last_retry_error = [];
      })
      (λ l. record l { source_order = order }) r.lanes refl (λ l. refl)

ensure_source-HasLane :
    (s j : Text) (order : ℕ) (r : Round) → HasLane r j → HasLane (ensure_source s order r) j
unfolding ensure_source
ensure_source-HasLane s j order r h = ground (arith, ensure_source-has s j order r)

ensure_source-itself : (s : Text) (order : ℕ) (r : Round) → HasLane (ensure_source s order r) s
ensure_source-itself s order r = ground (arith, ensure_source-has s s order r)

ensure_all-HasLane :
    (ks : List Known) (j : Text) (r : Round) → HasLane r j → HasLane (ensure_all ks r) j
unfolding ensure_all
ensure_all-HasLane [] j r h = h
ensure_all-HasLane (k ∷ ks) j r h =
    ensure_all-HasLane ks j (ensure_source k.source k.source_order r)
      (ensure_source-HasLane k.source j k.source_order r h)

ensure_all-itself : (ks : List Known) (r : Round) → All (λ k. HasLane (ensure_all ks r) k.source) ks
unfolding ensure_all
ensure_all-itself [] r = tt
ensure_all-itself (k ∷ ks) r = (
  ensure_all-HasLane ks k.source (ensure_source k.source k.source_order r)
      (ensure_source-itself k.source k.source_order r),
  ensure_all-itself ks (ensure_source k.source k.source_order r),
)

ensure_source-items : (s : Text) (order : ℕ) (r : Round) → (ensure_source s order r).items ≡ r.items
unfolding ensure_source
ensure_source-items s order r = refl

ensure_all-items : (ks : List Known) (r : Round) → (ensure_all ks r).items ≡ r.items
unfolding ensure_all ensure_source
ensure_all-items [] r = refl
ensure_all-items (k ∷ ks) r = ensure_all-items ks (ensure_source k.source k.source_order r)

-- The known names have lanes, and so have the items' sources.
record IsMerged (m : Merging) : Type 0 where
  known_lanes : All (λ k. HasLane m.round k.source) m.known
  covered : IsCovered m.round

known-HasLane :
    (r : Round) (s : Text) (ks : List Known)
    → All (λ k. HasLane r k.source) ks
    → is_known s ks ≡ true
    → HasLane r s
known-HasLane r s [] h t = absurd (ground arith)
known-HasLane r s (k ∷ ks) h t = elim (text_dec k.source s) [
  | yes e ↦ ap (λ x. has_key Lane.source x r.lanes) (sym e) ∙ h.0
  | no n ↦ known-HasLane r s ks h.1 (ground arith)
]

module _ (casefold : Text → Text) where
  add_item-IsCovered :
      (d : Draft) (r : Round)
      → HasLane r (name_of casefold d)
      → IsCovered r
      → IsCovered (add_item casefold d r)
  unfolding add_item item_of
  add_item-IsCovered d r h k =
      All-insert_ignore Item.draft_id (λ i. HasLane r i.source) (item_of casefold d) r.items h k

  add_item-HasItem :
      (d : Draft) (r : Round) (id : Text) → HasItem r id → HasItem (add_item casefold d r) id
  unfolding add_item
  add_item-HasItem d r id h =
      ground (arith, has_key-insert_ignore Item.draft_id id (item_of casefold d) r.items)

  add_item-itself : (d : Draft) (r : Round) → HasItem (add_item casefold d r) d.draft_id
  unfolding add_item item_of
  add_item-itself d r =
      ground (arith, has_key-insert_ignore Item.draft_id d.draft_id (item_of casefold d) r.items)

  merge_row-IsMerged : (d : Draft) (m : Merging) → IsMerged m → IsMerged (merge_row casefold d m)
  unfolding merge_row add_item
  merge_row-IsMerged d m h = elim (Bool-cases (is_known (name_of casefold d) m.known)) [
    | inl k ↦
        rw (merge_row, k)
          (record {
            known_lanes = h.known_lanes;
            covered =
                add_item-IsCovered d m.round
                  (known-HasLane m.round (name_of casefold d) m.known h.known_lanes k) h.covered;
          })
    | inr f ↦
        rw (merge_row, f)
          (record {
            known_lanes =
                All-append (λ k. HasLane ensured k.source) m.known
                  (record { source = name_of casefold d; source_order = length m.known } ∷ [])
                  (All-map (λ k. HasLane m.round k.source) (λ k. HasLane ensured k.source) m.known
                    (λ k. grown k.source) h.known_lanes)
                  (new_lane, tt);
            covered = add_item-IsCovered d ensured new_lane (
                All-map (λ i. HasLane m.round i.source) (λ i. HasLane ensured i.source)
                  m.round.items (λ i. grown i.source) h.covered);
          })
  ]
    where
      ensured : Round
      ensured = ensure_source (name_of casefold d) (length m.known) m.round

      new_lane : HasLane ensured (name_of casefold d)
      new_lane = ensure_source-itself (name_of casefold d) (length m.known) m.round

      grown : (s : Text) → HasLane m.round s → HasLane ensured s
      grown s = ensure_source-HasLane (name_of casefold d) s (length m.known) m.round

  merge_rows-IsMerged :
      (ds : List Draft) (m : Merging) → IsMerged m → IsMerged (merge_rows casefold ds m)
  unfolding merge_rows
  merge_rows-IsMerged [] m h = h
  merge_rows-IsMerged (d ∷ ds) m h =
      merge_rows-IsMerged ds (merge_row casefold d m) (merge_row-IsMerged d m h)

  merge_row-HasItem :
      (d : Draft) (m : Merging) (id : Text)
      → HasItem m.round id
      → HasItem (merge_row casefold d m).round id
  unfolding merge_row
  merge_row-HasItem d m id h = elim (Bool-cases (is_known (name_of casefold d) m.known)) [
    | inl k ↦ rw (merge_row, k) (add_item-HasItem d m.round id h)
    | inr f ↦
        rw (merge_row, f)
          (add_item-HasItem d (ensure_source (name_of casefold d) (length m.known) m.round) id
            (kept h))
  ]
    where
      kept :
          HasItem m.round id
          → HasItem (ensure_source (name_of casefold d) (length m.known) m.round) id
      kept k =
          ap (has_key Item.draft_id id)
            (ensure_source-items (name_of casefold d) (length m.known) m.round)
          ∙ k

  merge_row-itself : (d : Draft) (m : Merging) → HasItem (merge_row casefold d m).round d.draft_id
  unfolding merge_row
  merge_row-itself d m = elim (Bool-cases (is_known (name_of casefold d) m.known)) [
    | inl k ↦ rw (merge_row, k) (add_item-itself d m.round)
    | inr f ↦
        rw (merge_row, f)
          (add_item-itself d (ensure_source (name_of casefold d) (length m.known) m.round))
  ]

  merge_rows-HasItem :
      (ds : List Draft) (m : Merging) (id : Text)
      → HasItem m.round id
      → HasItem (merge_rows casefold ds m).round id
  unfolding merge_rows
  merge_rows-HasItem [] m id h = h
  merge_rows-HasItem (d ∷ ds) m id h =
      merge_rows-HasItem ds (merge_row casefold d m) id (merge_row-HasItem d m id h)

  merge_rows-itself :
      (ds : List Draft) (m : Merging)
      → All (λ d. HasItem (merge_rows casefold ds m).round d.draft_id) ds
  unfolding merge_rows
  merge_rows-itself [] m = tt
  merge_rows-itself (d ∷ ds) m = (
    merge_rows-HasItem ds (merge_row casefold d m) d.draft_id (merge_row-itself d m),
    merge_rows-itself ds (merge_row casefold d m),
  )

  -- Of a round whose items' sources have lanes, the merge makes one with the same property, in which
  -- each merged draft has an item.
  pub merge-IsCovered :
      (sources : List RawSource) (ds : List Draft) (r : Round)
      → IsCovered r
      → IsCovered (merge casefold sources ds r)
        × All (λ d. HasItem (merge casefold sources ds r) d.draft_id) ds
  unfolding merge
  merge-IsCovered sources ds r h =
      let known = configured_sources casefold sources in
      let ks = known ++ unknown_sources casefold known ds in
      let m : Merging = record { known = ks; round = ensure_all ks r } in
      (
        (merge_rows-IsMerged ds m
            (record { known_lanes = ensure_all-itself ks r; covered = ensured ks })).covered,
        merge_rows-itself ds m,
      )
    where
      ensured : (ks : List Known) → IsCovered (ensure_all ks r)
      ensured ks = rw (ensure_all-items ks r) (
          All-map (λ i. HasLane r i.source) (λ i. HasLane (ensure_all ks r) i.source) r.items
            (λ i. ensure_all-HasLane ks i.source r) h)
