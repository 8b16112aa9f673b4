-- ===== src/Review/Merged.antt =====
-- `sync` of app/source_first_queue.py keeps the focus of a round while it merges sources and drafts.
use jeonghan_daily_review_bo.Prelude.{
  ℕ, suc, Text, codes, ◌≡◌, refl, not, ◌||◌, none, ◌⊎◌, inl, inr, true, false, List, [], ◌∷◌, any,
  is_empty, length, select, ◌++◌, ◌===◌, text_dec, text_le, All, All-append, All-select, arith,
  Bool-cases, ap,
}
use jeonghan_daily_review_bo.Prelude.Table.{
  lookup, has_key, All-upsert, has_key-upsert, lookup-has_key,
}
use jeonghan_daily_review_bo.Prelude.Sort.{sort, All-sort}
use jeonghan_daily_review_bo.Handles.{queue_handle}
use jeonghan_daily_review_bo.Review.Rounds.{Draft, draft_le, pending, never, Lane, Round}
use jeonghan_daily_review_bo.Review.Merge.{
  RawSource, Known, is_known, Merging, pending_rows, ensure_source, ensure_all, numbered, add_name,
  configured_from, configured_sources, unknown_names, unknown_sources, name_of, add_item, merge_row,
  merge_rows, merge,
}
use jeonghan_daily_review_bo.Review.Focus.{IsSteady, IsTrue, IsFocused}

module _ (casefold : Text → Text) where
  -- A name that is written in the configuration or the inbox, and that one normalization settles.
  abbrev pub IsSettled : Text → Type 0
  IsSettled s = queue_handle casefold (queue_handle casefold s) ≡ queue_handle casefold s

  IsSettled-IsSteady :
      (s : Text)
      → IsSettled s
      → is_empty (queue_handle casefold s) ≡ false
      → IsSteady casefold (queue_handle casefold s)
  IsSettled-IsSteady s h e = record { named = e; fixed = h }

  ensure_source-IsFocused :
      (s : Text) (order : ℕ) (r : Round)
      → IsSteady casefold s
      → IsFocused casefold r
      → IsFocused casefold (ensure_source s order r)
  unfolding ensure_source
  ensure_source-IsFocused s order r t h = record {
    true_lanes =
        All-upsert Lane.source (IsTrue casefold r.active_source) s
          (record {
            source = s;
            source_order = order;
            state = pending;
            retry_count = 0;
            last_retry_status = never;
            last_retry_error = [];
          })
          (λ l. record l { source_order = order }) r.lanes
          (λ n. record { state_true = other n h.has_active; steady = t })
          (λ l k. record { state_true = k.state_true; steady = k.steady }) h.true_lanes;
    has_active = kept h.has_active;
  }
    where
      other :
          lookup Lane.source s r.lanes ≡ none
          → (is_empty r.active_source ≡ true) ⊎ (has_key Lane.source r.active_source r.lanes ≡ true)
          → false ≡ (s === r.active_source)
      other n i = elim (text_dec s r.active_source) [
        | no d ↦ ground arith
        | yes e ↦ absurd (clash e i)
      ]
        where
          clash :
              s ≡ r.active_source
              → (is_empty r.active_source ≡ true)
                ⊎ (has_key Lane.source r.active_source r.lanes ≡ true)
              → ⊥
          clash e (inl b) = ground (arith, t.named, ap is_empty e)
          clash e (inr k) = ground (
            arith,
            lookup-has_key Lane.source s r.lanes n,
            ap (λ x. has_key Lane.source x r.lanes) e,
          )

      kept :
          (is_empty r.active_source ≡ true) ⊎ (has_key Lane.source r.active_source r.lanes ≡ true)
          → (is_empty r.active_source ≡ true)
            ⊎ (has_key Lane.source r.active_source (ensure_source s order r).lanes ≡ true)
      kept (inl e) = inl e
      kept (inr k) = inr (
          ground (
            arith,
            has_key-upsert Lane.source s r.active_source
                (record {
                  source = s;
                  source_order = order;
                  state = pending;
                  retry_count = 0;
                  last_retry_status = never;
                  last_retry_error = [];
                })
                (λ l. record l { source_order = order }) r.lanes refl (λ l. refl),
          ))

  abbrev AllSteady : List Known → Type 0
  AllSteady = All (λ k. IsSteady casefold k.source)

  ensure_all-IsFocused :
      (ks : List Known) (r : Round)
      → AllSteady ks
      → IsFocused casefold r
      → IsFocused casefold (ensure_all ks r)
  unfolding ensure_all
  ensure_all-IsFocused [] r t h = h
  ensure_all-IsFocused (k ∷ ks) r t h =
      ensure_all-IsFocused ks (ensure_source k.source k.source_order r) t.1
        (ensure_source-IsFocused k.source k.source_order r t.0 h)

  configured-AllSteady :
      (index : ℕ) (seen : List Text) (raws : List RawSource)
      → All (λ raw. IsSettled raw.handle) raws
      → AllSteady (configured_from casefold index seen raws)
  unfolding configured_from
  configured-AllSteady index seen [] h = tt
  configured-AllSteady index seen (raw ∷ raws) h =
      elim (Bool-cases (
        not raw.enabled
        || is_empty (queue_handle casefold raw.handle)
        || any (λ n. n === queue_handle casefold raw.handle) seen)) [
          | inl t ↦ rw t (configured-AllSteady (suc index) seen raws h.1)
          | inr f ↦ rw f (
            IsSettled-IsSteady raw.handle h.0 (ground arith),
            configured-AllSteady (suc index) (queue_handle casefold raw.handle ∷ seen) raws h.1,
          )
        ]

  add_name-All :
      (s : Text) (names : List Text)
      → IsSteady casefold s
      → All (IsSteady casefold) names
      → All (IsSteady casefold) (add_name s names)
  unfolding add_name
  add_name-All s names t h = elim (Bool-cases (any (λ n. n === s) names)) [
    | inl u ↦ rw u h
    | inr f ↦ rw f (t, h)
  ]

  unknown_names-All :
      (known : List Known) (ds : List Draft)
      → All (λ d. IsSettled d.source) ds
      → All (IsSteady casefold) (unknown_names casefold known ds)
  unfolding unknown_names
  unknown_names-All known [] h = tt
  unknown_names-All known (d ∷ ds) h =
      elim (Bool-cases (
        is_empty (queue_handle casefold d.source)
        || is_known (queue_handle casefold d.source) known)) [
          | inl t ↦ rw t (unknown_names-All known ds h.1)
          | inr f ↦ rw f (
              add_name-All (queue_handle casefold d.source) (unknown_names casefold known ds)
                (IsSettled-IsSteady d.source h.0 (ground arith)) (unknown_names-All known ds h.1))
        ]

  numbered-AllSteady :
      (offset : ℕ) (names : List Text)
      → All (IsSteady casefold) names
      → AllSteady (numbered offset names)
  unfolding numbered
  numbered-AllSteady offset [] h = tt
  numbered-AllSteady offset (s ∷ ss) h = (h.0, numbered-AllSteady (suc offset) ss h.1)

  module _ (unknown_fold : casefold (codes "unknown") ≡ codes "unknown") where
    name_of-IsSteady : (d : Draft) → IsSettled d.source → IsSteady casefold (name_of casefold d)
    unfolding name_of queue_handle
    name_of-IsSteady d h = elim (Bool-cases (is_empty (queue_handle casefold d.source))) [
      | inl t ↦ rw t (record { named = refl; fixed = unknown_steady })
      | inr f ↦ rw f (IsSettled-IsSteady d.source h f)
    ]
      where
        unknown_steady : queue_handle casefold (codes "unknown") ≡ codes "unknown"
        unknown_steady = unknown_fold

    merge_rows-IsFocused :
        (ds : List Draft) (m : Merging)
        → All (λ d. IsSettled d.source) ds
        → IsFocused casefold m.round
        → IsFocused casefold (merge_rows casefold ds m).round
    unfolding merge_rows merge_row add_item
    merge_rows-IsFocused [] m t h = h
    merge_rows-IsFocused (d ∷ ds) m t h =
        elim (Bool-cases (is_known (name_of casefold d) m.known)) [
          | inl k ↦
              merge_rows-IsFocused ds (merge_row casefold d m) t.1
                (rw k (record { true_lanes = h.true_lanes; has_active = h.has_active }))
          | inr f ↦
              let g =
                ensure_source-IsFocused (name_of casefold d) (length m.known) m.round
                  (name_of-IsSteady d t.0) h in
              merge_rows-IsFocused ds (merge_row casefold d m) t.1
                (rw f (record { true_lanes = g.true_lanes; has_active = g.has_active }))
        ]

    merge-IsFocused :
        (sources : List RawSource) (ds : List Draft) (r : Round)
        → All (λ raw. IsSettled raw.handle) sources
        → All (λ d. IsSettled d.source) ds
        → IsFocused casefold r
        → IsFocused casefold (merge casefold sources ds r)
    unfolding merge configured_sources unknown_sources
    merge-IsFocused sources ds r hs hd h =
        let known = configured_sources casefold sources in
        let ks = known ++ unknown_sources casefold known ds in
        merge_rows-IsFocused ds (record { known = ks; round = ensure_all ks r }) hd
          (ensure_all-IsFocused ks r
            (All-append (λ k. IsSteady casefold k.source) known (unknown_sources casefold known ds)
              (configured-AllSteady 0 [] sources hs)
              (numbered-AllSteady (length known) (sort text_le (unknown_names casefold known ds)) (
                All-sort text_le (IsSteady casefold) (unknown_names casefold known ds)
                  (unknown_names-All known ds hd))))
            h)

    -- The round between the merge and the reconciliation of `sync`.
    pub merged_round-IsFocused :
        (sources : List RawSource) (inbox : List Draft) (r : Round)
        → All (λ raw. IsSettled raw.handle) sources
        → All (λ d. IsSettled d.source) inbox
        → IsFocused casefold r
        → IsFocused casefold (merge casefold sources (pending_rows inbox) r)
    unfolding pending_rows
    merged_round-IsFocused sources inbox r hs hd h =
        merge-IsFocused sources (pending_rows inbox) r hs
          (All-sort draft_le (λ d. IsSettled d.source) (select Draft.is_pending inbox)
            (All-select (λ d. IsSettled d.source) Draft.is_pending inbox hd))
          h
