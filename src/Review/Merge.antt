-- ===== src/Review/Merge.antt =====
-- `_configured_sources`, `_pending_inbox_rows`, `_ensure_source` and the merge of newly pending
-- drafts in `sync` of app/source_first_queue.py.
use jeonghan_daily_review_bo.Prelude.{
  ℕ, suc, Text, codes, Bool, not, ◌||◌, List, [], ◌∷◌, ◌++◌, any, is_empty, length, select, ◌===◌,
  text_le, if◌then◌else◌,
}
use jeonghan_daily_review_bo.Prelude.Table.{upsert, insert_ignore}
use jeonghan_daily_review_bo.Prelude.Sort.{sort}
use jeonghan_daily_review_bo.Handles.{queue_handle}
use jeonghan_daily_review_bo.Review.Rounds.{Draft, draft_le, pending, never, Lane, Item, Round}

-- An entry of the configuration: `handle` and `enabled`.
pub record RawSource : Type 0 where
  pub handle : Text
  pub enabled : Bool

-- An entry of `known_orders`.
pub record Known : Type 0 where
  pub source : Text
  pub source_order : ℕ

abbrev pub is_known : Text → List Known → Bool
is_known s = any (λ k. k.source === s)

-- `known_orders` and the round, after some rows.
pub record Merging : Type 0 where
  pub known : List Known
  pub round : Round

-- `_pending_inbox_rows`
unfoldable pub pending_rows : List Draft → List Draft
pending_rows inbox = sort draft_le (select Draft.is_pending inbox)

-- `_ensure_source`
unfoldable pub ensure_source : Text → ℕ → Round → Round
unfolding upsert
ensure_source s order r = record r {
  lanes =
      upsert Lane.source s
        (record {
          source = s;
          source_order = order;
          state = pending;
          retry_count = 0;
          last_retry_status = never;
          last_retry_error = [];
        })
        (λ l. record l { source_order = order }) r.lanes;
}

unfoldable pub ensure_all : List Known → Round → Round
unfolding ensure_source
ensure_all [] r = r
ensure_all (k ∷ ks) r = ensure_all ks (ensure_source k.source k.source_order r)

-- The names that `known_orders` lacks, with the orders from `offset` on.
unfoldable pub numbered : ℕ → List Text → List Known
numbered offset [] = []
numbered offset (s ∷ ss) = record { source = s; source_order = offset } ∷ numbered (suc offset) ss

-- `sorted` of a set: each name once.
unfoldable pub add_name : Text → List Text → List Text
add_name s names = if any (λ n. n === s) names then names else s ∷ names

module _ (casefold : Text → Text) where
  unfoldable pub configured_from : ℕ → List Text → List RawSource → List Known
  unfolding queue_handle
  configured_from index seen [] = []
  configured_from index seen (raw ∷ rest) =
      let s = queue_handle casefold raw.handle in
      let skip = configured_from (suc index) seen rest in
      let keep = configured_from (suc index) (s ∷ seen) rest in
      if not raw.enabled || is_empty s || any (λ n. n === s) seen
      then skip
      else record { source = s; source_order = index } ∷ keep

  unfoldable pub configured_sources : List RawSource → List Known
  unfolding configured_from
  configured_sources sources = configured_from 0 [] sources

  -- `_handle(row["source"])` of the rows that name no configured source.
  unfoldable pub unknown_names : List Known → List Draft → List Text
  unfolding queue_handle add_name
  unknown_names known [] = []
  unknown_names known (d ∷ ds) =
      let s = queue_handle casefold d.source in
      let rest = unknown_names known ds in
      if is_empty s || is_known s known then rest else add_name s rest

  unfoldable pub unknown_sources : List Known → List Draft → List Known
  unfolding unknown_names numbered
  unknown_sources known ds = numbered (length known) (sort text_le (unknown_names known ds))

  -- `_handle(row["source"]) or "unknown"`
  unfoldable pub name_of : Draft → Text
  unfolding queue_handle
  name_of d = let s = queue_handle casefold d.source in if is_empty s then codes "unknown" else s

  unfoldable pub item_of : Draft → Item
  unfolding name_of
  item_of d = record { draft_id = d.draft_id; source = name_of d; created_at = d.created_at }

  unfoldable pub add_item : Draft → Round → Round
  unfolding insert_ignore item_of
  add_item d r = record r { items = insert_ignore Item.draft_id (item_of d) r.items }

  -- One turn of the loop over the pending rows.
  unfoldable pub merge_row : Draft → Merging → Merging
  unfolding add_item name_of ensure_source
  merge_row d m =
      if is_known (name_of d) m.known then record m { round = add_item d m.round } else record {
        known = m.known ++ record { source = name_of d; source_order = length m.known } ∷ [];
        round = add_item d (ensure_source (name_of d) (length m.known) m.round);
      }

  unfoldable pub merge_rows : List Draft → Merging → Merging
  unfolding merge_row
  merge_rows [] m = m
  merge_rows (d ∷ ds) m = merge_rows ds (merge_row d m)

  -- The middle of `sync`: sources are ensured, then each row is merged.
  unfoldable pub merge : List RawSource → List Draft → Round → Round
  unfolding configured_sources unknown_sources merge_rows ensure_all
  merge sources ds r =
      let known = configured_sources sources in
      let all_known = known ++ unknown_sources known ds in
      (merge_rows ds (record { known = all_known; round = ensure_all all_known r })).round
