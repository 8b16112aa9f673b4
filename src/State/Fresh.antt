-- ===== src/State/Fresh.antt =====
-- `apply_fresh_start` of app/state.py: what becomes of the backlog.
use jeonghan_daily_review_bo.Prelude.{
  not, Text, ◌===◌, ◌≡◌, refl, Bool, true, false, ◌||◌, some, List, [], ◌∷◌, All, is_empty, arith,
}
use jeonghan_daily_review_bo.Prelude.Table.{upsert, has_key, has_key-replace}
use jeonghan_daily_review_bo.Handles.{strip}
use jeonghan_daily_review_bo.State.Rows.{Row, Seen, Data}
use jeonghan_daily_review_bo.State.Store.{is_seen}
use jeonghan_daily_review_bo.State.Calls.{
  has_text, row_id, seen_after, ids_after, discard, apply_fresh_start,
}

abbrev pub is_applied : Text → Data → Bool
is_applied token d = has_text token d.fresh_start_tokens || d.fresh_start_run_id === token

pub applied-same :
    (run_id stamp : Text) (d : Data)
    → is_empty (strip run_id) ≡ false
    → is_applied (strip run_id) d ≡ true
    → apply_fresh_start run_id stamp d ≡ (some 0, d)
unfolding apply_fresh_start
applied-same run_id stamp d named t = ground arith

module _ (stamp : Text) where
  seen_after-has_key :
      (k id : Text) (seen : List Seen)
      → has_key Seen.id k seen ≡ true
      → has_key Seen.id k (seen_after stamp id seen) ≡ true
  unfolding upsert
  seen_after-has_key k id seen h =
      ground (arith, has_key-replace Seen.id k (record { id = id; at = stamp }) seen)

  -- The update that is discarded is seen.
  seen_after-id :
      (id : Text) (seen : List Seen)
      → (is_empty id || has_key Seen.id id (seen_after stamp id seen)) ≡ true
  unfolding upsert
  seen_after-id id seen =
      ground (arith, has_key-replace Seen.id id (record { id = id; at = stamp }) seen)

  discard-seen :
      (k : Text) (rows : List Row) (seen : List Seen) (ids : List Text)
      → has_key Seen.id k seen ≡ true
      → has_key Seen.id k (discard stamp rows seen ids).0 ≡ true
  unfolding upsert
  discard-seen k [] seen ids h = h
  discard-seen k (row ∷ rows) seen ids h =
      discard-seen k rows (seen_after stamp (row_id row) seen) (ids_after (row_id row) ids)
        (seen_after-has_key k (row_id row) seen h)

  -- The update of the row, where it has an id, is seen.
  abbrev pub IsDiscarded : List Seen → Row → Type 0
  IsDiscarded seen row = (is_empty (row_id row) || has_key Seen.id (row_id row) seen) ≡ true

  discard-IsDiscarded :
      (rows : List Row) (seen : List Seen) (ids : List Text)
      → All (IsDiscarded (discard stamp rows seen ids).0) rows
  unfolding upsert
  discard-IsDiscarded [] seen ids = tt
  discard-IsDiscarded (row ∷ rows) seen ids = (
    ground (
      arith,
      seen_after-id (row_id row) seen,
      discard-seen (row_id row) rows (seen_after stamp (row_id row) seen)
          (ids_after (row_id row) ids),
    ),
    discard-IsDiscarded rows (seen_after stamp (row_id row) seen) (ids_after (row_id row) ids),
  )

  -- A fresh start that was not applied empties the queue, marks the update of each of its rows as seen
  -- and keeps an update seen that was; its moment becomes `fresh_start_since`, the floor of the next
  -- collection, and that of the last automatic run and attempt, and its run ID the last one.
  pub apply_fresh_start-IsDiscarded :
      (run_id k : Text) (d : Data)
      → is_empty (strip run_id) ≡ false
      → is_applied (strip run_id) d ≡ false
      → All (IsDiscarded (apply_fresh_start run_id stamp d).1.seen) d.pending_delivery
        × ((not (is_seen k d) || is_seen k (apply_fresh_start run_id stamp d).1) ≡ true)
        × ((apply_fresh_start run_id stamp d).1.pending_delivery ≡ [])
        × ((apply_fresh_start run_id stamp d).1.fresh_start_since ≡ stamp)
        × ((apply_fresh_start run_id stamp d).1.last_auto_run ≡ stamp)
        × ((apply_fresh_start run_id stamp d).1.last_auto_attempt ≡ stamp)
        × ((apply_fresh_start run_id stamp d).1.fresh_start_run_id ≡ strip run_id)
  unfolding apply_fresh_start is_seen
  apply_fresh_start-IsDiscarded run_id k d named new =
      rw (named, new)
        (
          discard-IsDiscarded d.pending_delivery d.seen [],
          ground (arith, discard-seen k d.pending_delivery d.seen []),
          refl,
          refl,
          refl,
          refl,
          refl,
        )
