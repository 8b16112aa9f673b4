-- ===== src/Review/Snapshot.antt =====
-- `snapshot` of app/source_first_queue.py: what the reader is shown of a round. The proof status of a
-- source, which `_latest_completeness` reads from the completeness engine, is a parameter.
use jeonghan_daily_review_bo.Prelude.{
  ℕ, suc, ◌+◌, ◌-◌, min, Text, Bool, Option, none, some, List, [], ◌∷◌, find, is_empty, length,
  ◌===◌, text_le, ltb, if◌then◌else◌,
}
use jeonghan_daily_review_bo.Prelude.Sort.{sort}
use jeonghan_daily_review_bo.Handles.{queue_handle}
use jeonghan_daily_review_bo.Review.Rounds.{
  Draft, LaneState, RetryStatus, Lane, Item, Round, total_of, is_waiting, pending_of, in_order,
}

-- `SourceQueueEntry`
pub record Entry : Type 0 where
  pub source : Text
  pub source_order : ℕ
  pub state : LaneState
  pub total_items : ℕ
  pub done_items : ℕ
  pub pending_items : ℕ
  pub completeness_status : Text
  pub completeness_error : Text
  pub retry_count : ℕ
  pub last_retry_status : RetryStatus

-- The part of `SourceQueueSnapshot` that is found by a walk over the entries.
pub record Position : Type 0 where
  pub active_position : ℕ
  pub current_item_number : ℕ
  pub current_item_total : ℕ

-- `SourceQueueSnapshot`
pub record Snapshot : Type 0 where
  pub session_id : Text
  pub total_sources : ℕ
  pub active_source : Text
  pub position : Position
  pub current_draft_id : Text
  pub sources : List Entry

abbrev pub nowhere : Position
nowhere = record { active_position = 0; current_item_number = 0; current_item_total = 0 }

-- `ORDER BY q.created_at ASC, q.draft_id ASC`
abbrev pub item_le : Item → Item → Bool
item_le a b =
    if a.created_at === b.created_at
    then text_le a.draft_id b.draft_id
    else text_le a.created_at b.created_at

abbrev pub draft_of : Option Item → Text
draft_of none = []
draft_of (some i) = i.draft_id

module _ (casefold : Text → Text) (latest : Text → Text × Text) (inbox : List Draft) where
  unfoldable pub entry_of : Round → Lane → Entry
  unfolding total_of pending_of
  entry_of r l = record {
    source = l.source;
    source_order = l.source_order;
    state = l.state;
    total_items = total_of r l.source;
    done_items = total_of r l.source - pending_of inbox r l.source;
    pending_items = pending_of inbox r l.source;
    completeness_status = (latest l.source).0;
    completeness_error = (latest l.source).1;
    retry_count = l.retry_count;
    last_retry_status = l.last_retry_status;
  }

  unfoldable pub entries_of : Round → List Lane → List Entry
  unfolding entry_of
  entries_of r [] = []
  entries_of r (l ∷ ls) = entry_of r l ∷ entries_of r ls

  -- The loop over the entries, counted from `index`.
  unfoldable pub position_from : ℕ → Text → List Entry → Position
  position_from index s [] = nowhere
  position_from index s (e ∷ es) =
      if e.source === s
      then record {
        active_position = index;
        current_item_number =
            if ltb 0 e.pending_items then min e.total_items (e.done_items + 1) else e.total_items;
        current_item_total = e.total_items;
      }
      else position_from (suc index) s es

  unfoldable pub current_draft : Round → Text → Text
  unfolding is_waiting
  current_draft r s = draft_of (find (is_waiting inbox s) (sort item_le r.items))

  unfoldable pub snapshot : Round → Snapshot
  unfolding entries_of position_from current_draft queue_handle
  snapshot r =
      let entries = entries_of r (in_order r.lanes) in
      let s = queue_handle casefold r.active_source in
      record {
        session_id = r.session_id;
        total_sources = length entries;
        active_source = s;
        position = if is_empty s then nowhere else position_from 1 s entries;
        current_draft_id = if is_empty s then [] else current_draft r s;
        sources = entries;
      }
