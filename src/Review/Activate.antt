-- ===== src/Review/Activate.antt =====
-- `_reconcile_states` and `_activate_next` of app/source_first_queue.py.
use jeonghan_daily_review_bo.Prelude.{
  ℕ, Text, Bool, false, not, ◌&&◌, ◌||◌, Option, none, some, List, [], any, find, is_empty, map,
  update_where, ◌===◌, ltb, if◌then◌else◌,
}
use jeonghan_daily_review_bo.Prelude.Table.{lookup}
use jeonghan_daily_review_bo.Handles.{queue_handle}
use jeonghan_daily_review_bo.Review.Rounds.{
  Draft, LaneState, pending, active, deferred, complete, is_active, is_deferred, with_state, Lane,
  Round, pending_of, in_order,
}

abbrev pub next_state : ℕ → LaneState → LaneState
next_state n st = if not (ltb 0 n) then complete else kept st
  where
    kept : LaneState → LaneState
    kept deferred = deferred
    kept active = active
    kept _ = pending

abbrev pub is_active_lane : Option Lane → Bool
is_active_lane none = false
is_active_lane (some l) = is_active l.state

unfoldable pub focus : Text → Round → Round
focus s r = record r {
  lanes = update_where (λ l. l.source === s) (with_state active) r.lanes;
  active_source = s;
}

module _ (inbox : List Draft) where
  -- The loop over the lanes; each row is written at most once, from its own state.
  unfoldable pub reconcile_lanes : Round → Round
  unfolding pending_of
  reconcile_lanes r = record r {
    lanes = map (λ l. with_state (next_state (pending_of inbox r l.source) l.state) l) r.lanes;
  }

  -- A lane that the queue may turn to.
  unfoldable pub is_next : Round → Lane → Bool
  unfolding pending_of
  is_next r l = ltb 0 (pending_of inbox r l.source) && not (is_deferred l.state)

  -- A lane that was put off and still has pending drafts.
  unfoldable pub is_unresolved : Round → Lane → Bool
  unfolding pending_of
  is_unresolved r l = is_deferred l.state && ltb 0 (pending_of inbox r l.source)

  unfoldable pub turn_to : Option Lane → Round → Round
  unfolding focus is_unresolved
  turn_to (some l) r = focus l.source r
  turn_to none r = if any (is_unresolved r) r.lanes then r else record r { is_open = false }

module _ (casefold : Text → Text) (inbox : List Draft) where
  -- The active source is dropped where nothing of it is pending or its lane is not active.
  unfoldable pub drop_stale : Round → Round
  unfolding pending_of queue_handle lookup
  drop_stale r =
      let s = queue_handle casefold r.active_source in
      if is_empty s
      then r
      else if not (ltb 0 (pending_of inbox r s))
          || not (is_active_lane (lookup Lane.source s r.lanes))
      then record r { active_source = [] }
      else r

  unfoldable pub reconcile_states : Round → Round
  unfolding reconcile_lanes drop_stale
  reconcile_states r = drop_stale (reconcile_lanes inbox r)

  unfoldable pub activate_next : Round → Round
  unfolding turn_to is_next queue_handle
  activate_next r =
      if not (is_empty (queue_handle casefold r.active_source))
      then r
      else turn_to inbox (find (is_next inbox r) (in_order r.lanes)) r
