-- ===== src/Review/Rounds.antt =====
-- The tables of app/source_first_queue.py. A row of source_review_sessions is kept with its rows of
-- source_review_sources, the lanes, and of source_review_items, the items; the review inbox, which
-- another component writes, is read. Time stamps of changes, which no rule reads, are left out.
use jeonghan_daily_review_bo.Prelude.{
  ℕ, Text, Bool, true, false, ◌&&◌, none, some, List, length, select, ◌===◌, text_le, if◌then◌else◌,
  ltb, ◌==◌,
}
use jeonghan_daily_review_bo.Prelude.Table.{lookup}
use jeonghan_daily_review_bo.Prelude.Sort.{sort}

-- A row of review_inbox.
pub record Draft : Type 0 where
  pub draft_id : Text
  pub source : Text
  pub created_at : Text
  pub is_pending : Bool

pub data LaneState : Type 0 where
  pending active deferred complete : LaneState

pub data RetryStatus : Type 0 where
  never running success failed : RetryStatus

pub record Lane : Type 0 where
  pub source : Text
  pub source_order : ℕ
  pub state : LaneState
  pub retry_count : ℕ
  pub last_retry_status : RetryStatus
  pub last_retry_error : Text

pub record Item : Type 0 where
  pub draft_id : Text
  pub source : Text
  pub created_at : Text

pub record Round : Type 0 where
  pub session_id : Text
  pub is_open : Bool
  pub active_source : Text
  pub lanes : List Lane
  pub items : List Item

pub record Store : Type 0 where
  pub rounds : List Round
  pub inbox : List Draft

abbrev pub is_active : LaneState → Bool
is_active active = true
is_active _ = false

abbrev pub is_deferred : LaneState → Bool
is_deferred deferred = true
is_deferred _ = false

abbrev pub with_state : LaneState → Lane → Lane
with_state st l = record l { state = st }

-- Whether the inbox has a pending draft of this id.
unfoldable pub still_pending : List Draft → Text → Bool
unfolding lookup
still_pending inbox id = elim (lookup Draft.draft_id id inbox) [
  | none ↦ false
  | some d ↦ d.is_pending
]

-- The items of a source, and those of them whose draft is pending.
unfoldable pub total_of : Round → Text → ℕ
total_of r s = length (select (λ i. i.source === s) r.items)

unfoldable pub is_waiting : List Draft → Text → Item → Bool
unfolding still_pending
is_waiting inbox s i = i.source === s && still_pending inbox i.draft_id

unfoldable pub pending_of : List Draft → Round → Text → ℕ
unfolding is_waiting
pending_of inbox r s = length (select (is_waiting inbox s) r.items)

-- `ORDER BY source_order,source`
abbrev pub lane_le : Lane → Lane → Bool
lane_le a b =
    if a.source_order == b.source_order
    then text_le a.source b.source
    else ltb a.source_order b.source_order

-- `ORDER BY created_at,draft_id`
abbrev pub draft_le : Draft → Draft → Bool
draft_le a b =
    if a.created_at === b.created_at
    then text_le a.draft_id b.draft_id
    else text_le a.created_at b.created_at

abbrev pub in_order : List Lane → List Lane
in_order = sort lane_le
