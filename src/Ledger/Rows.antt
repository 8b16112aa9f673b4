-- ===== src/Ledger/Rows.antt =====
-- `SourceWindowResult` and the tables of app/source_ledger.py.
use jeonghan_daily_review_bo.Prelude.{
  ℕ, Text, Bool, true, false, ◌&&◌, ◌||◌, Option, none, some, List, is_empty, ◌===◌, if◌then◌else◌,
}
use jeonghan_daily_review_bo.Handles.{norm_handle}

-- `SourceWindowStatus`
pub data WindowStatus : Type 0 where
  attempting complete partial unproven : WindowStatus

abbrev pub is_complete : WindowStatus → Bool
is_complete complete = true
is_complete _ = false

-- A row of source_windows.
pub record WindowRow : Type 0 where
  pub source_handle : Text
  pub window_start : Text
  pub window_end : Text
  pub status : WindowStatus
  pub attempt_id : Text
  pub raw_observation_count : ℕ
  pub retained_count : ℕ
  pub retry_count : ℕ
  pub error_class : Text
  pub error_summary : Text
  pub provider_cursor : Text
  pub proof_kind : Text
  pub first_attempted_at : Text
  pub last_attempted_at : Text
  pub completed_at : Text
  pub attempt_count : ℕ

-- A row of source_cursors.
pub record CursorRow : Type 0 where
  pub source_handle : Text
  pub complete_through : Text
  pub provider_cursor : Text
  pub last_complete_window_start : Text
  pub last_complete_window_end : Text
  pub last_status : WindowStatus
  pub last_attempt_id : Text
  pub last_error_class : Text
  pub last_error_summary : Text
  pub updated_at : Text

pub record Ledger : Type 0 where
  pub windows : List WindowRow
  pub cursors : List CursorRow

-- `SourceWindowResult`
pub record WindowResult : Type 0 where
  pub source_handle : Text
  pub window_start : Text
  pub window_end : Text
  pub status : WindowStatus
  pub attempt_id : Text
  pub raw_observation_count : ℕ
  pub retained_count : ℕ
  pub retry_count : ℕ
  pub error_class : Text
  pub error_summary : Text
  pub provider_cursor : Text
  pub proof_kind : Text

-- `__post_init__`: nothing where it raises.
unfoldable pub checked : (Text → Text) → WindowResult → Option WindowResult
unfolding norm_handle
checked casefold w =
    let handle = norm_handle casefold w.source_handle in
    if is_empty handle || is_empty w.window_start || is_empty w.window_end
    then none
    else some (record w { source_handle = handle })

-- The primary key of source_windows.
abbrev pub is_window : Text → Text → Text → WindowRow → Bool
is_window handle start end w =
    w.source_handle === handle && w.window_start === start && w.window_end === end
