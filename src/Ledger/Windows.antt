-- ===== src/Ledger/Windows.antt =====
-- `SourceLedgerStore` of app/source_ledger.py: `start_attempt`, `finish`, and the reads of the tables.
use jeonghan_daily_review_bo.Prelude.{
  ◌+◌, max, Text, Bool, ◌||◌, Option, none, some, List, [], ◌∷◌, find, is_empty, take, text_le,
  text_lt, if◌then◌else◌,
}
use jeonghan_daily_review_bo.Prelude.Table.{lookup, upsert}
use jeonghan_daily_review_bo.Handles.{norm_handle}
use jeonghan_daily_review_bo.Ledger.Rows.{
  WindowStatus, attempting, is_complete, WindowRow, CursorRow, Ledger, WindowResult, is_window,
}

-- `INSERT ... ON CONFLICT(source_handle, window_start, window_end) DO UPDATE`
unfoldable pub upsert_window :
    Text → Text → Text → WindowRow → (WindowRow → WindowRow) → List WindowRow → List WindowRow
upsert_window handle start end fresh f [] = fresh ∷ []
upsert_window handle start end fresh f (w ∷ ws) =
    if is_window handle start end w then f w ∷ ws else w ∷ upsert_window handle start end fresh f ws

abbrev pub attempted_window : Text → Text → Text → Text → Text → WindowRow
attempted_window handle start end id now = record {
  source_handle = handle;
  window_start = start;
  window_end = end;
  status = attempting;
  attempt_id = id;
  raw_observation_count = 0;
  retained_count = 0;
  retry_count = 0;
  error_class = [];
  error_summary = [];
  provider_cursor = [];
  proof_kind = [];
  first_attempted_at = now;
  last_attempted_at = now;
  completed_at = [];
  attempt_count = 1;
}

abbrev pub attempted_again : Text → Text → WindowRow → WindowRow
attempted_again id now w = record w {
  status = attempting;
  attempt_id = id;
  last_attempted_at = now;
  attempt_count = w.attempt_count + 1;
  retry_count = w.retry_count + 1;
  error_class = [];
  error_summary = [];
}

-- A cursor without a watermark, as `INSERT` makes it from the columns' defaults.
abbrev pub new_cursor : Text → WindowStatus → Text → Text → Text → Text → CursorRow
new_cursor handle st id error_class error_summary now = record {
  source_handle = handle;
  complete_through = [];
  provider_cursor = [];
  last_complete_window_start = [];
  last_complete_window_end = [];
  last_status = st;
  last_attempt_id = id;
  last_error_class = error_class;
  last_error_summary = error_summary;
  updated_at = now;
}

-- Nothing where the handle is empty, for which the call raises.
unfoldable pub start_attempt :
    (Text → Text) → Text → Text → Text → Text → Text → Ledger → Option Ledger
unfolding norm_handle upsert_window upsert
start_attempt casefold now source start end id l =
    let handle = norm_handle casefold source in
    if is_empty handle
    then none
    else some (record {
      windows =
          upsert_window handle start end (attempted_window handle start end id now)
            (attempted_again id now) l.windows;
      cursors =
          upsert CursorRow.source_handle handle (new_cursor handle attempting id [] [] now)
            (λ c. record c { last_status = attempting; last_attempt_id = id; updated_at = now })
            l.cursors;
    })

abbrev pub finished_window : Text → WindowResult → WindowRow
finished_window now r = record {
  source_handle = r.source_handle;
  window_start = r.window_start;
  window_end = r.window_end;
  status = r.status;
  attempt_id = r.attempt_id;
  raw_observation_count = r.raw_observation_count;
  retained_count = r.retained_count;
  retry_count = r.retry_count;
  error_class = take 160 r.error_class;
  error_summary = take 1000 r.error_summary;
  provider_cursor = take 4096 r.provider_cursor;
  proof_kind = take 120 r.proof_kind;
  first_attempted_at = now;
  last_attempted_at = now;
  completed_at = if is_complete r.status then now else [];
  attempt_count = 1;
}

-- The row that a conflict leaves: the new values, the first time and the count of attempts kept.
abbrev pub refinished_window : Text → WindowResult → WindowRow → WindowRow
refinished_window now r w = record (finished_window now r) {
  retry_count = max w.retry_count r.retry_count;
  first_attempted_at = w.first_attempted_at;
  attempt_count = w.attempt_count;
}

abbrev pub complete_cursor : Text → WindowResult → CursorRow
complete_cursor now r = record {
  source_handle = r.source_handle;
  complete_through = r.window_end;
  provider_cursor = r.provider_cursor;
  last_complete_window_start = r.window_start;
  last_complete_window_end = r.window_end;
  last_status = r.status;
  last_attempt_id = r.attempt_id;
  last_error_class = [];
  last_error_summary = [];
  updated_at = now;
}

-- `complete_through='' OR excluded.complete_through >= complete_through`, and with `>`.
abbrev pub reaches : Text → CursorRow → Bool
reaches end c = is_empty c.complete_through || text_le c.complete_through end

abbrev pub passes : Text → CursorRow → Bool
passes end c = is_empty c.complete_through || text_lt c.complete_through end

unfoldable pub advanced_cursor : Text → WindowResult → CursorRow → CursorRow
advanced_cursor now r c = record {
  source_handle = c.source_handle;
  provider_cursor = if reaches r.window_end c then r.provider_cursor else c.provider_cursor;
  last_complete_window_start =
      if reaches r.window_end c then r.window_start else c.last_complete_window_start;
  last_complete_window_end =
      if reaches r.window_end c then r.window_end else c.last_complete_window_end;
  complete_through = if passes r.window_end c then r.window_end else c.complete_through;
  last_status = r.status;
  last_attempt_id = r.attempt_id;
  last_error_class = [];
  last_error_summary = [];
  updated_at = now;
}

unfoldable pub failed_cursor : Text → WindowResult → CursorRow → CursorRow
failed_cursor now r c = record c {
  last_status = r.status;
  last_attempt_id = r.attempt_id;
  last_error_class = take 160 r.error_class;
  last_error_summary = take 1000 r.error_summary;
  updated_at = now;
}

unfoldable pub finish_cursors : Text → WindowResult → List CursorRow → List CursorRow
unfolding upsert advanced_cursor failed_cursor
finish_cursors now r cs =
    if is_complete r.status
    then upsert CursorRow.source_handle r.source_handle (complete_cursor now r)
        (advanced_cursor now r) cs
    else upsert CursorRow.source_handle r.source_handle
        (new_cursor r.source_handle r.status r.attempt_id (take 160 r.error_class)
          (take 1000 r.error_summary) now)
        (failed_cursor now r) cs

unfoldable pub finish : Text → WindowResult → Ledger → Ledger
unfolding finish_cursors upsert_window
finish now r l = record {
  windows =
      upsert_window r.source_handle r.window_start r.window_end (finished_window now r)
        (refinished_window now r) l.windows;
  cursors = finish_cursors now r l.cursors;
}

module _ (casefold : Text → Text) where
  unfoldable pub cursor : Text → Ledger → Option CursorRow
  unfolding lookup norm_handle
  cursor source l = lookup CursorRow.source_handle (norm_handle casefold source) l.cursors

  unfoldable pub window : Text → Text → Text → Ledger → Option WindowRow
  unfolding norm_handle
  window source start end l = find (is_window (norm_handle casefold source) start end) l.windows
