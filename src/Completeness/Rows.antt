-- ===== src/Completeness/Rows.antt =====
-- The tables of app/completeness_engine.py. A JSON object is the list of its members.
use jeonghan_daily_review_bo.Prelude.{ℕ, Text, Bool, List, ◌===◌, ◌&&◌}
use jeonghan_daily_review_bo.Completeness.Core.{Status}
use jeonghan_daily_review_bo.Completeness.Evidence.{ProofKind, Reason}

pub data Value : Type 0 where
  number : ℕ → Value
  flag : Bool → Value
  text : Text → Value
  texts : List Text → Value
  kind : ProofKind → Value
  reason : Reason → Value

abbrev pub Json : Type 0
Json = List (Text × Value)

-- A row of `completeness_attempts`.
pub record Attempt : Type 0 where
  pub sequence : ℕ
  pub attempt_id : Text
  pub run_id : Text
  pub source : Text
  pub source_order : ℕ
  pub window_start : Text
  pub window_end : Text
  pub status : Status
  pub attempted : Bool
  pub retry_count : ℕ
  pub evidence : Json
  pub error_class : Text
  pub retained_count : ℕ
  pub legacy_status : Text
  pub finalized : Bool
  pub started_at : Text
  pub finished_at : Text
  pub attempt_number : ℕ
  pub cursor_before : Text
  pub cursor_candidate : Text
  pub cursor_after : Text
  pub cursor_advanced : Bool

-- A row of `completeness_shadow_cursors`.
pub record Cursor : Type 0 where
  pub source : Text
  pub complete_through : Text
  pub attempt_id : Text
  pub sequence : ℕ

-- The database: the engine's three tables, the last AUTOINCREMENT number, and the columns
-- `source_handle` and `last_status` of the ledger's `source_cursors`, which the engine only reads.
pub record Engine : Type 0 where
  pub attempts : List Attempt
  pub cursors : List Cursor
  pub observations : List (Text × Text)
  pub last_sequence : ℕ
  pub ledger_statuses : List (Text × Text)

abbrev pub attempt_key : Attempt → Text
attempt_key a = a.attempt_id

abbrev pub cursor_key : Cursor → Text
cursor_key c = c.source

abbrev pub of_run : Text → Text → Attempt → Bool
of_run run_id source a = (a.run_id === run_id) && (a.source === source)
