-- ===== src/Completeness/Finish.antt =====
-- `CompletenessEngine.finish` of app/completeness_engine.py.
use jeonghan_daily_review_bo.Prelude.{
  ℕ, ◌-◌, Text, codes, ◌===◌, text_le, text_lt, Bool, true, false, not, ◌&&◌, Option, none, some,
  List, [], ◌∷◌, length, take, update_where, ltb, if◌then◌else◌,
}
use jeonghan_daily_review_bo.Prelude.Table.{lookup, upsert}
use jeonghan_daily_review_bo.Completeness.Core.{
  Status, Proof, attempting, complete, partial, unproven, is_complete, request_evaluate,
  request_advance,
}
use jeonghan_daily_review_bo.Completeness.Evidence.{
  Evidence, Detail, proof_of, detail_of, verdict_metadata, core_unavailable,
}
use jeonghan_daily_review_bo.Completeness.Rows.{
  number, flag, text, texts, kind, reason, Json, Attempt, Cursor, Engine, attempt_key, cursor_key,
}
use jeonghan_daily_review_bo.Completeness.Attempts.{Result, ok, value_error}

-- The status and the error class as they are reassigned in the method.
pub record Verdict : Type 0 where
  pub status : Status
  pub error_class : Text

abbrev pub unavailable : Verdict
unavailable = record { status = unproven; error_class = core_unavailable }

-- The `try` around the first request: a status that is none of the three is an error too.
unfoldable pub judge : Bool → Proof → Text → Verdict
unfolding request_evaluate
judge reached proof error_class = elim (request_evaluate reached proof) [
  | none ↦ unavailable
  | some attempting ↦ unavailable
  | some complete ↦ record { status = complete; error_class = error_class }
  | some partial ↦ record { status = partial; error_class = error_class }
  | some unproven ↦ record { status = unproven; error_class = error_class }
]

-- What the block on the cursor leaves: the verdict, the cursors, and two flags.
pub record Advance : Type 0 where
  pub verdict : Verdict
  pub cursors : List Cursor
  pub advanced : Bool
  pub cursor_gap : Bool

abbrev pub is_eligible : Attempt → Option Cursor → Bool
is_eligible row none = true
is_eligible row (some c) = text_lt c.complete_through row.window_end && ltb c.sequence row.sequence

abbrev pub is_contiguous : Attempt → Option Cursor → Bool
is_contiguous row none = true
is_contiguous row (some c) = text_le row.window_start c.complete_through

abbrev pub through? : Option Cursor → Option Text
through? none = none
through? (some c) = some c.complete_through

abbrev pub cursor_of : Attempt → Text → Text → Cursor
cursor_of row id through = record {
  source = row.source;
  complete_through = through;
  attempt_id = id;
  sequence = row.sequence;
}

module _ (instant : Text → Option ℕ) where
  -- The second request, and the write of the cursor if the core confirms the candidate.
  unfoldable pub write_cursor :
      Bool → Text → Attempt → Option Cursor → Verdict → List Cursor → Advance
  write_cursor reached id row cursor v cursors =
      elim (request_advance instant reached
        (record {
          window_start = row.window_start;
          window_end = row.window_end;
          completeness = v.status;
          complete_through = through? cursor;
        })
        row.window_end) [
          | none ↦ record {
            verdict = unavailable;
            cursors = cursors;
            advanced = false;
            cursor_gap = false;
          }
          | some through ↦
              if through === row.window_end
              then record {
                verdict = v;
                cursors =
                    upsert cursor_key row.source (cursor_of row id through)
                      (λ c. cursor_of row id through) cursors;
                advanced = true;
                cursor_gap = false;
              }
              else record {
                verdict = unavailable;
                cursors = cursors;
                advanced = false;
                cursor_gap = false;
              }
        ]

  -- The block under `if status == "complete"`.
  unfoldable pub advance_cursor : Bool → Text → Attempt → Verdict → List Cursor → Advance
  unfolding write_cursor
  advance_cursor reached id row v cursors =
      let cursor = lookup cursor_key row.source cursors in
      let still : Advance = record {
        verdict = v;
        cursors = cursors;
        advanced = false;
        cursor_gap = is_complete v.status && not (is_contiguous row cursor);
      } in
      if is_complete v.status && is_eligible row cursor && is_contiguous row cursor
      then write_cursor reached id row cursor v cursors
      else still

-- The cursor of the source after the block, as the method reads it back.
abbrev pub cursor_after : Attempt → List Cursor → Text
cursor_after row cursors = elim (lookup cursor_key row.source cursors) [
  | none ↦ row.cursor_before
  | some c ↦ c.complete_through
]

-- "advanced" means that this attempt moved the cursor.
abbrev pub really_advanced : Attempt → Advance → Bool
really_advanced row a = a.advanced && not (cursor_after row a.cursors === row.cursor_before)

abbrev pub gap_member : Bool → Json
gap_member true = (codes "cursor_gap", flag true) ∷ []
gap_member false = []

module _ (sorted : List Text → List Text) where
  -- The stored evidence.
  unfoldable pub finish_payload : Evidence → Proof → Detail → Attempt → Advance → Json
  finish_payload ev p d row a =
      let meta = verdict_metadata a.verdict.status ev d a.verdict.error_class in
      (codes "evidence_version", number 1)
      ∷ (codes "core_contract_version", number 1)
      ∷ (codes "pages", number p.pages)
      ∷ (codes "raw_count", number p.raw_count)
      ∷ (codes "valid_response", flag p.valid_response)
      ∷ (codes "exhausted", flag p.exhausted)
      ∷ (codes "resumed", flag p.resumed)
      ∷ (codes "lower_boundary", flag p.lower_boundary)
      ∷ (codes "failed", flag p.failed)
      ∷ (codes "provider_exhausted", flag d.provider_exhausted)
      ∷ (codes "lower_boundary_observed", flag d.lower_boundary_observed)
      ∷ (codes "lower_boundary_proven", flag d.lower_boundary_proven)
      ∷ (codes "timeline_order_valid", flag d.timeline_order_valid)
      ∷ (codes "expected_window_ids", texts (sorted d.expected_window_ids))
      ∷ (codes "expected_window_count", number (length d.expected_window_ids))
      ∷ (
        codes "observed_expected_count",
        number (length d.expected_window_ids - length d.missing_expected_ids),
      )
      ∷ (codes "missing_expected_ids", texts (sorted d.missing_expected_ids))
      ∷ (codes "expected_coverage_complete", flag d.expected_coverage_complete)
      ∷ (codes "terminal_proven", flag d.terminal_proven)
      ∷ (codes "newest_top_level_at", text ev.newest_top_level_at)
      ∷ (codes "oldest_top_level_at", text ev.oldest_top_level_at)
      ∷ (codes "pages_completed", number ev.pages)
      ∷ (codes "provider_cursor", text (take 4096 ev.provider_cursor))
      ∷ (codes "raw_observation_count", number (length ev.observation_ids))
      ∷ (codes "observation_ids", texts (sorted ev.observation_ids))
      ∷ (codes "proof_kind", kind meta.0)
      ∷ (codes "termination_reason", reason meta.1)
      ∷ (codes "error_summary", text (take 160 a.verdict.error_class))
      ∷ (codes "cursor_before", text row.cursor_before)
      ∷ (codes "cursor_candidate", text row.window_end)
      ∷ (codes "cursor_after", text (cursor_after row a.cursors))
      ∷ (codes "cursor_advanced", flag (really_advanced row a))
      ∷ gap_member a.cursor_gap

-- `COALESCE((SELECT last_status FROM source_cursors WHERE source=?),'')`. The table has no column
-- `source`: SQLite reads the one of the row under update, which is equal to the argument, so the
-- test passes on every row and the first is taken.
abbrev pub legacy_status : List (Text × Text) → Text
legacy_status [] = []
legacy_status ((handle, status) ∷ rows) = status

abbrev pub finished : Text → Json → ℕ → Engine → Attempt → Advance → Attempt → Attempt
finished now payload retained e row a b = record b {
  status = a.verdict.status;
  evidence = payload;
  error_class = take 160 a.verdict.error_class;
  retained_count = retained;
  finalized = true;
  finished_at = now;
  cursor_candidate = row.window_end;
  cursor_after = cursor_after row a.cursors;
  cursor_advanced = really_advanced row a;
  legacy_status = legacy_status e.ledger_statuses;
}

module _ (sorted : List Text → List Text) (instant : Text → Option ℕ) (now : Text) (id : Text)
    (ev : Evidence) (retained : ℕ) where
  -- The write of an attempt that is open, under what the block on the cursor gave.
  unfoldable pub finish_write : Text → Attempt → Advance → Engine → Engine
  unfolding finish_payload proof_of detail_of
  finish_write error_class row a e = record e {
    attempts =
        update_where (λ b. b.attempt_id === id)
          (finished now (finish_payload sorted ev (proof_of ev error_class) (detail_of ev) row a)
            retained e row a)
          e.attempts;
    cursors = a.cursors;
  }

  -- The transaction: `reached` says of each request whether the call of the core succeeds.
  unfoldable pub finish_row : Bool × Bool → Text → Engine → Option Attempt → Result Engine
  unfolding judge advance_cursor finish_write proof_of
  finish_row reached error_class e none = value_error
  finish_row reached error_class e (some row) =
      if not row.attempted
      then value_error
      else if row.finalized
      then ok e
      else ok (
          finish_write error_class row
            (advance_cursor instant reached.1 id row
              (judge reached.0 (proof_of ev error_class) error_class) e.cursors)
            e)

  unfoldable pub finish : Bool × Bool → Text → Engine → Result Engine
  unfolding finish_row
  finish reached error_class e = finish_row reached error_class e (lookup attempt_key id e.attempts)
