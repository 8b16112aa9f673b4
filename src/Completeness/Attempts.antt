-- ===== src/Completeness/Attempts.antt =====
-- `CompletenessEngine` of app/completeness_engine.py, without `finish`: planning a run, starting an
-- attempt, the checkpoints while it runs, and closing a run. A write that raises is rolled back, so
-- an operation returns the new database or an error.
use jeonghan_daily_review_bo.Prelude.{
  ℕ, suc, Text, codes, ◌===◌, text_le, Bool, true, false, not, ◌&&◌, ◌||◌, Option, none, some, List,
  [], ◌∷◌, ◌++◌, length, take, select, find, any, update_where, if◌then◌else◌,
}
use jeonghan_daily_review_bo.Prelude.Table.{lookup}
use jeonghan_daily_review_bo.Handles.{queue_handle}
use jeonghan_daily_review_bo.Completeness.Core.{attempting, unproven}
use jeonghan_daily_review_bo.Completeness.Evidence.{
  Evidence, unproven_interrupted, unproven_not_attempted, attempt_interrupted, source_not_attempted,
}
use jeonghan_daily_review_bo.Completeness.Rows.{
  number, flag, text, texts, kind, reason, Json, Attempt, Cursor, Engine, cursor_key, of_run,
}

pub data Result {ℓ} (A : Type ℓ) : Type ℓ where
  ok : A → Result A
  value_error : Result A

-- `_load_evidence` and `payload.update`: the members of the second object replace those of the
-- first.
unfoldable pub update_json : Json → Json → Json
update_json old new = select (λ m. not (any (λ n. n.0 === m.0) new)) old ++ new

-- `checkpoint`. The identifiers are sorted by the parameter, and the first 5000 are kept.
abbrev pub checkpoint_payload : (List Text → List Text) → Evidence → Json
checkpoint_payload sorted e =
    (codes "evidence_version", number 1)
    ∷ (codes "core_contract_version", number 1)
    ∷ (codes "pages", number e.pages)
    ∷ (codes "pages_completed", number e.pages)
    ∷ (codes "raw_count", number e.raw_count)
    ∷ (codes "provider_cursor", text (take 4096 e.provider_cursor))
    ∷ (codes "valid_response", flag e.valid_response)
    ∷ (codes "expected_window_ids", texts (take 5000 (sorted e.expected_window_ids)))
    ∷ (codes "lower_boundary_proven", flag e.lower_boundary_proven)
    ∷ (codes "timeline_order_valid", flag e.timeline_order_valid)
    ∷ (codes "newest_top_level_at", text e.newest_top_level_at)
    ∷ (codes "oldest_top_level_at", text e.oldest_top_level_at)
    ∷ []

abbrev pub is_open : Text → Attempt → Bool
is_open id a = (a.attempt_id === id) && not a.finalized

unfoldable pub checkpoint : (List Text → List Text) → Text → Evidence → Engine → Engine
checkpoint sorted id ev e = record e {
  attempts =
      update_where (is_open id) (λ a. record a { evidence = checkpoint_payload sorted ev })
        e.attempts;
}

-- `link_observation`: the pair is the primary key of the table.
unfoldable pub link_observation : Text → Text → Engine → Engine
link_observation id post e =
    if any (is_open id) e.attempts && not (any (λ o. (o.0 === id) && (o.1 === post)) e.observations)
    then record e { observations = e.observations ++ (id, post) ∷ [] }
    else e

-- One entry of the configured sources.
pub record Source : Type 0 where
  pub enabled : Bool
  pub handle : Text

-- `INSERT OR IGNORE`: the attempt's id and the pair of run and source are unique.
unfoldable pub insert_attempt : Attempt → Engine → Engine
insert_attempt a e =
    if any (λ b. (b.attempt_id === a.attempt_id) || of_run a.run_id a.source b) e.attempts
    then e
    else record e { attempts = e.attempts ++ a ∷ []; last_sequence = a.sequence }

abbrev pub planned : ℕ → Text → Text → Text → ℕ → Text → Text → Attempt
planned sequence id run source index start end = record {
  sequence = sequence;
  attempt_id = id;
  run_id = run;
  source = source;
  source_order = index;
  window_start = start;
  window_end = end;
  status = unproven;
  attempted = false;
  retry_count = 0;
  evidence = [];
  error_class = codes "NotAttempted";
  retained_count = 0;
  legacy_status = [];
  finalized = false;
  started_at = [];
  finished_at = [];
  attempt_number = 0;
  cursor_before = [];
  cursor_candidate = [];
  cursor_after = [];
  cursor_advanced = false;
}

-- `handle or f"invalid-source-{index}"`; the text of a number is the parameter `decimal`.
abbrev pub or_invalid : (ℕ → Text) → ℕ → Text → Text
or_invalid decimal index [] = codes "invalid-source-" ++ decimal index
or_invalid decimal index (c ∷ s) = c ∷ s

-- The parameters are Python's: `str.casefold`, `str` of a number, `uuid.uuid4().hex` (a fresh name
-- for each call, here by the position in the run), and `utc`, which raises on what is no time with
-- a zone.
module _ (casefold : Text → Text) (decimal : ℕ → Text) (uuid : ℕ → Text)
    (utc : Text → Option Text) where
  -- The loop of `plan`.
  unfoldable pub plan_from : ℕ → Text → Text → Text → List Source → Engine → Engine
  unfolding insert_attempt queue_handle
  plan_from index run start end [] e = e
  plan_from index run start end (s ∷ rest) e = plan_from (suc index) run start end rest (
      if s.enabled
      then insert_attempt
          (planned (suc e.last_sequence) (uuid (suc index)) run
            (or_invalid decimal index (queue_handle casefold s.handle)) index start end)
          e
      else e)

  -- `plan`: the engine and the id of the run.
  unfoldable pub plan : List Source → Text → Text → Engine → Result (Engine × Text)
  unfolding plan_from
  plan sources start end e = elim (utc start) [
    | none ↦ value_error
    | some s ↦ elim (utc end) [
      | none ↦ value_error
      | some t ↦
          if text_le t s then value_error else ok (plan_from 0 (uuid 0) s t sources e, uuid 0)
    ]
  ]

-- `SELECT count(*) ... WHERE source=? AND window_start=? AND window_end=? AND attempted=1`
abbrev pub retries_of : Attempt → Engine → ℕ
retries_of row e = length (
    select
      (λ a.
        (a.source === row.source)
        && (a.window_start === row.window_start)
        && (a.window_end === row.window_end)
        && a.attempted)
      e.attempts)

-- The cursor of a source as a text: empty where there is none.
abbrev pub through_of : Option Cursor → Text
through_of none = []
through_of (some c) = c.complete_through

abbrev pub started : Text → Engine → Attempt → Attempt → Attempt
started now e row a = record a {
  attempted = true;
  status = attempting;
  error_class = [];
  retry_count = retries_of row e;
  attempt_number = suc (retries_of row e);
  started_at = now;
  cursor_before = through_of (lookup cursor_key row.source e.cursors);
  cursor_candidate = row.window_end;
  cursor_after = [];
  cursor_advanced = false;
}

-- `start`, of a handle that is normalised already.
unfoldable pub start_row : Text → Engine → Option Attempt → Result (Engine × Text)
start_row now e none = value_error
start_row now e (some row) =
    if row.finalized || row.attempted
    then value_error
    else ok (
      record e {
        attempts =
            update_where (λ a. a.attempt_id === row.attempt_id) (started now e row) e.attempts;
      },
      row.attempt_id,
    )

unfoldable pub start : (Text → Text) → Text → Text → Text → Engine → Result (Engine × Text)
unfolding start_row queue_handle
start casefold now run source e =
    start_row now e (find (of_run run (queue_handle casefold source)) e.attempts)

-- The rows of `close_run`: what is left unfinished is closed as unproven.
abbrev pub closed_reason : Text → Attempt → Text
closed_reason why a = if a.attempted then why else codes "NotAttempted"

abbrev pub closed_cursor : List Cursor → Attempt → Text
closed_cursor cursors a =
    if a.attempted then a.cursor_before else through_of (lookup cursor_key a.source cursors)

abbrev pub closed : Text → Text → List Cursor → Attempt → Attempt
closed now why cursors a = record a {
  status = unproven;
  error_class = closed_reason why a;
  evidence = update_json a.evidence (
      (codes "evidence_version", number 1)
      ∷ (codes "core_contract_version", number 1)
      ∷ (
        codes "proof_kind",
        kind (if a.attempted then unproven_interrupted else unproven_not_attempted),
      )
      ∷ (
        codes "termination_reason",
        reason (if a.attempted then attempt_interrupted else source_not_attempted),
      )
      ∷ (codes "error_summary", text (take 160 (closed_reason why a)))
      ∷ (codes "cursor_before", text (closed_cursor cursors a))
      ∷ (codes "cursor_candidate", text a.window_end)
      ∷ (codes "cursor_after", text (closed_cursor cursors a))
      ∷ (codes "cursor_advanced", flag false)
      ∷ []);
  finalized = true;
  finished_at = now;
  cursor_candidate = a.window_end;
  cursor_after = closed_cursor cursors a;
  cursor_advanced = false;
}

abbrev pub is_unfinished : Text → Attempt → Bool
is_unfinished run a = (a.run_id === run) && not a.finalized

unfoldable pub close_run : Text → Text → Text → Engine → Engine
unfolding update_json
close_run now why run e = record e {
  attempts = update_where (is_unfinished run) (closed now why e.cursors) e.attempts;
}
