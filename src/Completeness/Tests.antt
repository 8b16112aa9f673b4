-- ===== src/Completeness/Tests.antt =====
-- The engine on small databases, and its theorems at them.
use jeonghan_daily_review_bo.Prelude.{
  ℕ, ◌+◌, Text, codes, text_dec, text_le, ◌≡◌, ◌≢◌, refl, true, false, Option, none, some, List, [],
  ◌∷◌,
}
use jeonghan_daily_review_bo.Prelude.Table.{lookup, upsert}
use jeonghan_daily_review_bo.Handles.{queue_handle}
use jeonghan_daily_review_bo.Completeness.Core.{request_evaluate, request_advance}
use jeonghan_daily_review_bo.Completeness.Evidence.{Evidence, proof_of, detail_of}
use jeonghan_daily_review_bo.Completeness.Rows.{Attempt, Engine, attempt_key}
use jeonghan_daily_review_bo.Completeness.Attempts.{
  Source, planned, plan, start, close_run, checkpoint,
}
use jeonghan_daily_review_bo.Completeness.Finish.{finish, judge, legacy_status}
use jeonghan_daily_review_bo.Completeness.Legacy.{finish-legacy_status}
use jeonghan_daily_review_bo.Completeness.Steps.{
  Platform, Call, plans, starts, finishes, closes, step, run,
}
use jeonghan_daily_review_bo.Completeness.Verdict.{IsProven, finish-IsProven}
use jeonghan_daily_review_bo.Completeness.Final.{IsFinal, HasDistinctIds}
use jeonghan_daily_review_bo.Completeness.History.{run-IsFinal}
use jeonghan_daily_review_bo.Completeness.Forward.{
  IsForward, cursor_at, run-IsForward, IsSound, run-IsSound,
}

program : Unit {0}
unfolding text_dec text_le lookup upsert queue_handle plan start close_run checkpoint finish judge
    request_evaluate request_advance proof_of detail_of step run
program = tt

-- A platform over texts of one letter, whose moment is the letter's code.
abbrev platform : Platform
platform = record {
  casefold = λ s. s;
  decimal = λ n. n ∷ [];
  utc = λ s. some s;
  instant = elim [ [] ↦ none | c ∷ s ↦ some c ];
  sorted = λ xs. xs;
}

abbrev names : ℕ → ℕ → Text
names base n = (base + n) ∷ []

abbrev two_sources : List Source
two_sources =
    record { enabled = true; handle = codes " @pledis_17 " }
    ∷ record { enabled = false; handle = codes "old" }
    ∷ record { enabled = true; handle = codes "@jeonghan" }
    ∷ []

abbrev empty_engine : Engine
empty_engine = record {
  attempts = [];
  cursors = [];
  observations = [];
  last_sequence = 0;
  ledger_statuses = (codes "zeta", codes "partial") ∷ (codes "jeonghan", codes "complete") ∷ [];
}

-- One page that shows the two posts that the window holds and ends the timeline.
abbrev whole_page : Evidence
whole_page = record {
  pages = 1;
  raw_count = 2;
  observation_ids = codes "11" ∷ codes "12" ∷ [];
  expected_window_ids = codes "12" ∷ [];
  provider_cursor = [];
  exhausted = true;
  valid_response = true;
  resumed = false;
  lower_boundary = false;
  lower_boundary_proven = false;
  timeline_order_valid = true;
  newest_top_level_at = codes "b";
  oldest_top_level_at = codes "a";
}

abbrev first_run : List Call
first_run =
    plans (names 100) two_sources (codes "a") (codes "b")
    ∷ starts (codes "t") (names 100 0) (codes "@jeonghan")
    ∷ []

abbrev started_engine : Engine
started_engine = run platform first_run empty_engine

abbrev finishing : Call
finishing = finishes (codes "u") (names 100 3) whole_page 2 (true, true) []

abbrev finished_engine : Engine
finished_engine = step platform finishing started_engine

cursor_test :
    cursor_at (codes "jeonghan") finished_engine
    ≡ some (record {
      source = codes "jeonghan";
      complete_through = codes "b";
      attempt_id = names 100 3;
      sequence = 2;
    })
unfolding program
cursor_test = refl

finish-IsProven_example : IsProven whole_page []
unfolding program
finish-IsProven_example =
    finish-IsProven (λ xs. xs) platform.instant (codes "u") (names 100 3) whole_page 2 (true, true)
      [] started_engine finished_engine _ _ refl refl refl refl refl

started-distinct : HasDistinctIds started_engine
unfolding program
started-distinct = (refl, (refl, tt))

abbrev later_calls : List Call
later_calls =
    closes (codes "v") (codes "Interrupted") (names 100 0)
    ∷ finishes (codes "w") (names 100 3) whole_page 9 (false, true) (codes "Late")
    ∷ plans (names 200) two_sources (codes "b") (codes "c")
    ∷ starts (codes "x") (names 200 0) (codes "jeonghan")
    ∷ []

finished-distinct : HasDistinctIds finished_engine
unfolding program
finished-distinct = (refl, (refl, tt))

abbrev row_or : Attempt → Option Attempt → Attempt
row_or a none = a
row_or a (some b) = b

abbrev finished_row : Attempt
finished_row =
    row_or (planned 0 [] [] [] 0 [] []) (lookup attempt_key (names 100 3) finished_engine.attempts)

run-IsFinal_example : IsFinal (names 100 3) finished_row (run platform later_calls finished_engine)
unfolding program
run-IsFinal_example =
    run-IsFinal platform (names 100 3) finished_row later_calls finished_engine finished-distinct
      (record { stored = refl; final = refl })

run-IsForward_example :
    IsForward
      (cursor_at (codes "jeonghan") finished_engine)
      (cursor_at (codes "jeonghan") (run platform later_calls finished_engine))
run-IsForward_example = run-IsForward platform (codes "jeonghan") later_calls finished_engine

run-IsSound_example : IsSound (run platform (finishing ∷ later_calls) started_engine)
unfolding program
run-IsSound_example =
    run-IsSound platform (finishing ∷ later_calls) started_engine
      (record { distinct = started-distinct; backed = λ s c at. absurd (cc) })

finish-legacy_status_example :
    (codes "jeonghan" ≢ codes "zeta")
    × (legacy_status finished_engine.ledger_statuses ≡ codes "partial")
unfolding program
finish-legacy_status_example =
    finish-legacy_status (λ xs. xs) platform.instant (codes "u") (names 100 3) whole_page 2
      (true, true) [] started_engine finished_engine _ _ (codes "zeta") (codes "partial") _ refl
      refl refl (cc) refl refl
