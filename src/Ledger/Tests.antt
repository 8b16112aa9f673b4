-- ===== src/Ledger/Tests.antt =====
-- A ledger of one source, and the theorems at it.
use jeonghan_daily_review_bo.Prelude.{
  Text, codes, text_dec, text_le, ◌≡◌, refl, ◌⊎◌, true, List, [], ◌∷◌, any,
}
use jeonghan_daily_review_bo.Prelude.Table.{lookup, upsert}
use jeonghan_daily_review_bo.Handles.{is_space, drop_while, strip, lstrip_at, norm_handle}
use jeonghan_daily_review_bo.Ledger.Rows.{
  WindowStatus, complete, partial, Ledger, WindowResult, checked,
}
use jeonghan_daily_review_bo.Ledger.Windows.{
  upsert_window, start_attempt, advanced_cursor, failed_cursor, finish_cursors, finish,
}
use jeonghan_daily_review_bo.Ledger.Watermark.{
  Call, starts, results, step, run, through_of, run-forward,
}
use jeonghan_daily_review_bo.Ledger.Source.{completes, run-source}

program : Unit {0}
unfolding text_dec text_le lookup upsert is_space drop_while strip lstrip_at norm_handle checked
    upsert_window start_attempt advanced_cursor failed_cursor finish_cursors finish step run
    completes
program = tt

abbrev plain : Text → Text
plain s = s

abbrev result : Text → Text → WindowStatus → WindowResult
result start end st = record {
  source_handle = codes "@han";
  window_start = start;
  window_end = end;
  status = st;
  attempt_id = [];
  raw_observation_count = 3;
  retained_count = 1;
  retry_count = 0;
  error_class = [];
  error_summary = [];
  provider_cursor = [];
  proof_kind = [];
}

abbrev calls : List Call
calls =
    starts (codes "t0") (codes "@han") (codes "01") (codes "02") (codes "a")
    ∷ results (codes "t1") (result (codes "01") (codes "02") complete)
    ∷ results (codes "t2") (result (codes "02") (codes "03") partial)
    ∷ results (codes "t3") (result (codes "00") (codes "01") complete)
    ∷ []

abbrev no_rows : Ledger
no_rows = record { windows = []; cursors = [] }

only_complete : through_of (codes "han") (run plain calls no_rows).cursors ≡ codes "02"
unfolding program
only_complete = refl

run-forward_example :
    text_le
      (through_of (codes "han") no_rows.cursors)
      (through_of (codes "han") (run plain calls no_rows).cursors)
    ≡ true
run-forward_example = run-forward plain (codes "han") calls no_rows

run-source_example :
    (through_of (codes "han") (run plain calls no_rows).cursors
      ≡ through_of (codes "han") no_rows.cursors)
    ⊎ (any
          (completes plain
            (codes "han")
            (through_of (codes "han") (run plain calls no_rows).cursors))
          calls
        ≡ true)
run-source_example = run-source plain (codes "han") calls no_rows
