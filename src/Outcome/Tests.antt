-- ===== src/Outcome/Tests.antt =====
-- A run of one source, and the theorems at it.
use jeonghan_daily_review_bo.Prelude.{
  Text, codes, text_dec, ◌≡◌, refl, true, false, List, [], ◌∷◌, arith,
}
use jeonghan_daily_review_bo.Handles.{is_space, drop_while, strip, lstrip_at}
use jeonghan_daily_review_bo.Names.{
  name_run, first_name, contains, names_secret, safe_error_code, truncate_error_class,
  normalize_source_handle, IsSafeName, error_names-IsSafeName,
}
use jeonghan_daily_review_bo.Outcome.Counters.{
  ProductionOutcome, fresh_outcome, partial_telegram_failure,
}
use jeonghan_daily_review_bo.Outcome.Classify.{
  recovery_reasons, degraded_reasons, classify_outcome, detect_useful_work,
}
use jeonghan_daily_review_bo.Outcome.Builder.{
  Call, set_source_totals, record_source_attempt, record_delivery, mark_state_checkpoint,
  set_cursor, source_attempt, step, run, finalize,
}
use jeonghan_daily_review_bo.Outcome.Sound.{
  IsCounted, IsClean, finalize-IsCounted, finalize-IsClean, classify-failed_sources,
}

program : Unit {0}
unfolding text_dec is_space drop_while strip lstrip_at name_run first_name contains names_secret
    safe_error_code truncate_error_class normalize_source_handle recovery_reasons degraded_reasons
    classify_outcome detect_useful_work source_attempt step run finalize
program = tt

abbrev plain : Text → Text
plain s = s

class_of_error : truncate_error_class plain (codes " TimeoutError: 30 s") ≡ codes "TimeoutError"
unfolding program
class_of_error = refl

no_secret : safe_error_code plain (codes "my_token=12") ≡ codes "Error"
unfolding program
no_secret = refl

strange_handle : normalize_source_handle plain (codes "@a/b") ≡ codes "unknown_source"
unfolding program
strange_handle = refl

abbrev good_calls : List Call
good_calls =
    set_source_totals 2 2 0
    ∷ record_source_attempt (codes "@han") true []
    ∷ record_source_attempt (codes "@jeong") false (codes "TimeoutError")
    ∷ record_delivery true
    ∷ mark_state_checkpoint true
    ∷ set_cursor true []
    ∷ []

abbrev good_run : ProductionOutcome
good_run = run plain plain good_calls fresh_outcome

half_delivered :
    (finalize (run plain plain (record_delivery false ∷ good_calls) fresh_outcome)).outcome_reasons
    ≡ partial_telegram_failure ∷ []
unfolding program
half_delivered = refl

error_names-IsSafeName_example :
    IsSafeName plain (safe_error_code plain (codes "A b"))
    × IsSafeName plain (truncate_error_class plain (codes "A b"))
error_names-IsSafeName_example = error_names-IsSafeName plain (codes "A b")

finalize-IsCounted_example : IsCounted (finalize good_run)
finalize-IsCounted_example = finalize-IsCounted plain plain good_calls

finalize-IsClean_example : IsClean (finalize good_run)
unfolding program
finalize-IsClean_example = finalize-IsClean plain plain good_calls refl

classify-failed_sources_example :
    classify_outcome (record good_run {
      source_collection = record good_run.source_collection { failed_source_count = 0 };
    })
    ≡ classify_outcome good_run
unfolding program
classify-failed_sources_example =
    classify-failed_sources good_run 0 refl (omega arith) (omega arith)
