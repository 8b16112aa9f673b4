-- ===== src/Outcome/Classify.antt =====
-- `classify_outcome` and `_detect_useful_work` of app/production_outcome.py.
use jeonghan_daily_review_bo.Prelude.{
  Bool, true, false, not, ◌&&◌, ◌||◌, List, [], ◌∷◌, ◌++◌, ltb, ◌==◌, any, if◌then◌else◌,
}
use jeonghan_daily_review_bo.Outcome.Counters.{
  OutcomeStatus, healthy, degraded, recovery_required, failed, Reason, all_active_sources_failed,
  state_checkpoint_failed, database_checkpoint_failed, partial_collection_cursor_held,
  large_backlog_accumulated, recovery_dispatch_recommended, partial_source_collection,
  ai_fallback_used, translation_deferred, partial_telegram_failure, total_telegram_failure,
  media_delivery_partial_failure, cursor_not_advanced, ProductionOutcome,
}

-- A status with its reasons.
pub record Classified : Type 0 where
  pub status : OutcomeStatus
  pub reasons : List Reason

-- `if test: reasons.append(reason)`
abbrev pub append_if : Bool → Reason → List Reason → List Reason
append_if true r rs = rs ++ r ∷ []
append_if false r rs = rs

abbrev pub asks_recovery : Reason → Bool
asks_recovery partial_collection_cursor_held = true
asks_recovery recovery_dispatch_recommended = true
asks_recovery _ = false

module _ (o : ProductionOutcome) where
  abbrev pub all_sources_failed : Bool
  all_sources_failed =
      ltb 0 o.source_collection.active_source_count
      && o.source_collection.complete_source_count == 0
      && o.source_collection.failed_source_count == o.source_collection.active_source_count

  abbrev pub state_lost : Bool
  state_lost =
      not o.state.state_checkpoint_success && ltb 0 o.source_collection.attempted_source_count

  abbrev pub database_lost : Bool
  database_lost = o.state.database_checkpoint_attempted && not o.state.database_checkpoint_success

  abbrev pub large_backlog : Bool
  large_backlog = o.state.backlog_present && ltb 100 o.state.backlog_count

  abbrev pub held_partial : Bool
  held_partial =
      not o.source_collection.collection_complete
      && ltb 0 o.source_collection.partial_source_count
      && not o.state.cursor_advanced

  unfoldable pub recovery_reasons : List Reason
  recovery_reasons =
      append_if o.recovery.recovery_dispatch_recommended recovery_dispatch_recommended (
        append_if large_backlog large_backlog_accumulated
          (append_if held_partial partial_collection_cursor_held []))

  abbrev pub partial_sources : Bool
  partial_sources =
      ltb 0 o.source_collection.partial_source_count
      && ltb o.source_collection.failed_source_count o.source_collection.active_source_count

  abbrev pub some_undelivered : Bool
  some_undelivered =
      ltb 0 o.telegram.delivery_failure_count
      && ltb o.telegram.delivery_failure_count o.telegram.delivery_attempt_count

  abbrev pub none_delivered : Bool
  none_delivered =
      ltb 0 o.telegram.delivery_failure_count
      && ltb 0 o.telegram.delivery_attempt_count
      && o.telegram.delivery_success_count == 0

  abbrev pub cursor_held : Bool
  cursor_held =
      not o.state.cursor_advanced
      && ltb 0 o.source_collection.attempted_source_count
      && o.source_collection.collection_complete

  unfoldable pub degraded_reasons : List Reason
  degraded_reasons = append_if cursor_held cursor_not_advanced (
      append_if large_backlog large_backlog_accumulated (
        append_if (ltb 0 o.telegram.media_delivery_failure_count) media_delivery_partial_failure (
          append_if none_delivered total_telegram_failure (
            append_if some_undelivered partial_telegram_failure (
              append_if (ltb 0 o.ai.translation_deferral_count) translation_deferred (
                append_if (ltb 0 o.ai.fallback_writer_count) ai_fallback_used
                  (append_if partial_sources partial_source_collection [])))))))

  abbrev pub classify_degraded : List Reason → Classified
  classify_degraded [] = record { status = healthy; reasons = [] }
  classify_degraded (r ∷ rs) = record { status = degraded; reasons = r ∷ rs }

  unfoldable pub classify_outcome : Classified
  unfolding recovery_reasons degraded_reasons
  classify_outcome =
      if all_sources_failed
      then record { status = failed; reasons = all_active_sources_failed ∷ [] }
      else if state_lost
      then record { status = failed; reasons = state_checkpoint_failed ∷ [] }
      else if database_lost
      then record { status = failed; reasons = database_checkpoint_failed ∷ [] }
      else if any asks_recovery recovery_reasons
      then record { status = recovery_required; reasons = recovery_reasons }
      else classify_degraded degraded_reasons

  unfoldable pub detect_useful_work : Bool
  detect_useful_work =
      o.source_collection.collection_complete
      || ltb 0 o.telegram.delivery_success_count
      || ltb 0 o.discovery.retained_candidate_count
      || ltb 0 o.ai.ai_jobs_successful
      || not (
          ltb 0 o.source_collection.attempted_source_count
          && o.source_collection.complete_source_count == 0)
