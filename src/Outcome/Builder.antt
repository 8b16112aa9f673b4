-- ===== src/Outcome/Builder.antt =====
-- `OutcomeBuilder` of app/production_outcome.py: the calls that a run makes, and `finalize`.
use jeonghan_daily_review_bo.Prelude.{
  ℕ, suc, ◌+◌, Text, Bool, true, false, not, List, [], ◌∷◌, ◌++◌, is_empty, ltb, if◌then◌else◌,
}
use jeonghan_daily_review_bo.Names.{truncate_error_class, normalize_source_handle}
use jeonghan_daily_review_bo.Outcome.Counters.{
  SourceCollection, Discovery, AiJobs, Deliveries, Recovery, ProductionOutcome,
}
use jeonghan_daily_review_bo.Outcome.Classify.{classify_outcome, detect_useful_work}

pub data Call : Type 0 where
  set_source_totals : ℕ → ℕ → ℕ → Call
  record_source_attempt : Text → Bool → Text → Call
  set_fallback_source_count : ℕ → Call
  mark_collection_complete : Call
  set_discovery : Discovery → Call
  record_ai_job : Bool → Bool → Bool → Call
  record_translation_deferral record_manual_review : ℕ → Call
  record_delivery record_media_delivery : Bool → Call
  mark_state_checkpoint mark_database_checkpoint : Bool → Call
  set_cursor : Bool → Text → Call
  set_backlog : ℕ → Call
  mark_recovery_artifact : Bool → Call
  set_recovery : Recovery → Call

abbrev pub add_if : Bool → ℕ → ℕ
add_if true n = suc n
add_if false n = n

module _ (casefold lower : Text → Text) where
  unfoldable pub source_attempt : Text → Bool → Text → SourceCollection → SourceCollection
  unfolding truncate_error_class normalize_source_handle
  source_attempt handle complete error sc =
      if complete
      then record sc {
        attempted_source_count = suc sc.attempted_source_count;
        complete_source_count = suc sc.complete_source_count;
      }
      else if not (is_empty error)
      then record sc {
        attempted_source_count = suc sc.attempted_source_count;
        failed_source_count = suc sc.failed_source_count;
        failed_source_handles =
            sc.failed_source_handles ++ normalize_source_handle lower handle ∷ [];
        failed_source_reasons =
            sc.failed_source_reasons ++ truncate_error_class casefold error ∷ [];
      }
      else record sc {
        attempted_source_count = suc sc.attempted_source_count;
        partial_source_count = suc sc.partial_source_count;
      }

  abbrev pub ai_job : Bool → Bool → Bool → AiJobs → AiJobs
  ai_job success timeout fallback ai = record ai {
    ai_jobs_attempted = suc ai.ai_jobs_attempted;
    ai_jobs_successful = add_if success ai.ai_jobs_successful;
    ai_jobs_failed = add_if (not success) ai.ai_jobs_failed;
    ai_timeout_count = add_if timeout ai.ai_timeout_count;
    fallback_writer_count = add_if fallback ai.fallback_writer_count;
  }

  abbrev pub delivery : Bool → Deliveries → Deliveries
  delivery success tg = record tg {
    delivery_attempt_count = suc tg.delivery_attempt_count;
    delivery_success_count = add_if success tg.delivery_success_count;
    delivery_failure_count = add_if (not success) tg.delivery_failure_count;
  }

  abbrev pub media_delivery : Bool → Deliveries → Deliveries
  media_delivery success tg = record tg {
    media_delivery_success_count = add_if success tg.media_delivery_success_count;
    media_delivery_failure_count = add_if (not success) tg.media_delivery_failure_count;
  }

  unfoldable pub step : Call → ProductionOutcome → ProductionOutcome
  unfolding source_attempt
  step (set_source_totals configured active disabled) o = record o {
    source_collection = record o.source_collection {
      configured_source_count = configured;
      active_source_count = active;
      disabled_source_count = disabled;
    };
  }
  step (record_source_attempt handle complete error) o = record o {
    source_collection = source_attempt handle complete error o.source_collection;
  }
  step (set_fallback_source_count n) o = record o {
    source_collection = record o.source_collection { fallback_source_count = n };
  }
  step mark_collection_complete o = record o {
    source_collection = record o.source_collection { collection_complete = true };
  }
  step (set_discovery d) o = record o { discovery = d }
  step (record_ai_job success timeout fallback) o = record o {
    ai = ai_job success timeout fallback o.ai;
  }
  step (record_translation_deferral n) o = record o {
    ai = record o.ai { translation_deferral_count = o.ai.translation_deferral_count + n };
  }
  step (record_manual_review n) o = record o {
    ai = record o.ai { manual_review_count = o.ai.manual_review_count + n };
  }
  step (record_delivery success) o = record o { telegram = delivery success o.telegram }
  step (record_media_delivery success) o = record o { telegram = media_delivery success o.telegram }
  step (mark_state_checkpoint success) o = record o {
    state = record o.state { state_checkpoint_success = success };
  }
  step (mark_database_checkpoint success) o = record o {
    state = record o.state {
      database_checkpoint_attempted = true;
      database_checkpoint_success = success;
    };
  }
  step (set_cursor advanced reason) o = record o {
    state = record o.state { cursor_advanced = advanced; cursor_reason = reason };
  }
  step (set_backlog n) o = record o {
    state = record o.state { backlog_count = n; backlog_present = ltb 0 n };
  }
  step (mark_recovery_artifact created) o = record o {
    state = record o.state { recovery_artifact_created = created };
  }
  step (set_recovery r) o = record o { recovery = r }

  unfoldable pub run : List Call → ProductionOutcome → ProductionOutcome
  unfolding step
  run [] o = o
  run (c ∷ cs) o = run cs (step c o)

unfoldable pub finalize : ProductionOutcome → ProductionOutcome
unfolding classify_outcome detect_useful_work
finalize o = record o {
  outcome_status = (classify_outcome o).status;
  outcome_reasons = (classify_outcome o).reasons;
  useful_work_performed = detect_useful_work o;
}
