-- ===== src/Outcome/Counters.antt =====
-- The counters of a run: the data classes of app/production_outcome.py.
use jeonghan_daily_review_bo.Prelude.{ℕ, Text, Bool, true, false, List, []}

pub data OutcomeStatus : Type 0 where
  healthy degraded recovery_required failed : OutcomeStatus

pub record SourceCollection : Type 0 where
  pub configured_source_count : ℕ
  pub active_source_count : ℕ
  pub attempted_source_count : ℕ
  pub complete_source_count : ℕ
  pub partial_source_count : ℕ
  pub failed_source_count : ℕ
  pub disabled_source_count : ℕ
  pub failed_source_handles : List Text
  pub failed_source_reasons : List Text
  pub fallback_source_count : ℕ
  pub collection_complete : Bool

pub record Discovery : Type 0 where
  pub discovered_record_count : ℕ
  pub retained_candidate_count : ℕ
  pub duplicate_drop_count : ℕ
  pub filtered_drop_count : ℕ

pub record AiJobs : Type 0 where
  pub ai_jobs_attempted : ℕ
  pub ai_jobs_successful : ℕ
  pub ai_jobs_failed : ℕ
  pub ai_timeout_count : ℕ
  pub fallback_writer_count : ℕ
  pub translation_deferral_count : ℕ
  pub manual_review_count : ℕ

pub record Deliveries : Type 0 where
  pub delivery_attempt_count : ℕ
  pub delivery_success_count : ℕ
  pub delivery_failure_count : ℕ
  pub media_delivery_success_count : ℕ
  pub media_delivery_failure_count : ℕ

pub record StateOutcome : Type 0 where
  pub state_checkpoint_success : Bool
  pub database_checkpoint_attempted : Bool
  pub database_checkpoint_success : Bool
  pub cursor_advanced : Bool
  pub cursor_reason : Text
  pub backlog_count : ℕ
  pub backlog_present : Bool
  pub recovery_artifact_created : Bool

pub record Recovery : Type 0 where
  pub recovery_required : Bool
  pub recovery_reason : Text
  pub recovery_dispatch_recommended : Bool
  pub previous_recovery_context : Text

-- The reasons that `classify_outcome` gives.
pub data Reason : Type 0 where
  all_active_sources_failed state_checkpoint_failed database_checkpoint_failed : Reason
  partial_collection_cursor_held large_backlog_accumulated recovery_dispatch_recommended : Reason
  partial_source_collection ai_fallback_used translation_deferred partial_telegram_failure : Reason
  total_telegram_failure media_delivery_partial_failure cursor_not_advanced : Reason

-- `ProductionOutcome`, without the texts that identify the run.
pub record ProductionOutcome : Type 0 where
  pub source_collection : SourceCollection
  pub discovery : Discovery
  pub ai : AiJobs
  pub telegram : Deliveries
  pub state : StateOutcome
  pub recovery : Recovery
  pub outcome_status : OutcomeStatus
  pub outcome_reasons : List Reason
  pub useful_work_performed : Bool

abbrev pub fresh_outcome : ProductionOutcome
fresh_outcome = record {
  source_collection = record {
    configured_source_count = 0;
    active_source_count = 0;
    attempted_source_count = 0;
    complete_source_count = 0;
    partial_source_count = 0;
    failed_source_count = 0;
    disabled_source_count = 0;
    failed_source_handles = [];
    failed_source_reasons = [];
    fallback_source_count = 0;
    collection_complete = false;
  };
  discovery = record {
    discovered_record_count = 0;
    retained_candidate_count = 0;
    duplicate_drop_count = 0;
    filtered_drop_count = 0;
  };
  ai = record {
    ai_jobs_attempted = 0;
    ai_jobs_successful = 0;
    ai_jobs_failed = 0;
    ai_timeout_count = 0;
    fallback_writer_count = 0;
    translation_deferral_count = 0;
    manual_review_count = 0;
  };
  telegram = record {
    delivery_attempt_count = 0;
    delivery_success_count = 0;
    delivery_failure_count = 0;
    media_delivery_success_count = 0;
    media_delivery_failure_count = 0;
  };
  state = record {
    state_checkpoint_success = false;
    database_checkpoint_attempted = false;
    database_checkpoint_success = false;
    cursor_advanced = false;
    cursor_reason = [];
    backlog_count = 0;
    backlog_present = false;
    recovery_artifact_created = false;
  };
  recovery = record {
    recovery_required = false;
    recovery_reason = [];
    recovery_dispatch_recommended = false;
    previous_recovery_context = [];
  };
  outcome_status = healthy;
  outcome_reasons = [];
  useful_work_performed = true;
}
