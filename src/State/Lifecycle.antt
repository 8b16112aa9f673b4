-- ===== src/State/Lifecycle.antt =====
-- `_record_update_state` and `_quarantine_pending` of app/zero_silent_miss.py. Python's `str.isalnum`
-- is the parameter `is_alnum`; what is only observed, the log, is left out.
use jeonghan_daily_review_bo.Prelude.{
  ℕ, ◌+◌, ◌-◌, min, Text, codes, Bool, ◌||◌, Option, none, some, List, [], ◌∷◌, ◌++◌, length, take,
  drop, select, is_empty, ◌==◌, ◌===◌, if◌then◌else◌,
}
use jeonghan_daily_review_bo.Prelude.Table.{upsert}
use jeonghan_daily_review_bo.Handles.{strip, lstrip_at}
use jeonghan_daily_review_bo.State.Rows.{Row, Lifecycle, Data}

-- The keyword arguments of the call; an empty text is one that is not given.
pub record Change : Type 0 where
  pub status : Text
  pub stage : Text
  pub source : Text
  pub event_id : Text
  pub retrieval_attempt_id : Text
  pub retrieval_status : Text
  pub media_status : Text
  pub media_asset_ids : Text
  pub translation_status : Text
  pub translation_job_id : Text
  pub delivery_key : Text
  pub delivery_receipt_id : ℕ
  pub error_class : Text
  pub reason : Text
  pub retry_count : Option ℕ

abbrev pub plain_change : Text → Text → Change
plain_change status stage = record {
  status = status;
  stage = stage;
  source = [];
  event_id = [];
  retrieval_attempt_id = [];
  retrieval_status = [];
  media_status = [];
  media_asset_ids = [];
  translation_status = [];
  translation_job_id = [];
  delivery_key = [];
  delivery_receipt_id = 0;
  error_class = [];
  reason = [];
  retry_count = none;
}

-- The record that a first call starts from.
abbrev pub no_lifecycle : Text → Lifecycle
no_lifecycle id = record {
  update_id = id;
  source = [];
  event_id = [];
  retrieval_attempt_id = [];
  retrieval_status = [];
  media_status = [];
  media_asset_ids = [];
  translation_status = [];
  translation_job_id = [];
  delivery_key = [];
  delivery_receipt_id = 0;
  error_class = [];
  reason = [];
  retry_count = 0;
  status = [];
  stage = [];
  updated_at = [];
}

abbrev pub or_default : Text → Text → Text
or_default value other = if is_empty value then other else value

-- `if value: current[key] = str(value)[:limit]`
abbrev pub given : ℕ → Text → Text → Text
given limit value old = if is_empty value then old else take limit value

abbrev pub is_delivered : Text → Bool
is_delivered s = s === codes "delivered"

abbrev pub is_sent : Text → Bool
is_sent s = is_delivered s || s === codes "delivered_text_media_failed"

-- `retry_count` after a call, from the one before.
abbrev pub retries_after : Change → ℕ → ℕ
retries_after c old = elim c.retry_count [
  | some n ↦ n
  | none ↦ if c.status === codes "retry_pending" then min (old + 1) 1000 else old
]

abbrev pub quarantine_limit : ℕ
quarantine_limit = 1000

-- `del queue[:-limit]`
abbrev pub last_items {ℓ} : {A : Type ℓ} → ℕ → List A → List A
last_items n xs = drop (length xs - n) xs

module _ (is_alnum : ℕ → Bool) where
  abbrev pub is_code_char : ℕ → Bool
  is_code_char c = is_alnum c || c == b'.' || c == b'_' || c == b':' || c == b'-'

  unfoldable pub safe_code : Text → Text → Text
  unfolding strip
  safe_code value default =
      or_default (take 120 (select is_code_char (strip (or_default value default)))) default

  abbrev pub given_code : Text → Text → Text → Text
  given_code value default old = if is_empty value then old else safe_code value default

  -- The source is the author where an update is given, and else the argument where it is given.
  abbrev pub source_after : Option Text → Text → Text → Text
  source_after (some author) value old = author
  source_after none value old = given 80 (lstrip_at value) old

  unfoldable pub changed : Option Text → Change → Text → Lifecycle → Lifecycle
  unfolding safe_code lstrip_at
  changed author c now l = record {
    update_id = l.update_id;
    source = source_after author c.source l.source;
    event_id = given 160 c.event_id l.event_id;
    retrieval_attempt_id = given 80 c.retrieval_attempt_id l.retrieval_attempt_id;
    retrieval_status = given_code c.retrieval_status (codes "unknown") l.retrieval_status;
    media_status = given_code c.media_status (codes "unknown") l.media_status;
    media_asset_ids = given 600 c.media_asset_ids l.media_asset_ids;
    translation_status = given_code c.translation_status (codes "unknown") l.translation_status;
    translation_job_id = given 120 c.translation_job_id l.translation_job_id;
    delivery_key = given 180 c.delivery_key l.delivery_key;
    delivery_receipt_id =
        if c.delivery_receipt_id == 0 then l.delivery_receipt_id else c.delivery_receipt_id;
    error_class =
        given_code c.error_class (codes "Error") (if is_sent c.status then [] else l.error_class);
    reason = given_code c.reason (codes "unknown") (if is_delivered c.status then [] else l.reason);
    retry_count = retries_after c l.retry_count;
    status = safe_code c.status (codes "unknown");
    stage = safe_code c.stage (codes "unknown");
    updated_at = now;
  }

  -- `record_update_state`: the author is given where the call has an update and not an id.
  unfoldable pub record_update_state : Text → Option Text → Change → Text → Data → Data
  unfolding upsert changed
  record_update_state id author c now d = record d {
    update_lifecycle =
        upsert Lifecycle.update_id id (changed author c now (no_lifecycle id))
          (changed author c now) d.update_lifecycle;
  }

  -- `correlation` is the id that the lifecycle record of a row without an id gets, a digest.
  unfoldable pub quarantine_pending : (Row → Text) → Row → Text → Text → Text → Text → Data → Data
  unfolding record_update_state safe_code lstrip_at
  quarantine_pending correlation row reason update_id source now d =
      record_update_state (or_default update_id (correlation row)) none
        (record (plain_change (codes "quarantined_with_reason") (codes "queue")) {
          source = source;
          reason = reason;
        })
        now
        (record d {
          quarantined_delivery = last_items quarantine_limit (
              d.quarantined_delivery
              ++ record {
                quarantined_at = now;
                reason = safe_code reason (codes "unknown");
                update_id = take 120 update_id;
                source = take 80 (lstrip_at source);
                row = row;
              }
                ∷ []);
        })
