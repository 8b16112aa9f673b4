-- ===== src/State/Calls.antt =====
-- The other calls of `StateStore`, of app/state.py and app/zero_silent_miss.py, and the call histories.
-- A moment is a text; `read_time` is `datetime.fromisoformat` after the `Z` is replaced, in microseconds from
-- year 1, and the clock gives a text and its microseconds.
use jeonghan_daily_review_bo.Prelude.{
  ℕ, ◌+◌, ◌-◌, ◌*◌, min, Text, codes, ◌===◌, text_le, Bool, not, ◌||◌, Option, none, some, List, [],
  ◌∷◌, ◌++◌, length, take, select, is_empty, any, leb, if◌then◌else◌,
}
use jeonghan_daily_review_bo.Prelude.Table.{lookup, upsert, delete}
use jeonghan_daily_review_bo.Prelude.Sort.{sort}
use jeonghan_daily_review_bo.Handles.{strip}
use jeonghan_daily_review_bo.Models.{Update, Draft}
use jeonghan_daily_review_bo.State.Rows.{
  Row, entry, foreign, Seen, Archived, Session, Awaited, Failure, Lifecycle, Data,
}
use jeonghan_daily_review_bo.State.Lifecycle.{
  plain_change, or_default, record_update_state, quarantine_limit, last_items,
}
use jeonghan_daily_review_bo.State.Store.{put, record_seen, pop_id}

abbrev pub microseconds_per_day : ℕ
microseconds_per_day = 86400000000

-- `_parse_dt`
unfoldable pub parse_dt : (Text → Option ℕ) → Text → ℕ
parse_dt read_time value = elim (read_time value) [ none ↦ 0 | some moment ↦ moment ]

-- The rows that are kept of a table that is over its limit: the latest ones.
abbrev pub keep_latest {ℓ} : {A : Type ℓ} → (A → Text) → ℕ → List A → List A
unfolding text_le
keep_latest stamp limit rows =
    if leb (length rows) limit
    then rows
    else take limit (sort (λ a b. text_le (stamp b) (stamp a)) rows)

-- `prune` of app/state.py, at a moment of the clock.
unfoldable pub base_prune : (Text → Option ℕ) → ℕ → Data → Data
unfolding parse_dt text_le
base_prune read_time moment d = record d {
  seen = select (λ a. leb (moment - 45 * microseconds_per_day) (parse_dt read_time a.at)) d.seen;
  sessions =
      select (λ a. leb (moment - 2 * microseconds_per_day) (parse_dt read_time a.created_at))
        d.sessions;
  telegram_failures =
      select (λ a. leb (moment - 2 * microseconds_per_day) (parse_dt read_time a.last_failure_at))
        d.telegram_failures;
  archive = keep_latest (λ a. a.value.created_at) 30000 d.archive;
  drafts = keep_latest Draft.created_at 3000 d.drafts;
}

abbrev pub lifecycle_limit : ℕ
lifecycle_limit = 30000

-- `prune` of app/zero_silent_miss.py
unfoldable pub prune : (Text → Option ℕ) → ℕ → Data → Data
unfolding base_prune text_le
prune read_time moment d =
    let pruned = base_prune read_time moment d in
    record pruned {
      update_lifecycle = keep_latest Lifecycle.updated_at lifecycle_limit pruned.update_lifecycle;
      quarantined_delivery = last_items quarantine_limit pruned.quarantined_delivery;
    }

abbrev pub has_text : Text → List Text → Bool
has_text t = any (λ a. a === t)

-- `discarded_ids.add(update_id)`
abbrev pub add_text : Text → List Text → List Text
add_text t ts = if has_text t ts then ts else ts ++ t ∷ []

-- `str(item.get("id", "")).strip()`, and nothing for a row that is no dictionary.
unfoldable pub row_id : Row → Text
unfolding strip
row_id (entry e) = strip (pop_id e)
row_id (foreign name) = []

abbrev pub seen_after : Text → Text → List Seen → List Seen
seen_after stamp id seen = if is_empty id then seen else record_seen id stamp seen

abbrev pub ids_after : Text → List Text → List Text
ids_after id ids = if is_empty id then ids else add_text id ids

-- The loop of `apply_fresh_start` on the queue: the seen updates and the discarded ids.
abbrev pub discard : Text → List Row → List Seen → List Text → List Seen × List Text
unfolding upsert
discard stamp [] seen ids = (seen, ids)
discard stamp (row ∷ rows) seen ids =
    discard stamp rows (seen_after stamp (row_id row) seen) (ids_after (row_id row) ids)

abbrev pub token_limit : ℕ
token_limit = 100

-- `apply_fresh_start`: the number of discarded updates, or nothing for an empty run ID.
unfoldable pub apply_fresh_start : Text → Text → Data → Option ℕ × Data
unfolding upsert
apply_fresh_start run_id stamp d =
    let token = strip run_id in
    if is_empty token
    then (none, d)
    else if has_text token d.fresh_start_tokens || d.fresh_start_run_id === token
    then (some 0, d)
    else let discarded = discard stamp d.pending_delivery d.seen [] in
      (
        some (length discarded.1),
        record d {
          seen = discarded.0;
          pending_delivery = [];
          last_auto_run = stamp;
          last_auto_attempt = stamp;
          fresh_start_since = stamp;
          fresh_start_run_id = token;
          fresh_start_tokens =
              last_items token_limit
                (select (λ t. not (t === token)) d.fresh_start_tokens ++ token ∷ []);
        },
      )

abbrev pub failure_limit : ℕ
failure_limit = 100

-- `telegram_failure_count`
unfoldable pub telegram_failure_count : Text → Data → ℕ
unfolding lookup
telegram_failure_count key d = elim (lookup Failure.key key d.telegram_failures) [
  | none ↦ 0
  | some f ↦ f.count
]

-- `record_telegram_failure`: the new count, and the state.
unfoldable pub record_telegram_failure : Text → Text → Text → Data → ℕ × Data
unfolding upsert telegram_failure_count
record_telegram_failure key error_type now d =
    let count = telegram_failure_count key d + 1 in
    (
      count,
      record d {
        telegram_failures =
            put Failure.key
              (record {
                key = key;
                count = min count failure_limit;
                last_failure_at = now;
                error_type = take 80 (or_default error_type (codes "Error"));
              })
              d.telegram_failures;
      },
    )

unfoldable pub clear_telegram_failure : Text → Data → Data
unfolding delete
clear_telegram_failure key d = record d {
  telegram_failures = delete Failure.key key d.telegram_failures;
}

unfoldable pub get_update : Text → Data → Option Update
unfolding lookup
get_update id d = elim (lookup Archived.id id d.archive) [ none ↦ none | some a ↦ some a.value ]

unfoldable pub create_session : Text → Text → Text → Data → Data
unfolding upsert
create_session id payload now d = record d {
  sessions = put Session.id (record { id = id; payload = payload; created_at = now }) d.sessions;
}

unfoldable pub get_session : Text → Data → Option Session
unfolding lookup
get_session id d = lookup Session.id id d.sessions

unfoldable pub get_draft : Text → Data → Option Draft
unfolding lookup
get_draft id d = lookup Draft.id id d.drafts

unfoldable pub set_awaiting : Text → Text → Data → Data
unfolding upsert
set_awaiting user_id kind d = record d {
  awaiting = put Awaited.user_id (record { user_id = user_id; kind = kind }) d.awaiting;
}

unfoldable pub pop_awaiting : Text → Data → Text × Data
unfolding lookup delete
pop_awaiting user_id d = (
  elim (lookup Awaited.user_id user_id d.awaiting) [ none ↦ [] | some a ↦ a.kind ],
  record d { awaiting = delete Awaited.user_id user_id d.awaiting },
)

-- `translation_unavailable` and `translation_job_id`, a digest, are what the callers take from outside.
module _ (is_alnum : ℕ → Bool) (unavailable : Text → Bool) (job_id : Text → Text → Text) where
  -- `save_draft` of app/zero_silent_miss.py
  unfoldable pub save_draft : Draft → Text → Data → Data
  unfolding upsert record_update_state
  save_draft a now d =
      let is_out = unavailable a.caption in
      record_update_state is_alnum a.update_id none
        (record (plain_change
          (if is_out then codes "pending_translation" else codes "pending_delivery")
          (if is_out then codes "translation" else codes "telegram_delivery")) {
            event_id = a.event_key;
            translation_status = if is_out then codes "provider_unavailable" else codes "success";
            translation_job_id = job_id a.event_key a.update_id;
            delivery_key = codes "draft:" ++ a.id;
            reason = if is_out then codes "provider_unavailable" else [];
          })
        now (record d { drafts = put Draft.id a d.drafts })
