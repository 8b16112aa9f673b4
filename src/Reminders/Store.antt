-- ===== src/Reminders/Store.antt =====
-- `ReminderStore` of app/reminder_queue.py. A moment is its ISO text; `id` is what `token_hex` gives.
use jeonghan_daily_review_bo.Prelude.{
  ℕ, min, max, Text, ◌===◌, text_le, Bool, true, false, not, ◌&&◌, Option, none, some, List, [],
  ◌∷◌, ◌++◌, take, select, any, is_empty, update_where, if◌then◌else◌,
}
use jeonghan_daily_review_bo.Prelude.Table.{lookup}
use jeonghan_daily_review_bo.Prelude.Sort.{sort}

pub data Status : Type 0 where
  pending pinned sent cancelled : Status

pub record ReminderJob : Type 0 where
  pub id : Text
  pub draft_id : Text
  pub due_at : Text
  pub status : Status
  pub label : Text
  pub created_at : Text
  pub reminded_at : Text

abbrev pub is_pending : Status → Bool
is_pending pending = true
is_pending _ = false

abbrev pub is_active : Status → Bool
is_active pending = true
is_active pinned = true
is_active _ = false

unfoldable pub get : Text → List ReminderJob → Option ReminderJob
unfolding lookup
get id jobs = lookup ReminderJob.id id jobs

abbrev pub new_job : Text → Text → Option Text → Text → Text → ReminderJob
new_job id draft_id due_at label now = record {
  id = id;
  draft_id = draft_id;
  due_at = elim due_at [ none ↦ [] | some t ↦ t ];
  status = elim due_at [ none ↦ pinned | some t ↦ if is_empty t then pinned else pending ];
  label = take 100 label;
  created_at = now;
  reminded_at = [];
}

-- `add`: nothing where the id is taken, which the primary key refuses.
unfoldable pub add_job :
    Text → Text → Option Text → Text → Text → List ReminderJob → Option (List ReminderJob)
unfolding get
add_job id draft_id due_at label now jobs = elim (get id jobs) [
  | none ↦ some (jobs ++ new_job id draft_id due_at label now ∷ [])
  | some job ↦ none
]

abbrev pub is_due : Text → ReminderJob → Bool
unfolding text_le
is_due now job = is_pending job.status && not (is_empty job.due_at) && text_le job.due_at now

abbrev pub limit_of : ℕ → ℕ
limit_of limit = max 1 (min limit 100)

unfoldable pub due : Text → ℕ → List ReminderJob → List ReminderJob
unfolding text_le
due now limit jobs =
    take (limit_of limit) (sort (λ a b. text_le a.due_at b.due_at) (select (is_due now) jobs))

-- `ORDER BY CASE WHEN due_at='' THEN 1 ELSE 0 END, due_at, created_at`
abbrev pub comes_first : ReminderJob → ReminderJob → Bool
unfolding text_le
comes_first a b =
    if is_empty a.due_at
    then is_empty b.due_at && text_le a.created_at b.created_at
    else if is_empty b.due_at
    then true
    else if a.due_at === b.due_at
    then text_le a.created_at b.created_at
    else text_le a.due_at b.due_at

unfoldable pub list_active : ℕ → List ReminderJob → List ReminderJob
unfolding text_le
list_active limit jobs =
    take (limit_of limit) (sort comes_first (select (λ a. is_active a.status) jobs))

unfoldable pub mark_sent : Text → Text → List ReminderJob → List ReminderJob
mark_sent id now jobs =
    update_where (λ a. a.id === id && is_pending a.status)
      (λ a. record a { status = sent; reminded_at = now }) jobs

-- `cancel`: whether a row was changed, and the table.
unfoldable pub cancel : Text → List ReminderJob → Bool × List ReminderJob
cancel id jobs = (
  any (λ a. a.id === id && is_active a.status) jobs,
  update_where (λ a. a.id === id && is_active a.status) (λ a. record a { status = cancelled }) jobs,
)
