-- ===== src/Reminders/Settled.antt =====
-- A reminder that was sent or cancelled stays so, and one that is pending stays until then,
-- app/reminder_queue.py.
use mathlib.Core.Option
use jeonghan_daily_review_bo.Prelude.{
  Text, ◌===◌, ◌≡◌, refl, ap, ◌∙◌, inl, inr, Bool, true, false, not, ◌&&◌, ◌||◌, Option,
  Option-cases, none, some, List, [], ◌∷◌, ◌++◌, any, update_where, arith, if◌then◌else◌,
}
use jeonghan_daily_review_bo.Prelude.Table.{lookup, lookup-append, lookup-update_where, lookup-key}
use jeonghan_daily_review_bo.Reminders.Store.{
  Status, pending, pinned, sent, cancelled, ReminderJob, is_pending, is_active, get, new_job,
  add_job, mark_sent, cancel,
}

-- A call of the reminders.
pub data Call : Type 0 where
  added : Text → Text → Option Text → Text → Text → Call
  marked : Text → Text → Call
  dropped : Text → Call

unfoldable pub step : Call → List ReminderJob → List ReminderJob
unfolding add_job mark_sent cancel
step (added id draft_id due_at label now) jobs = elim (add_job id draft_id due_at label now jobs) [
  | none ↦ jobs
  | some after ↦ after
]
step (marked id now) jobs = mark_sent id now jobs
step (dropped id) jobs = (cancel id jobs).1

unfoldable pub run : List Call → List ReminderJob → List ReminderJob
unfolding step
run [] jobs = jobs
run (c ∷ cs) jobs = run cs (step c jobs)

-- The calls that settle a job.
abbrev pub settles : Text → Call → Bool
settles k (added id draft_id due_at label now) = false
settles k (marked id now) = id === k
settles k (dropped id) = id === k

add_job-lookup :
    (k id draft_id : Text) (due_at : Option Text) (label now : Text) (jobs : List ReminderJob)
    → (job : ReminderJob) → lookup ReminderJob.id k jobs ≡ some job
    → lookup ReminderJob.id k (step (added id draft_id due_at label now) jobs) ≡ some job
unfolding step add_job
add_job-lookup k id draft_id due_at label now jobs job h =
    let fresh = new_job id draft_id due_at label now in
    elim (Option-cases (get id jobs)) [
      | inl n ↦
          let after : step (added id draft_id due_at label now) jobs ≡ jobs ++ fresh ∷ [] =
            rw (step, add_job, n) refl in
          ap (lookup ReminderJob.id k) after
          ∙ lookup-append ReminderJob.id k jobs (fresh ∷ [])
          ∙ rw h refl
      | inr (x, e) ↦
          let after : step (added id draft_id due_at label now) jobs ≡ jobs =
            rw (step, add_job, e) refl in
          ap (lookup ReminderJob.id k) after ∙ h
    ]

inactive-pending : (s : Status) → is_active s ≡ false → is_pending s ≡ false
inactive-pending pending h = h
inactive-pending pinned h = refl
inactive-pending sent h = refl
inactive-pending cancelled h = refl

-- A rewrite of rows that the row of a key is not among leaves it.
rewrite-lookup :
    (p : ReminderJob → Bool) (f : ReminderJob → ReminderJob) (k : Text)
    → (jobs : List ReminderJob) (job : ReminderJob) → ((a : ReminderJob) → (f a).id ≡ a.id)
    → lookup ReminderJob.id k jobs ≡ some job
    → p job ≡ false
    → lookup ReminderJob.id k (update_where p f jobs) ≡ some job
rewrite-lookup p f k jobs job keep h out =
    lookup-update_where ReminderJob.id p f keep k jobs
    ∙ ap (Option.map (λ a. if p a then f a else a)) h
    ∙ rw out refl

step-lookup :
    (k : Text) (c : Call) (jobs : List ReminderJob) (job : ReminderJob)
    → lookup ReminderJob.id k jobs ≡ some job
    → (not (is_active job.status) || not (settles k c)) ≡ true
    → lookup ReminderJob.id k (step c jobs) ≡ some job
unfolding step mark_sent cancel
step-lookup k (added id draft_id due_at label now) jobs job h quiet =
    add_job-lookup k id draft_id due_at label now jobs job h
step-lookup k (marked id now) jobs job h quiet =
    rewrite-lookup (λ a. a.id === id && is_pending a.status)
      (λ a. record a { status = sent; reminded_at = now }) k jobs job (λ a i. a.id) h
      (ground (arith, lookup-key ReminderJob.id k jobs job h, quiet, inactive-pending job.status))
step-lookup k (dropped id) jobs job h quiet =
    rewrite-lookup (λ a. a.id === id && is_active a.status) (λ a. record a { status = cancelled }) k
      jobs job (λ a i. a.id) h (ground (arith, lookup-key ReminderJob.id k jobs job h, quiet))

-- A job that was sent or cancelled keeps its row through any calls; one that is pending or pinned
-- keeps it through any calls that do not mark it as sent or cancel it.
pub run-get :
    (k : Text) (calls : List Call) (jobs : List ReminderJob) (job : ReminderJob)
    → get k jobs ≡ some job
    → (not (is_active job.status) || not (any (settles k) calls)) ≡ true
    → get k (run calls jobs) ≡ some job
unfolding run get
run-get k [] jobs job h quiet = h
run-get k (c ∷ cs) jobs job h quiet =
    run-get k cs (step c jobs) job (step-lookup k c jobs job h (ground arith)) (ground arith)
