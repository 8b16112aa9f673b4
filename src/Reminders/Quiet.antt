-- ===== src/Reminders/Quiet.antt =====
-- A reminder of app/reminder_queue.py that was marked as sent is not due again.
use jeonghan_daily_review_bo.Prelude.{
  ℕ, zero, suc, Text, ◌===◌, text_le, text_dec, ◌≡◌, refl, ap, ◌∙◌, inl, inr, Bool, true, false,
  ◌&&◌, Option-cases, some, List, [], ◌∷◌, ◌++◌, take, select, any, update_where, arith,
}
use jeonghan_daily_review_bo.Prelude.Table.{lookup-present, lookup-has_key, has_key}
use jeonghan_daily_review_bo.Prelude.Sort.{sort, any-sort}
use jeonghan_daily_review_bo.Reminders.Store.{
  sent, cancelled, ReminderJob, is_pending, is_active, get, new_job, is_due, limit_of, due, add_job,
  mark_sent, cancel,
}
use jeonghan_daily_review_bo.Reminders.Settled.{Call, added, marked, dropped, step, run}

abbrev pub has_id : Text → ReminderJob → Bool
has_id k a = a.id === k

-- A pending job of this id.
abbrev is_live : Text → ReminderJob → Bool
is_live k a = a.id === k && is_pending a.status

-- The id is taken, and not by a pending job.
abbrev IsQuiet : Text → List ReminderJob → Type 0
IsQuiet k jobs = (any (has_id k) jobs ≡ true) × (any (is_live k) jobs ≡ false)

-- A rewrite that keeps ids and leaves no job pending that was not.
rewrite-IsQuiet :
    (p : ReminderJob → Bool) (f : ReminderJob → ReminderJob) (k : Text)
    → ((a : ReminderJob) → (f a).id ≡ a.id)
    → ((a : ReminderJob) → is_pending (f a).status ≡ false)
    → (jobs : List ReminderJob)
    → (any (has_id k) (update_where p f jobs) ≡ any (has_id k) jobs)
      × (any (is_live k) jobs ≡ false → any (is_live k) (update_where p f jobs) ≡ false)
rewrite-IsQuiet p f k keep off [] = (refl, λ h. h)
rewrite-IsQuiet p f k keep off (a ∷ jobs) =
    let rest = rewrite-IsQuiet p f k keep off jobs in
    (ground (arith, keep a, rest.0), λ h. ground (arith, off a, rest.1, h))

mark_sent-quiet :
    (k now : Text) (jobs : List ReminderJob) → any (is_live k) (mark_sent k now jobs) ≡ false
unfolding mark_sent
mark_sent-quiet k now [] = refl
mark_sent-quiet k now (a ∷ jobs) = ground (arith, mark_sent-quiet k now jobs)

any-snoc :
    (p : ReminderJob → Bool) (xs : List ReminderJob) (a : ReminderJob)
    → p a ≡ false
    → any p (xs ++ a ∷ []) ≡ any p xs
any-snoc p [] a h = ground arith
any-snoc p (x ∷ xs) a h = ground (arith, any-snoc p xs a h)

step-IsQuiet :
    (k : Text) (c : Call) (jobs : List ReminderJob) → IsQuiet k jobs → IsQuiet k (step c jobs)
unfolding step add_job get mark_sent cancel
step-IsQuiet k (added id draft_id due_at label now) jobs h = elim (Option-cases (get id jobs)) [
  | inr (x, e) ↦ rw (step, add_job, e) h
  | inl n ↦
      let free : has_key ReminderJob.id id jobs ≡ false = lookup-has_key ReminderJob.id id jobs n in
      let other : (id === k) ≡ false = elim (text_dec id k) [
        | yes same ↦ absurd (cc (h.0, free, ap (λ j. has_key ReminderJob.id j jobs) same))
        | no differ ↦ ground (arith, differ)
      ] in
      let fresh = new_job id draft_id due_at label now in
      let after : step (added id draft_id due_at label now) jobs ≡ jobs ++ fresh ∷ [] =
        rw (step, add_job, n) refl in
      rw after (
        any-snoc (has_id k) jobs fresh other ∙ h.0,
        any-snoc (is_live k) jobs fresh (ground (arith, other)) ∙ h.1,
      )
]
step-IsQuiet k (marked id now) jobs h =
    let kept =
      rewrite-IsQuiet (λ a. a.id === id && is_pending a.status)
        (λ a. record a { status = sent; reminded_at = now }) k (λ a. refl) (λ a. refl) jobs in
    (kept.0 ∙ h.0, kept.1 h.1)
step-IsQuiet k (dropped id) jobs h =
    let kept =
      rewrite-IsQuiet (λ a. a.id === id && is_active a.status)
        (λ a. record a { status = cancelled }) k (λ a. refl) (λ a. refl) jobs in
    (kept.0 ∙ h.0, kept.1 h.1)

run-IsQuiet :
    (k : Text) (calls : List Call) (jobs : List ReminderJob)
    → IsQuiet k jobs
    → IsQuiet k (run calls jobs)
unfolding run
run-IsQuiet k [] jobs h = h
run-IsQuiet k (c ∷ cs) jobs h = run-IsQuiet k cs (step c jobs) (step-IsQuiet k c jobs h)

any-take :
    (p : ReminderJob → Bool) (n : ℕ) (xs : List ReminderJob)
    → any p xs ≡ false
    → any p (take n xs) ≡ false
any-take p zero xs h = refl
any-take p (suc n) [] h = refl
any-take p (suc n) (x ∷ xs) h = ground (arith, any-take p n xs, h)

due-quiet :
    (k now : Text) (jobs : List ReminderJob)
    → any (is_live k) jobs ≡ false
    → any (has_id k) (select (is_due now) jobs) ≡ false
unfolding text_le
due-quiet k now [] h = refl
due-quiet k now (a ∷ jobs) h = ground (arith, due-quiet k now jobs, h)

-- A job that `mark_sent` was called for is not due again: after any later calls, `due` lists no job of
-- its id, at any moment and with any limit.
pub due-mark_sent :
    (k at now : Text) (limit : ℕ) (calls : List Call) (jobs : List ReminderJob) (job : ReminderJob)
    → get k jobs ≡ some job
    → any (has_id k) (due now limit (run calls (mark_sent k at jobs))) ≡ false
unfolding due text_le get mark_sent
due-mark_sent k at now limit calls jobs job h =
    let marked_jobs = mark_sent k at jobs in
    let there : any (has_id k) marked_jobs ≡ true =
      (rewrite-IsQuiet (λ a. a.id === k && is_pending a.status)
        (λ a. record a { status = sent; reminded_at = at }) k (λ a. refl) (λ a. refl) jobs).0
      ∙ lookup-present ReminderJob.id k jobs job h in
    let end = run calls marked_jobs in
    let quiet = run-IsQuiet k calls marked_jobs (there, mark_sent-quiet k at jobs) in
    any-take (has_id k) (limit_of limit)
      (sort (λ a b. text_le a.due_at b.due_at) (select (is_due now) end))
      (any-sort (λ a b. text_le a.due_at b.due_at) (has_id k) (select (is_due now) end)
        ∙ due-quiet k now end quiet.1)
