-- ===== src/State/Waits.antt =====
-- An update in the queue, through any calls of the store.
use jeonghan_daily_review_bo.Prelude.{
  ℕ, ◌-◌, ◌*◌, Text, ◌===◌, ◌≡◌, refl, ap, Option-cases, inl, inr, Bool, true, false, not, ◌&&◌,
  Option, none, some, List, [], ◌∷◌, ◌++◌, select, any, any-select, leb, arith, Bool-cases,
  if◌then◌else◌,
}
use jeonghan_daily_review_bo.Prelude.Table.{has_key, has_key-replace}
use jeonghan_daily_review_bo.Models.{Update, Draft, post_init}
use jeonghan_daily_review_bo.State.Rows.{from_dict, Row, entry, foreign, Seen, Data}
use jeonghan_daily_review_bo.State.Lifecycle.{Change, record_update_state}
use jeonghan_daily_review_bo.State.Store.{
  base_queue_updates, base_mark_seen, archive_update, is_seen, add_row, add_rows, row_of, Popped,
  popped, raised, has_id,
}
use jeonghan_daily_review_bo.State.Queue.{
  pop_pending, queue_updates, queue_records, queued_record, mark_seen,
}
use jeonghan_daily_review_bo.State.Calls.{
  prune, base_prune, parse_dt, apply_fresh_start, record_telegram_failure, clear_telegram_failure,
  create_session, set_awaiting, pop_awaiting, save_draft, telegram_failure_count,
  microseconds_per_day,
}
use jeonghan_daily_review_bo.State.Pending.{
  blocks, keeps, after, is_update, IsServedFrom, pop_pending-IsServed,
}
use jeonghan_daily_review_bo.State.Blocked.{IsRaised, pop_pending-blocked}

-- A call of the store, with what it reads of the clock.
pub data Call : Type 0 where
  queued : Text → List Update → Bool → Call
  pop : Text → ℕ → Call
  marked : Text → Update → Call
  archived : Update → Call
  lifecycle : Text → Text → Option Text → Change → Call
  drafted : Text → Draft → Call
  pruned : ℕ → Call
  failed : Text → Text → Text → Call
  cleared : Text → Call
  session : Text → Text → Text → Call
  awaiting : Text → Text → Call
  answered : Text → Call
  fresh_start : Text → Text → Call

-- A row of the update `k` that decodes.
abbrev pub is_good : Text → Row → Bool
is_good k (entry e) =
    elim e.id [ none ↦ false | some id ↦ id === k ] && is_update (from_dict e.payload)
is_good k (foreign name) = false

-- The update is in the queue, and not seen.
abbrev pub waits : Text → Data → Bool
unfolding is_seen
waits k d = any (is_good k) d.pending_delivery && not (is_seen k d)

-- The calls that take an update out of the queue.
abbrev pub takes : Text → Call → Bool
takes k (marked now u) = u.id === k
takes k (fresh_start run_id stamp) = true
takes k (queued now us force) = false
takes k (pop now limit) = false
takes k (archived u) = false
takes k (lifecycle now id author c) = false
takes k (drafted now a) = false
takes k (pruned moment) = false
takes k (failed key error now) = false
takes k (cleared key) = false
takes k (session id payload now) = false
takes k (awaiting user_id kind) = false
takes k (answered user_id) = false

good-keeps :
    (k : Text) (d : Data) (row : Row)
    → is_seen k d ≡ false
    → is_good k row ≡ true
    → keeps d row ≡ true
unfolding is_seen
good-keeps k d (entry e) s g = elim (Option-cases e.id) [
  | inl n ↦ absurd (ground arith)
  | inr (id, q) ↦
      let same : id ≡ k = ground arith in ground (arith, ap (λ i. has_key Seen.id i d.seen) same)
]
good-keeps k d (foreign name) s g = absurd (ground arith)

any-good :
    (k : Text) (d : Data) (rows : List Row)
    → is_seen k d ≡ false
    → any (is_good k) rows ≡ true
    → any (λ a. keeps d a && is_good k a) rows ≡ true
unfolding is_seen
any-good k d [] s h = h
any-good k d (row ∷ rows) s h = ground (arith, good-keeps k d row s, any-good k d rows s)

waits_served :
    (limit : ℕ) (k : Text) (d : Data) (end : Popped)
    → waits k d ≡ true
    → IsServedFrom limit d.pending_delivery [] [] d end
    → waits k (after end) ≡ true
unfolding is_seen
waits_served limit k d (popped r d_after) w h =
    rw (h.1, h.2, any-select (is_good k) (keeps d) d.pending_delivery)
      (ground (arith, any-good k d d.pending_delivery))
waits_served limit k d (raised d_after) w h = absurd h

waits_raised :
    (k : Text) (d : Data) (end : Popped)
    → waits k d ≡ true
    → IsRaised d end
    → waits k (after end) ≡ true
unfolding is_seen
waits_raised k d (popped r d_after) w h = absurd h
waits_raised k d (raised d_after) w h = rw (h.0, h.1) w

any-append-true : (p : Row → Bool) (xs ys : List Row) → any p xs ≡ true → any p (xs ++ ys) ≡ true
any-append-true p [] ys h = absurd (ground arith)
any-append-true p (x ∷ xs) ys h = ground (arith, any-append-true p xs ys)

unseen-select :
    (p q : Seen → Bool) (xs : List Seen) → any p xs ≡ false → any p (select q xs) ≡ false
unseen-select p q [] h = refl
unseen-select p q (x ∷ xs) h = ground (arith, unseen-select p q xs)

add_rows-waits :
    (ensure_utc : Text → Option Text) (force : Bool) (k : Text) (us : List Update) (rows : List Row)
    → any (is_good k) rows ≡ true
    → any (is_good k) (add_rows ensure_utc force us rows) ≡ true
unfolding post_init
add_rows-waits ensure_utc force k [] rows h = h
add_rows-waits ensure_utc force k (u ∷ us) rows h =
    add_rows-waits ensure_utc force k us (add_row ensure_utc force u rows)
      (elim (any (has_id u.id) rows)
        as (λ x.
          any (is_good k) (if x then rows else rows ++ row_of ensure_utc force u ∷ []) ≡ true) [
            | true ↦ h
            | false ↦ any-append-true (is_good k) rows (row_of ensure_utc force u ∷ []) h
          ])

queue_records-waits :
    (is_alnum : ℕ → Bool) (now : Text) (retrieval : Text → Text × Text) (k : Text)
    → (us : List Update) (d : Data) → waits k d ≡ true
    → waits k (queue_records is_alnum now retrieval us d) ≡ true
unfolding is_seen record_update_state
queue_records-waits is_alnum now retrieval k [] d h = h
queue_records-waits is_alnum now retrieval k (u ∷ us) d h =
    queue_records-waits is_alnum now retrieval k us
      (if is_seen u.id d then d else queued_record is_alnum now (retrieval u.id) u d)
      (elim (is_seen u.id d)
        as (λ x.
          waits k (if x then d else queued_record is_alnum now (retrieval u.id) u d) ≡ true) [
            | true ↦ h
            | false ↦ h
          ])

module _ (is_alnum : ℕ → Bool) (correlation : Row → Text) (ensure_utc : Text → Option Text)
    (read_time : Text → Option ℕ) (retrieval : Text → Text × Text) (unavailable : Text → Bool)
    (job_id : Text → Text → Text) where
  unfoldable pub step : Call → Data → Data
  unfolding queue_updates pop_pending mark_seen archive_update record_update_state save_draft prune
      record_telegram_failure clear_telegram_failure create_session set_awaiting pop_awaiting
      apply_fresh_start
  step (queued now us force) d = queue_updates is_alnum now ensure_utc retrieval us force d
  step (pop now limit) d = after (pop_pending is_alnum correlation now limit d)
  step (marked now u) d = mark_seen is_alnum now u d
  step (archived u) d = archive_update u d
  step (lifecycle now id author c) d = record_update_state is_alnum id author c now d
  step (drafted now a) d = save_draft is_alnum unavailable job_id a now d
  step (pruned moment) d = prune read_time moment d
  step (failed key error now) d = (record_telegram_failure key error now d).1
  step (cleared key) d = clear_telegram_failure key d
  step (session id payload now) d = create_session id payload now d
  step (awaiting user_id kind) d = set_awaiting user_id kind d
  step (answered user_id) d = (pop_awaiting user_id d).1
  step (fresh_start run_id stamp) d = (apply_fresh_start run_id stamp d).1

  unfoldable pub run : List Call → Data → Data
  unfolding step
  run [] d = d
  run (c ∷ cs) d = run cs (step c d)

  step-waits :
      (k : Text) (c : Call) (d : Data)
      → takes k c ≡ false
      → waits k d ≡ true
      → waits k (step c d) ≡ true
  unfolding step is_seen base_queue_updates base_mark_seen base_prune telegram_failure_count
  step-waits k (queued now us force) d t h =
      queue_records-waits is_alnum now retrieval k us (base_queue_updates ensure_utc us force d)
        (ground (arith, add_rows-waits ensure_utc force k us d.pending_delivery))
  step-waits k (pop now limit) d t h = elim (Bool-cases (any (blocks d) d.pending_delivery)) [
    | inl stuck ↦
        waits_raised k d (pop_pending is_alnum correlation now limit d) h
          (pop_pending-blocked is_alnum correlation now limit d stuck)
    | inr free ↦
        waits_served limit k d (pop_pending is_alnum correlation now limit d) h
          (pop_pending-IsServed is_alnum correlation now limit d free)
  ]
  step-waits k (marked now u) d t h =
      ground (arith, has_key-replace Seen.id k (record { id = u.id; at = now }) d.seen)
  step-waits k (archived u) d t h = h
  step-waits k (lifecycle now id author c) d t h = h
  step-waits k (drafted now a) d t h = h
  step-waits k (pruned moment) d t h = ground (
    arith,
    unseen-select (λ a. a.id === k)
        (λ a. leb (moment - 45 * microseconds_per_day) (parse_dt read_time a.at)) d.seen,
  )
  step-waits k (failed key error now) d t h = h
  step-waits k (cleared key) d t h = h
  step-waits k (session id payload now) d t h = h
  step-waits k (awaiting user_id kind) d t h = h
  step-waits k (answered user_id) d t h = h
  step-waits k (fresh_start run_id stamp) d t h = absurd (ground arith)

  -- An update that waits in the queue, through any calls of the store but a fresh start and one that
  -- marks the update itself as seen, waits in the queue.
  pub run-waits :
      (k : Text) (calls : List Call) (d : Data)
      → any (takes k) calls ≡ false
      → waits k d ≡ true
      → waits k (run calls d) ≡ true
  unfolding run
  run-waits k [] d t h = h
  run-waits k (c ∷ cs) d t h =
      run-waits k cs (step c d) (ground arith) (step-waits k c d (ground arith) h)
