-- ===== src/Completeness/History.antt =====
-- Whole histories of the engine of app/completeness_engine.py: what is final stays, ids stay
-- distinct, cursors move forward only.
use jeonghan_daily_review_bo.Prelude.{
  ℕ, suc, Text, ◌===◌, text_le, refl, inl, inr, Bool, not, ◌&&◌, ◌||◌, Option, List, [], ◌∷◌, any,
  find, arith, Bool-cases, Option-cases,
}
use jeonghan_daily_review_bo.Prelude.Table.{
  lookup, lookup-none, NodupKeys-update_where, NodupKeys-append,
}
use jeonghan_daily_review_bo.Handles.{queue_handle}
use jeonghan_daily_review_bo.Completeness.Evidence.{Evidence}
use jeonghan_daily_review_bo.Completeness.Rows.{Attempt, Engine, attempt_key, of_run}
use jeonghan_daily_review_bo.Completeness.Attempts.{
  Source, is_open, is_unfinished, checkpoint, link_observation, insert_attempt, plan_from, plan,
  start_row, start, close_run,
}
use jeonghan_daily_review_bo.Completeness.Finish.{finish_write, finish_row, finish}
use jeonghan_daily_review_bo.Completeness.Steps.{
  Platform, Call, plans, starts, checkpoints, links, finishes, closes, after, step, run,
}
use jeonghan_daily_review_bo.Completeness.Final.{
  IsFinal, HasDistinctIds, checkpoint-IsFinal, link-IsFinal, insert-IsFinal, close_run-IsFinal,
  start-IsFinal, finish-IsFinal,
}

module _ (casefold : Text → Text) (decimal : ℕ → Text) (uuid : ℕ → Text) where
  plan_from-induction {ℓ} :
      (P : Engine → Type ℓ)
      → ((b : Attempt) (e : Engine) → P e → P (insert_attempt b e))
      → (utc : Text → Option Text) (index : ℕ) (name from to : Text) (sources : List Source)
        (e : Engine)
      → P e
      → P (plan_from casefold decimal uuid utc index name from to sources e)
  unfolding plan_from
  plan_from-induction P keep utc index name from to [] e h = h
  plan_from-induction P keep utc index name from to (s ∷ rest) e h = elim (Bool-cases s.enabled) [
    | inl t ↦ rw t (plan_from-induction P keep utc (suc index) name from to rest _ (keep _ e h))
    | inr f ↦ rw f (plan_from-induction P keep utc (suc index) name from to rest e h)
  ]

  pub plan-induction {ℓ} :
      (P : Engine → Type ℓ)
      → ((b : Attempt) (e : Engine) → P e → P (insert_attempt b e))
      → (utc : Text → Option Text) (from to : Text) (sources : List Source) (e : Engine) → P e
      → P (after (λ r. r.0) e (plan casefold decimal uuid utc sources from to e))
  unfolding plan
  plan-induction P keep utc from to sources e h = elim (Option-cases (utc from)) [
    | inl f ↦ rw (f, plan) h
    | inr (s, f) ↦ elim (Option-cases (utc to)) [
      | inl g ↦ rw (f, plan, g) h
      | inr (t, g) ↦ elim (Bool-cases (text_le t s)) [
        | inl c ↦ rw (f, plan, g, c) h
        | inr c ↦ rw (f, plan, g, c) (plan_from-induction P keep utc 0 (uuid 0) s t sources e h)
      ]
    ]
  ]

insert-HasDistinctIds :
    (b : Attempt) (e : Engine) → HasDistinctIds e → HasDistinctIds (insert_attempt b e)
unfolding insert_attempt
insert-HasDistinctIds b e d = elim (Bool-cases (any clash e.attempts)) [
  | inl t ↦ rw t d
  | inr f ↦ rw f (
      NodupKeys-append attempt_key e.attempts b
        (lookup-none attempt_key b.attempt_id clash e.attempts (λ a. ground arith) f) d)
]
  where
    clash : Attempt → Bool
    clash a = (a.attempt_id === b.attempt_id) || of_run b.run_id b.source a

start-HasDistinctIds :
    (casefold : Text → Text) (now run source : Text) (e : Engine)
    → HasDistinctIds e
    → HasDistinctIds (after (λ r. r.0) e (start casefold now run source e))
unfolding start start_row
start-HasDistinctIds casefold now run source e d =
    elim (Option-cases (find (of_run run (queue_handle casefold source)) e.attempts)) [
      | inl f ↦ rw (f, start_row) d
      | inr (row, f) ↦ elim (Bool-cases (row.finalized || row.attempted)) [
        | inl t ↦ rw (f, start_row, t) d
        | inr g ↦
            rw (f, start_row, g)
              (NodupKeys-update_where attempt_key (λ a. a.attempt_id === row.attempt_id) _
                (λ a. refl) e.attempts d)
      ]
    ]

finish-HasDistinctIds :
    (p : Platform) (now id : Text) (ev : Evidence) (retained : ℕ) (reached : Bool × Bool)
    (error_class : Text) (e : Engine)
    → HasDistinctIds e
    → HasDistinctIds
        (after (λ r. r) e (finish p.sorted p.instant now id ev retained reached error_class e))
unfolding finish finish_row finish_write
finish-HasDistinctIds p now id ev retained reached error_class e d =
    elim (Option-cases (lookup attempt_key id e.attempts)) [
      | inl f ↦ rw (f, finish_row) d
      | inr (row, f) ↦ elim (Bool-cases row.attempted) [
        | inr g ↦ rw (f, finish_row, g) d
        | inl t ↦ elim (Bool-cases row.finalized) [
          | inl g ↦ rw (f, finish_row, t, g) d
          | inr g ↦
              rw (f, finish_row, t, g)
                (NodupKeys-update_where attempt_key (λ a. a.attempt_id === id) _ (λ a. refl)
                  e.attempts d)
        ]
      ]
    ]

module _ (p : Platform) where
  pub step-HasDistinctIds : (c : Call) (e : Engine) → HasDistinctIds e → HasDistinctIds (step p c e)
  unfolding step checkpoint link_observation close_run
  step-HasDistinctIds (plans uuid sources from to) e d =
      plan-induction p.casefold p.decimal uuid HasDistinctIds insert-HasDistinctIds p.utc from to
        sources e d
  step-HasDistinctIds (starts now name source) e d =
      start-HasDistinctIds p.casefold now name source e d
  step-HasDistinctIds (checkpoints id ev) e d =
      NodupKeys-update_where attempt_key (is_open id) _ (λ a. refl) e.attempts d
  step-HasDistinctIds (links id post) e d =
      elim (Bool-cases (
        any (is_open id) e.attempts
        && not (any (λ o. (o.0 === id) && (o.1 === post)) e.observations))) [
          | inl t ↦ rw t d
          | inr f ↦ rw f d
        ]
  step-HasDistinctIds (finishes now id ev retained reached error_class) e d =
      finish-HasDistinctIds p now id ev retained reached error_class e d
  step-HasDistinctIds (closes now why name) e d =
      NodupKeys-update_where attempt_key (is_unfinished name) _ (λ a. refl) e.attempts d

  pub step-IsFinal :
      (k : Text) (a : Attempt) (c : Call) (e : Engine)
      → HasDistinctIds e
      → IsFinal k a e
      → IsFinal k a (step p c e)
  unfolding step
  step-IsFinal k a (plans uuid sources from to) e d h =
      plan-induction p.casefold p.decimal uuid (IsFinal k a) (λ b e' h'. insert-IsFinal k a e' h' b)
        p.utc from to sources e h
  step-IsFinal k a (starts now name source) e d h =
      start-IsFinal k a e h p.casefold now name source d
  step-IsFinal k a (checkpoints id ev) e d h = checkpoint-IsFinal k a e h p.sorted id ev
  step-IsFinal k a (links id post) e d h = link-IsFinal k a e h id post
  step-IsFinal k a (finishes now id ev retained reached error_class) e d h =
      finish-IsFinal k a e h p.sorted p.instant now id ev retained reached error_class
  step-IsFinal k a (closes now why name) e d h = close_run-IsFinal k a e h now why name

  pub run-HasDistinctIds :
      (cs : List Call) (e : Engine) → HasDistinctIds e → HasDistinctIds (run p cs e)
  unfolding run
  run-HasDistinctIds [] e d = d
  run-HasDistinctIds (c ∷ cs) e d = run-HasDistinctIds cs _ (step-HasDistinctIds c e d)

  -- Whatever calls follow, in whatever order, a final attempt is stored as it was finalized.
  pub run-IsFinal :
      (k : Text) (a : Attempt) (cs : List Call) (e : Engine)
      → HasDistinctIds e
      → IsFinal k a e
      → IsFinal k a (run p cs e)
  unfolding run
  run-IsFinal k a [] e d h = h
  run-IsFinal k a (c ∷ cs) e d h =
      run-IsFinal k a cs _ (step-HasDistinctIds c e d) (step-IsFinal k a c e d h)
