-- ===== src/Completeness/Final.antt =====
-- A finalized attempt of app/completeness_engine.py is never written again, and the ids of attempts
-- stay distinct.
use jeonghan_daily_review_bo.Prelude.{
  ℕ, Text, ◌===◌, ◌≡◌, refl, inl, inr, Bool, true, false, Option, none, some, List, [], ◌∷◌, find,
  update_where, arith, Bool-cases, Option-cases,
}
use jeonghan_daily_review_bo.Prelude.Table.{
  lookup, NodupKeys, lookup-update_where, lookup-append, lookup-key, lookup-find,
}
use jeonghan_daily_review_bo.Handles.{queue_handle}
use jeonghan_daily_review_bo.Completeness.Evidence.{Evidence}
use jeonghan_daily_review_bo.Completeness.Rows.{Attempt, Engine, attempt_key, of_run}
use jeonghan_daily_review_bo.Completeness.Attempts.{
  is_open, checkpoint, link_observation, insert_attempt, start_row, start, is_unfinished, close_run,
}
use jeonghan_daily_review_bo.Completeness.Finish.{finish_write, finish_row, finish}
use jeonghan_daily_review_bo.Completeness.Steps.{after}

-- The attempt `a` is stored under `k` and final.
pub record IsFinal (k : Text) (a : Attempt) (e : Engine) : Type 0 where
  pub stored : lookup attempt_key k e.attempts ≡ some a
  pub final : a.finalized ≡ true

abbrev pub HasDistinctIds : Engine → Type 0
HasDistinctIds e = NodupKeys attempt_key e.attempts

-- An `UPDATE` that passes over a row keeps it.
keeps_row :
    (p : Attempt → Bool) (f : Attempt → Attempt) (k : Text) (a : Attempt) (xs : List Attempt)
    → ((b : Attempt) → attempt_key (f b) ≡ attempt_key b)
    → p a ≡ false
    → lookup attempt_key k xs ≡ some a
    → lookup attempt_key k (update_where p f xs) ≡ some a
keeps_row p f k a xs keep miss h = ground (arith, lookup-update_where attempt_key p f keep k xs)

module _ (k : Text) (a : Attempt) (e : Engine) (h : IsFinal k a e) where
  pub checkpoint-IsFinal :
      (sorted : List Text → List Text) (id : Text) (ev : Evidence)
      → IsFinal k a (checkpoint sorted id ev e)
  unfolding checkpoint
  checkpoint-IsFinal sorted id ev = record {
    stored = keeps_row (is_open id) _ k a e.attempts (λ b. refl) (ground (arith, h.final)) h.stored;
    final = h.final;
  }

  pub link-IsFinal : (id post : Text) → IsFinal k a (link_observation id post e)
  unfolding link_observation
  link-IsFinal id post = record { stored = ground (arith, h.stored); final = h.final }

  pub insert-IsFinal : (b : Attempt) → IsFinal k a (insert_attempt b e)
  unfolding insert_attempt
  insert-IsFinal b = record {
    stored = ground (arith, h.stored, lookup-append attempt_key k e.attempts (b ∷ []));
    final = h.final;
  }

  pub close_run-IsFinal : (now why run : Text) → IsFinal k a (close_run now why run e)
  unfolding close_run
  close_run-IsFinal now why run = record {
    stored =
        keeps_row (is_unfinished run) _ k a e.attempts (λ b. refl) (ground (arith, h.final))
          h.stored;
    final = h.final;
  }

  -- An open row has another id than a final one.
  differs :
      (id : Text) (row : Attempt)
      → lookup attempt_key id e.attempts ≡ some row
      → row.finalized ≡ false
      → (a.attempt_id === id) ≡ false
  differs id row there fresh = elim (Bool-cases (a.attempt_id === id)) [
    | inr f ↦ f
    | inl t ↦
        let same : k ≡ id = ground (arith, lookup-key attempt_key k e.attempts a h.stored) in
        let there' : some row ≡ some a = rw (← there, ← same) h.stored in
        absurd (ground (arith, h.final))
  ]

  start_row-IsFinal :
      (now : Text) (row : Attempt)
      → lookup attempt_key row.attempt_id e.attempts ≡ some row
      → IsFinal k a (after (λ r. r.0) e (start_row now e (some row)))
  unfolding start_row
  start_row-IsFinal now row there = elim (Bool-cases row.finalized) [
    | inl t ↦ rw t h
    | inr f ↦ elim (Bool-cases row.attempted) [
      | inl t ↦ rw (f, t) h
      | inr g ↦
          rw (f, g)
            (record {
              stored =
                  keeps_row (λ b. b.attempt_id === row.attempt_id) _ k a e.attempts (λ b. refl)
                    (differs row.attempt_id row there f) h.stored;
              final = h.final;
            })
    ]
  ]

  pub start-IsFinal :
      (casefold : Text → Text) (now run source : Text)
      → HasDistinctIds e
      → IsFinal k a (after (λ r. r.0) e (start casefold now run source e))
  unfolding start
  start-IsFinal casefold now run source d = go (find test e.attempts) refl
    where
      test : Attempt → Bool
      test = of_run run (queue_handle casefold source)

      go :
          (o : Option Attempt)
          → find test e.attempts ≡ o
          → IsFinal k a (after (λ r. r.0) e (start_row now e o))
      go none q = h
      go (some row) q = start_row-IsFinal now row (lookup-find attempt_key test e.attempts row d q)

  module _ (sorted : List Text → List Text) (instant : Text → Option ℕ) (now : Text) (id : Text)
      (ev : Evidence) (retained : ℕ) where
    pub finish-IsFinal :
        (reached : Bool × Bool) (error_class : Text)
        → IsFinal k a
            (after (λ r. r) e (finish sorted instant now id ev retained reached error_class e))
    unfolding finish finish_row finish_write
    finish-IsFinal reached error_class = elim (Option-cases (lookup attempt_key id e.attempts)) [
      | inl missing ↦ rw (missing, finish_row) h
      | inr (row, there) ↦ elim (Bool-cases row.attempted) [
        | inr f ↦ rw (there, finish_row, f) h
        | inl t ↦ elim (Bool-cases row.finalized) [
          | inl done ↦ rw (there, finish_row, t, done) h
          | inr fresh ↦
              rw (there, finish_row, t, fresh)
                (record {
                  stored =
                      keeps_row (λ b. b.attempt_id === id) _ k a e.attempts (λ b. refl)
                        (differs id row there fresh) h.stored;
                  final = h.final;
                })
        ]
      ]
    ]
