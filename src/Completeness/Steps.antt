-- ===== src/Completeness/Steps.antt =====
-- The engine of app/completeness_engine.py as a machine: every call that writes, in any order, by
-- any number of runs over the same database.
use jeonghan_daily_review_bo.Prelude.{ℕ, Text, Bool, Option, List, [], ◌∷◌}
use jeonghan_daily_review_bo.Completeness.Evidence.{Evidence}
use jeonghan_daily_review_bo.Completeness.Rows.{Engine}
use jeonghan_daily_review_bo.Completeness.Attempts.{
  Result, ok, value_error, Source, checkpoint, link_observation, plan, start, close_run,
}
use jeonghan_daily_review_bo.Completeness.Finish.{finish}

-- What Python, SQLite's clock and chrono supply.
pub record Platform : Type 0 where
  pub casefold : Text → Text
  pub decimal : ℕ → Text
  pub utc : Text → Option Text
  pub instant : Text → Option ℕ
  pub sorted : List Text → List Text

-- A call, with the names, the time and the fate of the requests that it meets.
pub data Call : Type 0 where
  plans : (ℕ → Text) → List Source → Text → Text → Call
  starts : Text → Text → Text → Call
  checkpoints : Text → Evidence → Call
  links : Text → Text → Call
  finishes : Text → Text → Evidence → ℕ → Bool × Bool → Text → Call
  closes : Text → Text → Text → Call

-- A call that raises leaves the database as it was.
abbrev pub after {ℓ} : {A : Type ℓ} → (A → Engine) → Engine → Result A → Engine
after f e (ok a) = f a
after f e value_error = e

module _ (p : Platform) where
  unfoldable pub step : Call → Engine → Engine
  step (plans uuid sources from to) e =
      after (λ r. r.0) e (plan p.casefold p.decimal uuid p.utc sources from to e)
  step (starts now run source) e = after (λ r. r.0) e (start p.casefold now run source e)
  step (checkpoints id ev) e = checkpoint p.sorted id ev e
  step (links id post) e = link_observation id post e
  step (finishes now id ev retained reached error_class) e =
      after (λ r. r) e (finish p.sorted p.instant now id ev retained reached error_class e)
  step (closes now why run) e = close_run now why run e

  unfoldable pub run : List Call → Engine → Engine
  unfolding step
  run [] e = e
  run (c ∷ cs) e = run cs (step c e)
