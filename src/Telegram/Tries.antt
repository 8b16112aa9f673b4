-- ===== src/Telegram/Tries.antt =====
-- The tries of `TelegramBot.api` of app/telegram.py: how many there are, which of them is the last, and
-- how long the pauses between them are.
use jeonghan_daily_review_bo.Prelude.{
  ℕ, zero, suc, ◌+◌, ◌≤◌, max, ◌≡◌, refl, ap, ◌⊎◌, inl, inr, Bool, true, false, ◌||◌, Option, none,
  some, List, [], ◌∷◌, ◌++◌, arith, Option-cases,
}
use jeonghan_daily_review_bo.Telegram.Api.{
  Answer, Sleep, asked, backoff, Done, seconds, Verdict, verdict, limits, pause_of, ended, api_from,
  api,
}

abbrev pub add_pause : Option (List Sleep) → Option Sleep → Option (List Sleep)
add_pause none p = none
add_pause (some ss) none = none
add_pause (some ss) (some s) = some (ss ++ s ∷ [])

abbrev pub is_final : Verdict → Bool
is_final v = elim (pause_of v) [ none ↦ true | some s ↦ false ]

module _ (answers : ℕ → Answer) where
  -- The pauses after the first `k` tries, nothing where one of them ends the call.
  unfoldable pub pauses : ℕ → Option (List Sleep)
  pauses zero = some []
  pauses (suc k) = add_pause (pauses k) (pause_of (verdict k (answers k)))

  -- Whether one of the first `k` tries met a rate limit.
  unfoldable pub any_limit : ℕ → Bool
  any_limit zero = false
  any_limit (suc k) = any_limit k || limits (answers k)

  -- A call of at most `attempts` tries, the last of which has the number `k`: each try before it asked
  -- for a pause, which was made; the last one ended the call or was the last that was allowed.
  pub record IsTried (attempts : ℕ) (k : ℕ) (d : Done) : Type 0 where
    pub requests : d.requests ≡ suc k
    pub bound : suc k ≤ attempts
    pub sleeps : pauses k ≡ some d.sleeps
    pub result : d.result ≡ ended (verdict k (answers k))
    pub last : (is_final (verdict k (answers k)) ≡ true) ⊎ (suc k ≡ attempts)
    pub limited : d.rate_limited ≡ any_limit (suc k)

  api_from-IsTried :
      (left attempt attempts : ℕ) (limited : Bool) (sleeps : List Sleep)
      → suc (attempt + left) ≡ attempts
      → pauses attempt ≡ some sleeps
      → limited ≡ any_limit attempt
      → (k : ℕ) × IsTried attempts k (api_from answers left attempt limited sleeps)
  unfolding api_from pauses any_limit
  api_from-IsTried zero attempt attempts limited sleeps e p l = (
    attempt,
    record {
      requests = refl;
      bound = omega arith;
      sleeps = p;
      result = refl;
      last = inr (omega arith);
      limited = ap (λ b. b || limits (answers attempt)) l;
    },
  )
  api_from-IsTried (suc left) attempt attempts limited sleeps e p l =
      elim (Option-cases (pause_of (verdict attempt (answers attempt)))) [
        | inl n ↦
            rw (api_from, n)
              (
                attempt,
                record {
                  requests = refl;
                  bound = omega arith;
                  sleeps = p;
                  result = refl;
                  last = inl (rw (is_final, n) refl);
                  limited = ap (λ b. b || limits (answers attempt)) l;
                },
              )
        | inr (s, t) ↦
            rw (api_from, t)
              (api_from-IsTried left (suc attempt) attempts (limited || limits (answers attempt))
                (sleeps ++ s ∷ []) (omega arith) (rw (p, t) refl)
                (ap (λ b. b || limits (answers attempt)) l))
      ]

  -- A call makes at least one try and at most as many as are allowed, one where none is. It ends with
  -- what the first try that asks for no pause says, or else the last one that is allowed; it pauses
  -- once after each try before that one, and tells whether one of its tries met a rate limit.
  pub api-IsTried : (attempts : ℕ) → (k : ℕ) × IsTried (max 1 attempts) k (api answers attempts)
  unfolding api pauses any_limit
  api-IsTried zero = api_from-IsTried 0 0 1 false [] refl refl refl
  api-IsTried (suc left) =
      api_from-IsTried left 0 (max 1 (suc left)) false [] (omega arith) refl refl

-- No pause is longer than two minutes.
pub seconds_le : (s : Sleep) → seconds s ≤ 120
unfolding seconds
seconds_le (asked n) = omega arith
seconds_le (backoff k) = omega arith
