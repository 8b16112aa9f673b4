-- ===== src/Telegram/Api.antt =====
-- `TelegramBot.api` of app/telegram.py: one request to Telegram, tried a bounded number of times.
-- What the network answers to each try is the parameter `answers`.
use jeonghan_daily_review_bo.Prelude.{
  ℕ, zero, suc, ◌^◌, min, max, Text, Bool, false, not, ◌||◌, Option, none, some, List, [], ◌∷◌,
  ◌++◌, leb, ltb, ◌==◌, if◌then◌else◌,
}
use jeonghan_daily_review_bo.Telegram.Send.{Error, permanent, transient, rate_limit}

-- A reply whose JSON is an object: the HTTP status, `error_code`, `parameters.retry_after` where it
-- is a number, `ok`, and `result`.
pub record Payload : Type 0 where
  pub status_code : ℕ
  pub error_code : ℕ
  pub retry_after : Option ℕ
  pub is_ok : Bool
  pub result : Text

-- The ways in which a try can end: the network fails, the body is no JSON, the JSON is no object or
-- has a malformed error_code, or it is a payload.
pub data Answer : Type 0 where
  network_error : Answer
  not_json : ℕ → Answer
  malformed : Answer
  payload : Payload → Answer

-- A pause before the next try: as long as Telegram asks, or after the number of the try.
pub data Sleep : Type 0 where
  asked : ℕ → Sleep
  backoff : ℕ → Sleep

pub data Result : Type 0 where
  returned : Text → Result
  raised : Error → Result
  exhausted : Result

-- What the last try and the state after it are.
pub record Done : Type 0 where
  pub result : Result
  pub rate_limited : Bool
  pub requests : ℕ
  pub sleeps : List Sleep

-- The number of seconds without the jitter, `_sleep_before_retry`.
unfoldable pub seconds : Sleep → ℕ
seconds (asked n) = min 120 (max 1 n)
seconds (backoff attempt) = min 8 (2 ^ attempt)

-- `int(parameters.get("retry_after", 1) or 1)`, and 1 where it is malformed.
abbrev pub wait_of : Option ℕ → ℕ
wait_of none = 1
wait_of (some zero) = 1
wait_of (some (suc n)) = suc n

abbrev pub is_limited : Payload → Bool
is_limited p = p.status_code == 429 || p.error_code == 429

abbrev pub is_unavailable : Payload → Bool
is_unavailable p = leb 500 p.status_code || leb 500 p.error_code

-- `response.ok` is false from status 400 on.
abbrev pub outcome_of : Payload → Result
outcome_of p =
    if not (ltb p.status_code 400) || not p.is_ok then raised permanent else returned p.result

-- What one try tells: the call ends, or the pause that comes before the next try with the error that
-- ends the call where no try is left.
pub data Verdict : Type 0 where
  final : Result → Verdict
  retry : Sleep → Error → Verdict

abbrev pub verdict_of_payload : ℕ → Payload → Verdict
verdict_of_payload attempt p =
    if is_limited p
    then retry (asked (wait_of p.retry_after)) (rate_limit (wait_of p.retry_after))
    else if is_unavailable p
    then retry (backoff attempt) transient
    else final (outcome_of p)

abbrev pub verdict : ℕ → Answer → Verdict
verdict attempt network_error = retry (backoff attempt) transient
verdict attempt (not_json status) =
    if leb 500 status then retry (backoff attempt) transient else final (raised permanent)
verdict attempt malformed = final (raised permanent)
verdict attempt (payload p) = verdict_of_payload attempt p

-- `self._last_api_had_rate_limit`
abbrev pub limits : Answer → Bool
limits (payload p) = is_limited p
limits _ = false

abbrev pub pause_of : Verdict → Option Sleep
pause_of (final r) = none
pause_of (retry s e) = some s

-- What a call raises or returns where it ends with this verdict.
abbrev pub ended : Verdict → Result
ended (final r) = r
ended (retry s e) = raised e

module _ (answers : ℕ → Answer) where
  -- The state after the try with the number `attempt`, which is the last.
  abbrev pub stop : ℕ → Bool → List Sleep → Done
  stop attempt limited sleeps = record {
    result = ended (verdict attempt (answers attempt));
    rate_limited = limited || limits (answers attempt);
    requests = suc attempt;
    sleeps = sleeps;
  }

  -- The loop with `left` tries after this one, which has the number `attempt`.
  unfoldable pub api_from : ℕ → ℕ → Bool → List Sleep → Done
  api_from zero attempt limited sleeps = stop attempt limited sleeps
  api_from (suc left) attempt limited sleeps = elim (pause_of (verdict attempt (answers attempt))) [
    | none ↦ stop attempt limited sleeps
    | some s ↦ api_from left (suc attempt) (limited || limits (answers attempt)) (sleeps ++ s ∷ [])
  ]

  -- `for attempt in range(attempts)` with `attempts = max(1, attempts)`.
  unfoldable pub api : ℕ → Done
  unfolding api_from
  api zero = api_from 0 0 false []
  api (suc left) = api_from left 0 false []
