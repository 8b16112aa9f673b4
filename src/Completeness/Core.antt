-- ===== src/Completeness/Core.antt =====
-- The deterministic core, rust/editorial-core/src/lib.rs, and the subprocess call that reaches it,
-- `core_request` of app/completeness_engine.py. A time stamp is parsed by the chrono library: the
-- parameter `instant` gives the moment that a text stands for, or nothing if it is malformed.
use jeonghan_daily_review_bo.Prelude.{
  ℕ, Text, Bool, true, false, not, ◌&&◌, ◌||◌, Option, none, some, ltb, leb, if◌then◌else◌,
}

-- `TraversalProof`
pub record Proof : Type 0 where
  pub pages : ℕ
  pub raw_count : ℕ
  pub valid_response : Bool
  pub exhausted : Bool
  pub resumed : Bool
  pub lower_boundary : Bool
  pub failed : Bool

-- `CompletenessState`, and the status column of the engine's table.
pub data Status : Type 0 where
  attempting complete partial unproven : Status

abbrev pub is_complete : Status → Bool
is_complete complete = true
is_complete _ = false

abbrev pub is_partial : Status → Bool
is_partial partial = true
is_partial _ = false

unfoldable pub evaluate_completeness : Proof → Status
evaluate_completeness p =
    if not p.failed
      && ltb 0 p.pages
      && p.valid_response
      && p.exhausted
      && not p.resumed
      && not p.lower_boundary
    then complete
    else if ltb 0 p.raw_count
    then partial
    else unproven

-- `SourceWindowState`, without the handle that no rule reads.
pub record Window : Type 0 where
  pub window_start : Text
  pub window_end : Text
  pub completeness : Status
  pub complete_through : Option Text

pub data CoreError : Type 0 where
  invalid_timestamp cursor_outside_window cursor_advance_without_proof : CoreError
  cursor_regression : Text → Text → CoreError

pub data CoreResult : Type 0 where
  ok : Text → CoreResult
  err : CoreError → CoreResult

module _ (instant : Text → Option ℕ) where
  -- The last check of `advance_complete_through`: the cursor that is there is not after the
  -- candidate.
  unfoldable pub no_regression : Option Text → Text → ℕ → CoreResult
  no_regression none candidate at = ok candidate
  no_regression (some current) candidate at = elim (instant current) [
    | none ↦ err invalid_timestamp
    | some now ↦ if ltb at now then err (cursor_regression current candidate) else ok candidate
  ]

  unfoldable pub advance_complete_through : Window → Text → CoreResult
  unfolding no_regression
  advance_complete_through w candidate =
      if not (is_complete w.completeness)
      then err cursor_advance_without_proof
      else elim (instant candidate) [
        | none ↦ err invalid_timestamp
        | some at ↦ elim (instant w.window_start) [
          | none ↦ err invalid_timestamp
          | some start ↦ elim (instant w.window_end) [
            | none ↦ err invalid_timestamp
            | some end ↦
                if leb end start || ltb at start || ltb end at
                then err cursor_outside_window
                else no_regression w.complete_through candidate at
          ]
        ]
      ]

  -- `core_request("advance_cursor", ...)`: nothing where the call raises, which it does where the
  -- process cannot be run or reports an error.
  unfoldable pub request_advance : Bool → Window → Text → Option Text
  unfolding advance_complete_through
  request_advance false w candidate = none
  request_advance true w candidate = elim (advance_complete_through w candidate) [
    | ok through ↦ some through
    | err _ ↦ none
  ]

-- `core_request("evaluate_completeness", ...)`
unfoldable pub request_evaluate : Bool → Proof → Option Status
unfolding evaluate_completeness
request_evaluate false p = none
request_evaluate true p = some (evaluate_completeness p)
