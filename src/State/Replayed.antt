-- ===== src/State/Replayed.antt =====
-- A fresh start of app/state.py that is replayed: its run ID is among the last 100 ones.
use mathlib.Core.List.{append_assoc}
use jeonghan_daily_review_bo.Prelude.{
  ℕ, suc, ◌+◌, ◌≤◌, Text, ◌===◌, ◌≡◌, refl, ap, ◌∙◌, text_dec, inl, inr, Bool, true, false, not,
  some, List, [], ◌∷◌, ◌++◌, length, length-append, select, is_empty, leb, arith, Bool-cases,
}
use jeonghan_daily_review_bo.Handles.{strip}
use jeonghan_daily_review_bo.State.Rows.{Data}
use jeonghan_daily_review_bo.State.Lifecycle.{last_items}
use jeonghan_daily_review_bo.State.Calls.{has_text, token_limit, apply_fresh_start}
use jeonghan_daily_review_bo.State.Kept.{last_items-short, last_items-cons}
use jeonghan_daily_review_bo.State.Fresh.{is_applied, applied-same}

-- The token is in the list, with at most so many after it.
abbrev IsRecent : ℕ → Text → List Text → Type 0
IsRecent n t ts =
    (before : List Text) × (after : List Text) × (ts ≡ before ++ (t ∷ after)) × (length after ≤ n)

IsRecent-has_text :
    (t : Text) (before after : List Text) → has_text t (before ++ (t ∷ after)) ≡ true
IsRecent-has_text t [] after = ground arith
IsRecent-has_text t (x ∷ before) after = ground (arith, IsRecent-has_text t before after)

last_items-tail :
    (n : ℕ) (before tail : List Text)
    → length tail ≤ n
    → (kept : List Text) × (last_items n (before ++ tail) ≡ kept ++ tail)
last_items-tail n [] tail h = ([], last_items-short n tail h)
last_items-tail n (x ∷ before) tail h = elim (Bool-cases (leb n (length (before ++ tail)))) [
  | inl t ↦
      let (kept, e) = last_items-tail n before tail h in
      (kept, last_items-cons n x (before ++ tail) (ground arith) ∙ e)
  | inr f ↦ (x ∷ before, last_items-short n (x ∷ (before ++ tail)) (ground arith))
]

module _ (p : Text → Bool) where
  select-middle :
      (t : Text) (before after : List Text)
      → p t ≡ true
      → select p (before ++ (t ∷ after)) ≡ select p before ++ (t ∷ select p after)
  select-middle t [] after h = ground arith
  select-middle t (x ∷ before) after h = ground (arith, select-middle t before after h)

  length-select : (ts : List Text) → length (select p ts) ≤ length ts
  length-select [] = omega arith
  length-select (t ∷ ts) = ground (arith, length-select ts)

-- The tokens after a fresh start with a new one.
abbrev renewed : Text → List Text → List Text
renewed token ts = last_items token_limit (select (λ t. not (t === token)) ts ++ (token ∷ []))

renewed-IsRecent :
    (n : ℕ) (t token : Text) (ts : List Text)
    → suc (suc n) ≤ token_limit
    → (t === token) ≡ false
    → IsRecent n t ts
    → IsRecent (suc n) t (renewed token ts)
renewed-IsRecent n t token ts room other (before, after, e, short) =
    let p : Text → Bool = λ x. not (x === token) in
    let after' = select p after ++ (token ∷ []) in
    let short' : length after' ≤ suc n =
      omega (arith, length-append (select p after) (token ∷ []), length-select p after, short) in
    let (kept, same) =
      last_items-tail token_limit (select p before) (t ∷ after') (omega (arith, short', room)) in
    (
      kept,
      after',
      ap (renewed token) e
          ∙ ap (λ xs. last_items token_limit (xs ++ (token ∷ [])))
              (select-middle p t before after (ground (arith, other)))
          ∙ ap (last_items token_limit)
              (append_assoc (select p before) (t ∷ select p after) (token ∷ []))
          ∙ same,
      short',
    )

apply_fresh_start-new :
    (run_id stamp : Text) (d : Data)
    → is_empty (strip run_id) ≡ false
    → is_applied (strip run_id) d ≡ false
    → (apply_fresh_start run_id stamp d).1.fresh_start_tokens
      ≡ renewed (strip run_id) d.fresh_start_tokens
unfolding apply_fresh_start
apply_fresh_start-new run_id stamp d named new = rw (named, new) refl

apply_fresh_start-unnamed :
    (run_id stamp : Text) (d : Data)
    → is_empty (strip run_id) ≡ true
    → (apply_fresh_start run_id stamp d).1 ≡ d
unfolding apply_fresh_start
apply_fresh_start-unnamed run_id stamp d t = rw t refl

later-IsRecent : (n m : ℕ) (t : Text) (ts : List Text) → n ≤ m → IsRecent n t ts → IsRecent m t ts
later-IsRecent n m t ts le (before, after, e, short) = (before, after, e, omega (arith, short, le))

recent-is_applied :
    (n : ℕ) (t : Text) (d : Data) → IsRecent n t d.fresh_start_tokens → is_applied t d ≡ true
recent-is_applied n t d (before, after, e, short) =
    let here : has_text t d.fresh_start_tokens ≡ true = rw e (IsRecent-has_text t before after) in
    ground (arith, here)

step-IsRecent :
    (n : ℕ) (t run_id stamp : Text) (d : Data)
    → suc (suc n) ≤ token_limit
    → IsRecent n t d.fresh_start_tokens
    → IsRecent (suc n) t (apply_fresh_start run_id stamp d).1.fresh_start_tokens
step-IsRecent n t run_id stamp d room h =
    let stays : IsRecent (suc n) t d.fresh_start_tokens =
      later-IsRecent n (suc n) t d.fresh_start_tokens (omega arith) h in
    elim (Bool-cases (is_empty (strip run_id))) [
      | inl unnamed ↦ rw (apply_fresh_start-unnamed run_id stamp d unnamed) stays
      | inr named ↦ elim (Bool-cases (is_applied (strip run_id) d)) [
        | inl t ↦ rw (applied-same run_id stamp d named t) stays
        | inr new ↦ rw (apply_fresh_start-new run_id stamp d named new) (
            renewed-IsRecent n t (strip run_id) d.fresh_start_tokens room
              (elim (text_dec t (strip run_id)) [
                | yes same ↦
                    absurd (cc (recent-is_applied n t d h, new, ap (λ x. is_applied x d) same))
                | no differ ↦ ground (arith, differ)
              ])
              h)
      ]
    ]

-- Fresh starts with these run IDs, each at its moment.
abbrev pub starts : List (Text × Text) → Data → Data
starts [] d = d
starts ((run_id, stamp) ∷ rest) d = starts rest (apply_fresh_start run_id stamp d).1

starts-IsRecent :
    (rest : List (Text × Text)) (n : ℕ) (t : Text) (d : Data)
    → suc n + length rest ≤ token_limit
    → IsRecent n t d.fresh_start_tokens
    → IsRecent (n + length rest) t (starts rest d).fresh_start_tokens
starts-IsRecent [] n t d room h = later-IsRecent n (n + 0) t d.fresh_start_tokens (omega arith) h
starts-IsRecent ((run_id, stamp) ∷ rest) n t d room h =
    let next = (apply_fresh_start run_id stamp d).1 in
    later-IsRecent (suc n + length rest) (n + suc (length rest)) t
      (starts rest next).fresh_start_tokens (omega arith)
      (starts-IsRecent rest (suc n) t next (omega (arith, room))
        (step-IsRecent n t run_id stamp d (omega (arith, room)) h))

-- A fresh start that is applied is not applied again: after up to 99 other fresh starts, with any run
-- IDs (the state keeps the last 100), a call with its run ID discards nothing and changes nothing.
pub apply_fresh_start-again :
    (run_id stamp later : Text) (d : Data) (rest : List (Text × Text))
    → is_empty (strip run_id) ≡ false
    → is_applied (strip run_id) d ≡ false
    → length rest ≤ 99
    → apply_fresh_start run_id later (starts rest (apply_fresh_start run_id stamp d).1)
      ≡ (some 0, starts rest (apply_fresh_start run_id stamp d).1)
apply_fresh_start-again run_id stamp later d rest named new room =
    let token = strip run_id in
    let first = (apply_fresh_start run_id stamp d).1 in
    let kept = select (λ t. not (t === token)) d.fresh_start_tokens in
    let (before, same) = last_items-tail token_limit kept (token ∷ []) (omega arith) in
    let here : IsRecent 0 token first.fresh_start_tokens =
      (before, [], apply_fresh_start-new run_id stamp d named new ∙ same, omega arith) in
    applied-same run_id later (starts rest first) named (
      recent-is_applied (0 + length rest) token (starts rest first)
        (starts-IsRecent rest 0 token first (omega (arith, room)) here))
