-- ===== src/Completeness/Verdict.antt =====
-- What a COMPLETE verdict of app/completeness_engine.py stands on.
use jeonghan_daily_review_bo.Prelude.{
  ℕ, ◌<◌, Text, ◌===◌, ◌≡◌, refl, ◌⊎◌, inl, inr, Bool, true, false, not, Option, some, List, [],
  ◌∷◌, select, is_empty, arith, Bool-cases,
}
use jeonghan_daily_review_bo.Prelude.Table.{lookup, lookup-key, lookup-update_where}
use jeonghan_daily_review_bo.Completeness.Core.{
  Proof, complete, evaluate_completeness, request_evaluate,
}
use jeonghan_daily_review_bo.Completeness.Evidence.{Evidence, mem, named, proof_of, detail_of}
use jeonghan_daily_review_bo.Completeness.Rows.{Attempt, Cursor, Engine, attempt_key}
use jeonghan_daily_review_bo.Completeness.Attempts.{ok}
use jeonghan_daily_review_bo.Completeness.Finish.{
  Verdict, Advance, judge, write_cursor, advance_cursor, finish_row, finish_payload, finished,
  finish_write, finish,
}

-- The traversal proves the window: it failed nowhere, began at the top, returned a valid page, saw
-- every post that the window is known to hold, and ended at a boundary.
pub record IsProven (ev : Evidence) (error_class : Text) : Type 0 where
  pub no_error : error_class ≡ []
  pub has_page : 0 < ev.pages
  pub valid : ev.valid_response ≡ true
  pub fresh : ev.resumed ≡ false
  pub ordered : ev.timeline_order_valid ≡ true
  pub covered :
      (x : Text)
      → mem x (named ev.expected_window_ids) ≡ true
      → mem x (named ev.observation_ids) ≡ true
  pub terminal : (ev.exhausted ≡ true) ⊎ (ev.lower_boundary_proven ≡ true)

none_missing :
    (x : Text) (seen xs : List Text)
    → is_empty (select (λ y. not (mem y seen)) xs) ≡ true
    → mem x xs ≡ true
    → mem x seen ≡ true
none_missing x seen [] h m = cc
none_missing x seen (y ∷ xs) h m = elim (Bool-cases (mem y seen)) [
  | inl here ↦ ground (arith, none_missing x seen xs)
  | inr gone ↦ ground arith
]

evaluate_complete :
    (p : Proof)
    → evaluate_completeness p ≡ complete
    → (p.failed ≡ false)
      × (0 < p.pages)
      × (p.valid_response ≡ true)
      × (p.exhausted ≡ true)
      × (p.resumed ≡ false)
      × (p.lower_boundary ≡ false)
unfolding evaluate_completeness
evaluate_complete p h = ground arith

pub proof-IsProven :
    (ev : Evidence) (error_class : Text)
    → evaluate_completeness (proof_of ev error_class) ≡ complete
    → IsProven ev error_class
unfolding proof_of
proof-IsProven ev error_class h =
    let facts = evaluate_complete (proof_of ev error_class) h in
    record {
      no_error = ground (arith, facts.0);
      has_page = ground (arith, facts.1);
      valid = facts.2;
      fresh = facts.4;
      ordered = ground (arith, facts.3);
      covered = λ x.
          none_missing x (named ev.observation_ids) (named ev.expected_window_ids)
            (ground (arith, facts.3));
      terminal = ground (arith, facts.3);
    }

judge-complete :
    (reached : Bool) (p : Proof) (error_class : Text)
    → (judge reached p error_class).status ≡ complete
    → evaluate_completeness p ≡ complete
unfolding judge request_evaluate
judge-complete reached p error_class h = ground arith

module _ (instant : Text → Option ℕ) (reached : Bool) (id : Text) (row : Attempt) where
  advance-complete :
      (v : Verdict) (cursors : List Cursor)
      → (advance_cursor instant reached id row v cursors).verdict.status ≡ complete
      → v.status ≡ complete
  unfolding advance_cursor write_cursor
  advance-complete v cursors h = ground arith

module _ (sorted : List Text → List Text) (instant : Text → Option ℕ) (now : Text) (id : Text)
    (ev : Evidence) (retained : ℕ) where
  -- A finished row has the verdict, and is final.
  finish_write-row :
      (error_class : Text) (row b : Attempt) (adv : Advance) (e : Engine)
      → lookup attempt_key id e.attempts ≡ some row
      → lookup attempt_key id
          (finish_write sorted instant now id ev retained error_class row adv e).attempts
        ≡ some b
      → (b.status ≡ adv.verdict.status) × (b.finalized ≡ true)
  unfolding finish_write finish_payload
  finish_write-row error_class row b adv e found after = ground (
    arith,
    lookup-key attempt_key id e.attempts row found,
    lookup-update_where attempt_key (λ (a : Attempt). a.attempt_id === id)
        (finished now (finish_payload sorted ev (proof_of ev error_class) (detail_of ev) row adv)
          retained e row adv)
        (λ a. refl) id e.attempts,
  )

  -- If finishing an open attempt leaves it COMPLETE, then the traversal proved its window.
  pub finish-IsProven :
      (reached : Bool × Bool) (error_class : Text) (e e' : Engine) (row b : Attempt)
      → lookup attempt_key id e.attempts ≡ some row
      → row.finalized ≡ false
      → finish sorted instant now id ev retained reached error_class e ≡ ok e'
      → lookup attempt_key id e'.attempts ≡ some b
      → b.status ≡ complete
      → IsProven ev error_class
  unfolding finish finish_row
  finish-IsProven reached error_class e e' row b found fresh done after status =
      let v = judge reached.0 (proof_of ev error_class) error_class in
      let adv = advance_cursor instant reached.1 id row v e.cursors in
      proof-IsProven ev error_class (
        ground (
          arith,
          finish_write-row error_class row b adv e,
          advance-complete instant reached.1 id row v e.cursors,
          judge-complete reached.0 (proof_of ev error_class) error_class,
        ))
