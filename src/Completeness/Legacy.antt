-- ===== src/Completeness/Legacy.antt =====
-- The status of the ledger that `finish` of app/completeness_engine.py copies into its row.
use jeonghan_daily_review_bo.Prelude.{
  ℕ, Text, ◌===◌, ◌≡◌, ◌≢◌, refl, sym, ◌∙◌, Bool, false, Option, some, List, ◌∷◌, arith,
}
use jeonghan_daily_review_bo.Prelude.Table.{lookup, lookup-key, lookup-update_where}
use jeonghan_daily_review_bo.Completeness.Evidence.{Evidence, proof_of, detail_of}
use jeonghan_daily_review_bo.Completeness.Rows.{Attempt, Engine, attempt_key}
use jeonghan_daily_review_bo.Completeness.Attempts.{ok}
use jeonghan_daily_review_bo.Completeness.Finish.{
  Advance, judge, advance_cursor, legacy_status, finished, finish_payload, finish_write, finish_row,
  finish,
}

module _ (sorted : List Text → List Text) (instant : Text → Option ℕ) (now : Text) (id : Text)
    (ev : Evidence) (retained : ℕ) where
  write-legacy_status :
      (error_class : Text) (row b : Attempt) (adv : Advance) (e : Engine)
      → lookup attempt_key id e.attempts ≡ some row
      → lookup attempt_key id
          (finish_write sorted instant now id ev retained error_class row adv e).attempts
        ≡ some b
      → (b.legacy_status ≡ legacy_status e.ledger_statuses) × (b.source ≡ row.source)
  unfolding finish_write finish_payload
  write-legacy_status error_class row b adv e found after = ground (
    arith,
    lookup-key attempt_key id e.attempts row found,
    lookup-update_where attempt_key (λ (a : Attempt). a.attempt_id === id)
        (finished now (finish_payload sorted ev (proof_of ev error_class) (detail_of ev) row adv)
          retained e row adv)
        (λ a. refl) id e.attempts,
  )

  -- Where the first row of the ledger is that of another source, finishing an open attempt records
  -- the status of that other source as its own.
  pub finish-legacy_status :
      (reached : Bool × Bool) (error_class : Text) (e e' : Engine) (row b : Attempt)
      (handle status : Text) (rest : List (Text × Text))
      → lookup attempt_key id e.attempts ≡ some row
      → row.finalized ≡ false
      → e.ledger_statuses ≡ (handle, status) ∷ rest
      → handle ≢ row.source
      → finish sorted instant now id ev retained reached error_class e ≡ ok e'
      → lookup attempt_key id e'.attempts ≡ some b
      → (b.source ≢ handle) × (b.legacy_status ≡ status)
  unfolding finish finish_row
  finish-legacy_status reached error_class e e' row b handle status rest found fresh first other
        done after =
      let v = judge reached.0 (proof_of ev error_class) error_class in
      let adv = advance_cursor instant reached.1 id row v e.cursors in
      let facts : (b.legacy_status ≡ legacy_status e.ledger_statuses) × (b.source ≡ row.source) =
        ground (arith, write-legacy_status error_class row b adv e) in
      ((λ same. other (sym same ∙ facts.1)), facts.0 ∙ rw first refl)
