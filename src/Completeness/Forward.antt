-- ===== src/Completeness/Forward.antt =====
-- The durable cursors of app/completeness_engine.py over whole histories.
use jeonghan_daily_review_bo.Prelude.{
  ℕ, ◌≤◌, Text, ◌===◌, text_le, text_le_refl, text_le_trans, text_le_total, ◌≡◌, refl, sym, subst,
  ap, ◌∙◌, ◌⊎◌, inl, inr, Bool, true, Option, none, some, List, [], ◌∷◌, arith, Bool-cases,
  Option-cases,
}
use jeonghan_daily_review_bo.Prelude.Table.{lookup, lookup-key, lookup-update_where}
use jeonghan_daily_review_bo.Completeness.Core.{complete}
use jeonghan_daily_review_bo.Completeness.Evidence.{Evidence, proof_of, detail_of}
use jeonghan_daily_review_bo.Completeness.Rows.{Attempt, Cursor, Engine, attempt_key, cursor_key}
use jeonghan_daily_review_bo.Completeness.Attempts.{
  checkpoint, link_observation, insert_attempt, start_row, start, close_run,
}
use jeonghan_daily_review_bo.Completeness.Finish.{
  Verdict, finish_payload, finished, finish_write, finish_row, finish, judge, advance_cursor,
  cursor_of,
}
use jeonghan_daily_review_bo.Completeness.Cursors.{Moved, advance-Moved}
use jeonghan_daily_review_bo.Completeness.Steps.{
  Platform, Call, plans, starts, checkpoints, links, finishes, closes, after, step, run,
}
use jeonghan_daily_review_bo.Completeness.Final.{IsFinal, HasDistinctIds}
use jeonghan_daily_review_bo.Completeness.History.{
  plan-induction, step-HasDistinctIds, step-IsFinal,
}

abbrev pub cursor_at : Text → Engine → Option Cursor
cursor_at s e = lookup cursor_key s e.cursors

-- A cursor is never lost, and goes neither back in time nor back to an earlier attempt.
abbrev pub IsForward : Option Cursor → Option Cursor → Type 0
IsForward none new = Unit
IsForward (some c) none = ⊥
IsForward (some c) (some d) =
    (text_le c.complete_through d.complete_through ≡ true) × (c.sequence ≤ d.sequence)

IsForward-refl : (o : Option Cursor) → IsForward o o
IsForward-refl none = tt
IsForward-refl (some c) = (text_le_refl c.complete_through, omega arith)

IsForward-trans : (a b c : Option Cursor) → IsForward a b → IsForward b c → IsForward a c
IsForward-trans none b c h k = tt
IsForward-trans (some a) none c h k = absurd h
IsForward-trans (some a) (some b) none h k = absurd k
IsForward-trans (some a) (some b) (some c) h k =
    (text_le_trans a.complete_through b.complete_through c.complete_through h.0 k.0, omega arith)

Moved-IsForward :
    (s id : Text) (row : Attempt) (old new : Option Cursor)
    → Moved s id row old new
    → IsForward old new
Moved-IsForward s id row none new m = tt
Moved-IsForward s id row (some c) new m = rw m.now_at (
  ground (arith, m.eligible, text_le_total row.window_end c.complete_through),
  ground (arith, m.eligible),
)

-- What a call of `finish` does to the row that it names and to one cursor.
abbrev pub FinishMoves : Text → Text → Engine → Engine → Type 0
FinishMoves s id e e' =
    (cursor_at s e' ≡ cursor_at s e)
    ⊎ ((row : Attempt) × (lookup attempt_key id e.attempts ≡ some row)
        × Moved s id row (cursor_at s e) (cursor_at s e')
        × (b : Attempt) × IsFinal id b e'
        × (b.status ≡ complete)
        × (b.window_end ≡ row.window_end)
        × (b.source ≡ row.source))

module _ (p : Platform) (now id : Text) (ev : Evidence) (retained : ℕ) (error_class : Text) where
  finish_write-FinishMoves :
      (s : Text) (row : Attempt) (reached : Bool) (v : Verdict) (e : Engine)
      → lookup attempt_key id e.attempts ≡ some row
      → FinishMoves s id e (
          finish_write p.sorted p.instant now id ev retained error_class row
            (advance_cursor p.instant reached id row v e.cursors)
            e)
  unfolding finish_write
  finish_write-FinishMoves s row reached v e there =
      let adv = advance_cursor p.instant reached id row v e.cursors in
      let payload = finish_payload p.sorted ev (proof_of ev error_class) (detail_of ev) row adv in
      let write = finished now payload retained e row adv in
      elim (advance-Moved p.instant reached id row s v e.cursors) [
        | inl same ↦ inl same
        | inr (moved, status) ↦ inr (
          row,
          there,
          moved,
          write row,
          record {
            stored = ground (
              arith,
              lookup-update_where attempt_key (λ (b : Attempt). b.attempt_id === id) write
                  (λ b. refl) id e.attempts,
              lookup-key attempt_key id e.attempts row there,
            );
            final = refl;
          },
          status,
          refl,
          refl,
        )
      ]

  finish-FinishMoves :
      (s : Text) (reached : Bool × Bool) (e : Engine)
      → FinishMoves s id e
          (after (λ r. r) e (finish p.sorted p.instant now id ev retained reached error_class e))
  unfolding finish finish_row
  finish-FinishMoves s reached e = elim (Option-cases (lookup attempt_key id e.attempts)) [
    | inl f ↦ rw (f, finish_row) (inl refl)
    | inr (row, f) ↦ elim (Bool-cases row.attempted) [
      | inr g ↦ inl (rw (f, finish_row, g) refl)
      | inl t ↦ elim (Bool-cases row.finalized) [
        | inl g ↦ inl (rw (f, finish_row, t, g) refl)
        | inr g ↦
            let moves =
              finish_write-FinishMoves s row reached.1
                (judge reached.0 (proof_of ev error_class) error_class) e f in
            let same : after (λ r. r) e
                  (finish p.sorted p.instant now id ev retained reached error_class e)
                ≡ finish_write p.sorted p.instant now id ev retained error_class row
                    (advance_cursor p.instant reached.1 id row
                      (judge reached.0 (proof_of ev error_class) error_class) e.cursors)
                    e =
              rw (f, finish_row, t, g) refl in
            subst (FinishMoves s id e) (sym same) moves
      ]
    ]
  ]

insert-cursors : (b : Attempt) (e : Engine) → (insert_attempt b e).cursors ≡ e.cursors
unfolding insert_attempt
insert-cursors b e = ground arith

start-cursors :
    (casefold : Text → Text) (now name source : Text) (e : Engine)
    → (after (λ r. r.0) e (start casefold now name source e)).cursors ≡ e.cursors
unfolding start start_row
start-cursors casefold now name source e = ground arith

link-cursors : (id post : Text) (e : Engine) → (link_observation id post e).cursors ≡ e.cursors
unfolding link_observation
link-cursors id post e = ground arith

abbrev SameCursors : Engine → Engine → Type 0
SameCursors e e' = e'.cursors ≡ e.cursors

module _ (p : Platform) where
  -- A call moves a cursor only through `finish`, and then as `finish` does.
  step-moves :
      (s : Text) (c : Call) (e : Engine)
      → (cursor_at s (step p c e) ≡ cursor_at s e)
        ⊎ ((id : Text) × (row : Attempt) × Moved s id row (cursor_at s e) (cursor_at s (step p c e))
            × (b : Attempt) × IsFinal id b (step p c e)
            × (b.status ≡ complete)
            × (b.window_end ≡ row.window_end)
            × (b.source ≡ row.source))
  unfolding step checkpoint close_run
  step-moves s (plans uuid sources from to) e = inl (
      ap (lookup cursor_key s) (
        plan-induction p.casefold p.decimal uuid (SameCursors e) (λ b e' h. insert-cursors b e' ∙ h)
          p.utc from to sources e refl))
  step-moves s (starts now name source) e =
      inl (ap (lookup cursor_key s) (start-cursors p.casefold now name source e))
  step-moves s (checkpoints id ev) e = inl refl
  step-moves s (links id post) e = inl (ap (lookup cursor_key s) (link-cursors id post e))
  step-moves s (finishes now id ev retained reached error_class) e =
      elim (finish-FinishMoves p now id ev retained error_class s reached e) [
        | inl same ↦ inl same
        | inr (row, there, moved, b, final, status, ends, source) ↦
            inr (id, row, moved, b, final, status, ends, source)
      ]
  step-moves s (closes now why name) e = inl refl

  step-IsForward :
      (s : Text) (c : Call) (e : Engine) → IsForward (cursor_at s e) (cursor_at s (step p c e))
  step-IsForward s c e = elim (step-moves s c e) [
    | inl same ↦ rw same (IsForward-refl (cursor_at s e))
    | inr (id, row, moved, b, final, status, ends, source) ↦ Moved-IsForward s id row _ _ moved
  ]

  -- Over any history of calls the cursor of a source is never lost, never goes back in time, and
  -- never falls to an earlier attempt.
  pub run-IsForward :
      (s : Text) (cs : List Call) (e : Engine)
      → IsForward (cursor_at s e) (cursor_at s (run p cs e))
  unfolding run
  run-IsForward s [] e = IsForward-refl (cursor_at s e)
  run-IsForward s (c ∷ cs) e =
      IsForward-trans (cursor_at s e) (cursor_at s (step p c e)) _ (step-IsForward s c e)
        (run-IsForward s cs (step p c e))

-- The attempt that a cursor stands on: final, COMPLETE, of the same source, and ending where the
-- cursor stands.
pub record IsBacked (e : Engine) (s : Text) (c : Cursor) : Type 0 where
  pub attempt : Attempt
  pub final : IsFinal c.attempt_id attempt e
  pub status : attempt.status ≡ complete
  pub ends : attempt.window_end ≡ c.complete_through
  pub its_source : attempt.source ≡ s

pub record IsSound (e : Engine) : Type 0 where
  pub distinct : HasDistinctIds e
  pub backed : (s : Text) (c : Cursor) → cursor_at s e ≡ some c → IsBacked e s c

module _ (p : Platform) where
  step-IsBacked :
      (call : Call) (e : Engine)
      → IsSound e
      → (s : Text) (c : Cursor) → cursor_at s (step p call e) ≡ some c
      → IsBacked (step p call e) s c
  step-IsBacked call e h s c at = elim (step-moves p s call e) [
    | inl same ↦
        let old = h.backed s c (sym same ∙ at) in
        record {
          attempt = old.attempt;
          final = step-IsFinal p c.attempt_id old.attempt call e h.distinct old.final;
          status = old.status;
          ends = old.ends;
          its_source = old.its_source;
        }
    | inr (id, row, moved, b, final, status, ends, source) ↦
        let same : cursor_of row id row.window_end ≡ c = ground (arith, moved.now_at, at) in
        record {
          attempt = b;
          final = rw (← ap (λ (x : Cursor). x.attempt_id) same) final;
          status = status;
          ends = ends ∙ ap (λ (x : Cursor). x.complete_through) same;
          its_source = source ∙ moved.its_source;
        }
  ]

  step-IsSound : (call : Call) (e : Engine) → IsSound e → IsSound (step p call e)
  step-IsSound call e h = record {
    distinct = step-HasDistinctIds p call e h.distinct;
    backed = step-IsBacked call e h;
  }

  -- Over any history of calls every cursor stands on a final COMPLETE attempt of its own source,
  -- at the end of that attempt's window.
  pub run-IsSound : (cs : List Call) (e : Engine) → IsSound e → IsSound (run p cs e)
  unfolding run
  run-IsSound [] e h = h
  run-IsSound (c ∷ cs) e h = run-IsSound cs (step p c e) (step-IsSound c e h)
