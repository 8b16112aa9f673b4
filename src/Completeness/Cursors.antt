-- ===== src/Completeness/Cursors.antt =====
-- When and how `finish` of app/completeness_engine.py moves the cursor of a source.
use jeonghan_daily_review_bo.Prelude.{
  ℕ, Text, ◌===◌, ◌≡◌, refl, ◌⊎◌, inl, inr, Bool, true, Option, some, List, arith, Bool-cases,
  if◌then◌else◌,
}
use jeonghan_daily_review_bo.Prelude.Table.{lookup, upsert, lookup-upsert}
use jeonghan_daily_review_bo.Completeness.Core.{complete}
use jeonghan_daily_review_bo.Completeness.Rows.{Attempt, Cursor, cursor_key}
use jeonghan_daily_review_bo.Completeness.Finish.{
  Verdict, Advance, cursor_of, is_eligible, is_contiguous, write_cursor, advance_cursor,
}

-- The cursor of `s` moves from `old` to the end of the window of `row`, which overlaps or touches
-- what `old` has covered and goes beyond it.
pub record Moved (s : Text) (id : Text) (row : Attempt) (old new : Option Cursor) : Type 0 where
  pub its_source : row.source ≡ s
  pub now_at : new ≡ some (cursor_of row id row.window_end)
  pub eligible : is_eligible row old ≡ true
  pub contiguous : is_contiguous row old ≡ true

module _ (instant : Text → Option ℕ) (reached : Bool) (id : Text) (row : Attempt) where
  abbrev pub after_advance : Verdict → List Cursor → Advance
  after_advance v cursors = advance_cursor instant reached id row v cursors

  -- The new row of the cursor.
  abbrev mine : Cursor
  mine = cursor_of row id row.window_end

  abbrev moved_cursors : List Cursor → List Cursor
  moved_cursors = upsert cursor_key row.source mine (λ c. mine)

  write_cursor-cases :
      (cursor : Option Cursor) (v : Verdict) (cursors : List Cursor)
      → ((write_cursor instant reached id row cursor v cursors).cursors ≡ cursors)
        ⊎ (((write_cursor instant reached id row cursor v cursors).cursors ≡ moved_cursors cursors)
            × ((write_cursor instant reached id row cursor v cursors).verdict ≡ v))
  unfolding write_cursor
  write_cursor-cases cursor v cursors = ground arith

  -- The block leaves the cursors alone, or every test has passed and the cursor of the source is new.
  advance-cases :
      (v : Verdict) (cursors : List Cursor)
      → ((after_advance v cursors).cursors ≡ cursors)
        ⊎ (((after_advance v cursors).cursors ≡ moved_cursors cursors)
            × ((after_advance v cursors).verdict.status ≡ complete)
            × (is_eligible row (lookup cursor_key row.source cursors) ≡ true)
            × (is_contiguous row (lookup cursor_key row.source cursors) ≡ true))
  unfolding advance_cursor
  advance-cases v cursors =
      ground (arith, write_cursor-cases (lookup cursor_key row.source cursors) v cursors)

  lookup-moved_cursors :
      (s : Text) (cursors : List Cursor)
      → lookup cursor_key s (moved_cursors cursors)
        ≡ (if row.source === s then some mine else lookup cursor_key s cursors)
  lookup-moved_cursors s cursors =
      ground
        (arith, lookup-upsert cursor_key row.source s mine (λ c. mine) cursors refl (λ c h. refl))

  -- A source's cursor stays, or moves to the end of the attempt's window. It moves only for the
  -- attempt's own source, under a COMPLETE verdict, forward, and without a gap.
  pub advance-Moved :
      (s : Text) (v : Verdict) (cursors : List Cursor)
      → (lookup cursor_key s (after_advance v cursors).cursors ≡ lookup cursor_key s cursors)
        ⊎ (Moved s id row
              (lookup cursor_key s cursors)
              (lookup cursor_key s (after_advance v cursors).cursors)
            × ((after_advance v cursors).verdict.status ≡ complete))
  advance-Moved s v cursors = elim (advance-cases v cursors) [
    | inl same ↦ inl (rw same refl)
    | inr (wrote, status, el, con) ↦ elim (Bool-cases (row.source === s)) [
      | inr f ↦ inl (rw (wrote, lookup-moved_cursors s cursors, f) refl)
      | inl t ↦
          let here : row.source ≡ s = ground arith in
          inr (
            record {
              its_source = here;
              now_at = rw (wrote, lookup-moved_cursors s cursors, t) refl;
              eligible = rw here at el;
              contiguous = rw here at con;
            },
            status,
          )
    ]
  ]
