-- ===== src/Ledger/Watermark.antt =====
-- The watermark of a source in app/source_ledger.py over any calls of the ledger.
use jeonghan_daily_review_bo.Prelude.{
  Text, ◌≡◌, refl, inl, inr, true, Option, none, some, List, [], ◌∷◌, is_empty, take, text_le,
  text_le_refl, text_le_trans, text_le_total, arith, Bool-cases, Option-cases,
}
use jeonghan_daily_review_bo.Prelude.Table.{lookup, upsert}
use jeonghan_daily_review_bo.Handles.{norm_handle}
use jeonghan_daily_review_bo.Ledger.Rows.{
  attempting, is_complete, CursorRow, Ledger, WindowResult, checked,
}
use jeonghan_daily_review_bo.Ledger.Windows.{
  new_cursor, complete_cursor, advanced_cursor, failed_cursor, finish_cursors, start_attempt,
  finish,
}

-- A call: an attempt that starts, or a result, which its constructor may refuse.
pub data Call : Type 0 where
  starts : Text → Text → Text → Text → Text → Call
  results : Text → WindowResult → Call

abbrev pub or_unchanged {ℓ} : {A : Type ℓ} → (A → Ledger) → Ledger → Option A → Ledger
or_unchanged f l none = l
or_unchanged f l (some a) = f a

module _ (casefold : Text → Text) where
  unfoldable pub step : Call → Ledger → Ledger
  step (starts now source start end id) l =
      or_unchanged (λ x. x) l (start_attempt casefold now source start end id l)
  step (results now r) l = or_unchanged (λ x. finish now x l) l (checked casefold r)

  unfoldable pub run : List Call → Ledger → Ledger
  unfolding step
  run [] l = l
  run (c ∷ cs) l = run cs (step c l)

-- The watermark of a source, empty where it has none.
abbrev pub through_of : Text → List CursorRow → Text
through_of h cs = elim (lookup CursorRow.source_handle h cs) [
  | none ↦ []
  | some c ↦ c.complete_through
]

empty_le : (a b : Text) → is_empty a ≡ true → text_le a b ≡ true
unfolding text_le
empty_le [] b h = refl
empty_le (x ∷ a) b h = absurd (ground arith)

advanced-forward :
    (now : Text) (r : WindowResult) (c : CursorRow)
    → text_le c.complete_through (advanced_cursor now r c).complete_through ≡ true
unfolding advanced_cursor
advanced-forward now r c = elim (Bool-cases (is_empty c.complete_through)) [
  | inl e ↦ empty_le c.complete_through (advanced_cursor now r c).complete_through e
  | inr f ↦
      ground
        (arith, f, text_le_refl c.complete_through, text_le_total r.window_end c.complete_through)
]

-- An upsert whose rewrite moves a watermark forward moves every source's watermark forward.
upsert-forward :
    (k h : Text) (fresh : CursorRow) (f : CursorRow → CursorRow) (cs : List CursorRow)
    → fresh.source_handle ≡ k
    → ((c : CursorRow) → (f c).source_handle ≡ c.source_handle)
    → ((c : CursorRow) → text_le c.complete_through (f c).complete_through ≡ true)
    → text_le (through_of h cs) (through_of h (upsert CursorRow.source_handle k fresh f cs)) ≡ true
unfolding lookup upsert text_le
upsert-forward k h fresh f [] e keep forward = refl
upsert-forward k h fresh f (x ∷ xs) e keep forward = ground (
  arith,
  keep x,
  forward x,
  text_le_refl x.complete_through,
  text_le_refl (through_of h xs),
  upsert-forward k h fresh f xs e keep forward,
)

finish-forward :
    (now h : Text) (r : WindowResult) (cs : List CursorRow)
    → text_le (through_of h cs) (through_of h (finish_cursors now r cs)) ≡ true
unfolding finish_cursors failed_cursor advanced_cursor
finish-forward now h r cs = elim (Bool-cases (is_complete r.status)) [
  | inl t ↦
      rw (finish_cursors, t)
        (upsert-forward r.source_handle h (complete_cursor now r) (advanced_cursor now r) cs refl
          (λ c. refl) (advanced-forward now r))
  | inr f ↦
      rw (finish_cursors, f)
        (upsert-forward r.source_handle h
          (new_cursor r.source_handle r.status r.attempt_id (take 160 r.error_class)
            (take 1000 r.error_summary) now)
          (failed_cursor now r) cs refl (λ c. refl) (λ c. text_le_refl c.complete_through))
]

module _ (casefold : Text → Text) (h : Text) where
  step-forward :
      (c : Call) (l : Ledger)
      → text_le (through_of h l.cursors) (through_of h (step casefold c l).cursors) ≡ true
  unfolding step start_attempt finish
  step-forward (starts now source start end id) l =
      elim (Bool-cases (is_empty (norm_handle casefold source))) [
        | inl t ↦ rw (step, t) (text_le_refl (through_of h l.cursors))
        | inr f ↦
            rw (step, f)
              (upsert-forward (norm_handle casefold source) h
                (new_cursor (norm_handle casefold source) attempting id [] [] now)
                (λ c. record c { last_status = attempting; last_attempt_id = id; updated_at = now })
                l.cursors refl (λ c. refl) (λ c. text_le_refl c.complete_through))
      ]
  step-forward (results now r) l = elim (Option-cases (checked casefold r)) [
    | inl n ↦ rw (step, n) (text_le_refl (through_of h l.cursors))
    | inr (x, e) ↦ rw (step, e) (finish-forward now h x l.cursors)
  ]

  -- Over any calls of the ledger the watermark of a source never goes back in the order of its text.
  pub run-forward :
      (cs : List Call) (l : Ledger)
      → text_le (through_of h l.cursors) (through_of h (run casefold cs l).cursors) ≡ true
  unfolding run
  run-forward [] l = text_le_refl (through_of h l.cursors)
  run-forward (c ∷ cs) l =
      text_le_trans (through_of h l.cursors) (through_of h (step casefold c l).cursors)
        (through_of h (run casefold (c ∷ cs) l).cursors) (step-forward c l)
        (run-forward cs (step casefold c l))
