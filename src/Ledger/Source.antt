-- ===== src/Ledger/Source.antt =====
-- Where the watermark of a source in app/source_ledger.py comes from.
use jeonghan_daily_review_bo.Prelude.{
  Text, ◌≡◌, refl, ap, ◌∙◌, ◌⊎◌, inl, inr, Bool, true, false, ◌&&◌, Option, none, some, List, [],
  ◌∷◌, any, is_empty, take, ◌===◌, arith, Bool-cases, Option-cases,
}
use jeonghan_daily_review_bo.Prelude.Table.{lookup, upsert}
use jeonghan_daily_review_bo.Handles.{norm_handle}
use jeonghan_daily_review_bo.Ledger.Rows.{
  attempting, is_complete, CursorRow, Ledger, WindowResult, checked,
}
use jeonghan_daily_review_bo.Ledger.Windows.{
  new_cursor, complete_cursor, advanced_cursor, failed_cursor, finish_cursors, start_attempt,
  finish,
}
use jeonghan_daily_review_bo.Ledger.Watermark.{Call, starts, results, step, run, through_of}

-- A result of the source that is COMPLETE and whose window ends at the time.
abbrev pub completes_with : Text → Text → Option WindowResult → Bool
completes_with h t none = false
completes_with h t (some r) = is_complete r.status && r.source_handle === h && r.window_end === t

unfoldable pub completes : (Text → Text) → Text → Text → Call → Bool
unfolding checked
completes casefold h t (starts now source start end id) = false
completes casefold h t (results now r) = completes_with h t (checked casefold r)

-- An upsert that sets the watermark of one source to `t`, or leaves it.
upsert-source :
    (k h t : Text) (fresh : CursorRow) (f : CursorRow → CursorRow) (cs : List CursorRow)
    → fresh.source_handle ≡ k
    → ((c : CursorRow) → (f c).source_handle ≡ c.source_handle)
    → fresh.complete_through ≡ t
    → ((c : CursorRow)
        → ((f c).complete_through ≡ c.complete_through) ⊎ ((f c).complete_through ≡ t))
    → (through_of h (upsert CursorRow.source_handle k fresh f cs) ≡ through_of h cs)
      ⊎ ((k ≡ h) × (through_of h (upsert CursorRow.source_handle k fresh f cs) ≡ t))
unfolding lookup upsert
upsert-source k h t fresh f [] e keep new old = ground (arith, e, new)
upsert-source k h t fresh f (x ∷ xs) e keep new old =
    ground (arith, keep x, old x, upsert-source k h t fresh f xs e keep new old)

-- A call that is no COMPLETE result of the source leaves its watermark alone.
kept-source :
    (k h : Text) (fresh : CursorRow) (f : CursorRow → CursorRow) (cs : List CursorRow)
    → fresh.source_handle ≡ k
    → ((c : CursorRow) → (f c).source_handle ≡ c.source_handle)
    → fresh.complete_through ≡ []
    → ((c : CursorRow) → (f c).complete_through ≡ c.complete_through)
    → through_of h (upsert CursorRow.source_handle k fresh f cs) ≡ through_of h cs
unfolding lookup upsert
kept-source k h fresh f [] e keep new old = ground (arith, e, new)
kept-source k h fresh f (x ∷ xs) e keep new old =
    ground (arith, keep x, old x, kept-source k h fresh f xs e keep new old)

advanced-source :
    (now : Text) (r : WindowResult) (c : CursorRow)
    → ((advanced_cursor now r c).complete_through ≡ c.complete_through)
      ⊎ ((advanced_cursor now r c).complete_through ≡ r.window_end)
unfolding advanced_cursor
advanced-source now r c = ground arith

finish-source :
    (now h : Text) (r : WindowResult) (cs : List CursorRow)
    → (through_of h (finish_cursors now r cs) ≡ through_of h cs)
      ⊎ (completes_with h (through_of h (finish_cursors now r cs)) (some r) ≡ true)
unfolding finish_cursors failed_cursor
finish-source now h r cs = elim (Bool-cases (is_complete r.status)) [
  | inr f ↦ inl (
      rw (finish_cursors, f)
        (kept-source r.source_handle h
          (new_cursor r.source_handle r.status r.attempt_id (take 160 r.error_class)
            (take 1000 r.error_summary) now)
          (failed_cursor now r) cs refl (λ c. refl) refl (λ c. refl)))
  | inl t ↦ ground (
    arith,
    t,
    upsert-source r.source_handle h r.window_end (complete_cursor now r) (advanced_cursor now r) cs
        refl (advanced-handle now r) refl (advanced-source now r),
  )
]
  where
    advanced-handle :
        (now : Text) (r : WindowResult) (c : CursorRow)
        → (advanced_cursor now r c).source_handle ≡ c.source_handle
    advanced-handle now r c = ground (advanced_cursor, arith)

module _ (casefold : Text → Text) (h : Text) where
  step-source :
      (c : Call) (l : Ledger)
      → (through_of h (step casefold c l).cursors ≡ through_of h l.cursors)
        ⊎ (completes casefold h (through_of h (step casefold c l).cursors) c ≡ true)
  unfolding step start_attempt finish completes
  step-source (starts now source start end id) l =
      elim (Bool-cases (is_empty (norm_handle casefold source))) [
        | inl t ↦ inl (rw (step, t) refl)
        | inr f ↦ inl (
            rw (step, f)
              (kept-source (norm_handle casefold source) h
                (new_cursor (norm_handle casefold source) attempting id [] [] now)
                (λ c. record c { last_status = attempting; last_attempt_id = id; updated_at = now })
                l.cursors refl (λ c. refl) refl (λ c. refl)))
      ]
  step-source (results now r) l = elim (Option-cases (checked casefold r)) [
    | inl n ↦ inl (rw (step, n) refl)
    | inr (x, e) ↦ rw (step, completes, e) (finish-source now h x l.cursors)
  ]

  -- After any calls of the ledger, the watermark of a source is the one that it had before, or the end
  -- of the window of one of the calls' results for that source that are COMPLETE.
  pub run-source :
      (cs : List Call) (l : Ledger)
      → (through_of h (run casefold cs l).cursors ≡ through_of h l.cursors)
        ⊎ (any (completes casefold h (through_of h (run casefold cs l).cursors)) cs ≡ true)
  unfolding run
  run-source [] l = inl refl
  run-source (c ∷ cs) l = elim (run-source cs (step casefold c l)) [
    | inr later ↦ inr (ground (arith, later))
    | inl same ↦ elim (step-source c l) [
      | inl first ↦ inl (same ∙ first)
      | inr here ↦ inr (ground (arith, ap (λ t. completes casefold h t c) same, here))
    ]
  ]
