-- ===== src/Inbox/Decided.antt =====
-- The decision on a draft, through any calls of app/review_inbox.py.
use jeonghan_daily_review_bo.Prelude.{
  Text, ◌===◌, ◌≡◌, refl, ap, ◌∙◌, inl, inr, ◌&&◌, Option, Option-cases, Bool-cases, some, List, [],
  ◌∷◌, update_where, arith, if◌then◌else◌,
}
use jeonghan_daily_review_bo.Prelude.Table.{lookup, lookup-update_where, lookup-key}
use jeonghan_daily_review_bo.Models.{Update, Draft}
use jeonghan_daily_review_bo.State.Rows.{Payload}
use jeonghan_daily_review_bo.Inbox.Store.{
  Item, is_valid, upsert_item, has_draft, set_status, sync_from_state,
}
use jeonghan_daily_review_bo.Inbox.Synced.{
  status_in, status_of, upsert_item-status, sync_from-status,
}

-- A call of the inbox.
pub data Call : Type 0 where
  upserted : Draft → Option Update → Text → Text → Call
  decided : Text → Text → Text → Call
  synced : (Text → Option Payload) → List (Option Draft) → Text → Call

unfoldable pub step : Call → List Item → List Item
unfolding upsert_item set_status sync_from_state
step (upserted a u status now) xs = upsert_item a u status now xs
step (decided id status now) xs = (set_status id status now xs).1
step (synced archive drafts now) xs = (sync_from_state archive now drafts xs).1

unfoldable pub run : List Call → List Item → List Item
unfolding step
run [] xs = xs
run (c ∷ cs) xs = run cs (step c xs)

-- The decision on a draft after a call: the last valid `set_status`.
unfoldable pub decision_after : Text → Text → List Call → Text
decision_after k s [] = s
decision_after k s (upserted a u status now ∷ cs) = decision_after k s cs
decision_after k s (decided id status now ∷ cs) =
    decision_after k (if id === k && is_valid status then status else s) cs
decision_after k s (synced archive drafts now ∷ cs) = decision_after k s cs

set_status-status :
    (id status now k s : Text) (xs : List Item)
    → status_of k xs ≡ some s
    → status_of k (set_status id status now xs).1
      ≡ some (if id === k && is_valid status then status else s)
unfolding set_status
set_status-status id status now k s xs h = elim (Bool-cases (is_valid status)) [
  | inl t ↦
      let whole =
        lookup-update_where Item.draft_id (has_draft id)
          (λ x. record x { status = status; updated_at = now }) (λ x i. x.draft_id) k xs in
      elim (Option-cases (lookup Item.draft_id k xs)) [
        | inl n ↦ absurd (ground (arith, n, h))
        | inr (x, e) ↦
            let key = lookup-key Item.draft_id k xs x e in
            let same : x.status ≡ s = ground (arith, h, e) in
            let changed : (set_status id status now xs).1
                ≡ update_where (has_draft id) (λ y. record y { status = status; updated_at = now })
                    xs =
              rw t refl in
            ap (λ zs. status_of k zs) changed
            ∙ ap status_in whole
            ∙ rw e (ground (arith, t, key, same))
      ]
  | inr f ↦
      let left_alone : (set_status id status now xs).1 ≡ xs = rw f refl in
      ap (λ zs. status_of k zs) left_alone ∙ h ∙ rw f (ground arith)
]

-- The status of a draft that has a row is, after any calls of the inbox, the last valid one that
-- `set_status` gave it, or else the one that it had.
pub run-decision :
    (k : Text) (calls : List Call) (s : Text) (xs : List Item)
    → status_of k xs ≡ some s
    → status_of k (run calls xs) ≡ some (decision_after k s calls)
unfolding run step decision_after sync_from_state
run-decision k [] s xs h = h
run-decision k (upserted a u status now ∷ cs) s xs h =
    run-decision k cs s (upsert_item a u status now xs) (upsert_item-status a u status now k s xs h)
run-decision k (decided id status now ∷ cs) s xs h =
    run-decision k cs _ (set_status id status now xs).1 (set_status-status id status now k s xs h)
run-decision k (synced archive drafts now ∷ cs) s xs h =
    run-decision k cs s _ (sync_from-status archive now k s drafts 0 xs h)
