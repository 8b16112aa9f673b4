-- ===== src/Telegram/Retry.antt =====
-- Calls of `send_message` of app/telegram.py with the same delivery key, one after the other.
use jeonghan_daily_review_bo.Prelude.{
  ℕ, zero, suc, Text, ◌≡◌, refl, sym, ◌∙◌, ap, Bool, true, none, some, List, [], ◌∷◌, ◌++◌,
  is_empty, arith, Option-cases, inl, inr,
}
use mathlib.Core.List.{append-nil}
use jeonghan_daily_review_bo.Prelude.Table.{lookup, insert_ignore, lookup-append}
use jeonghan_daily_review_bo.Telegram.Receipts.{
  Store, Plan, plan_key, usable, get_plan, save_plan, confirm, confirmed_message_id,
}
use jeonghan_daily_review_bo.Telegram.Split.{Split, parts}
use jeonghan_daily_review_bo.Telegram.Send.{
  Reply, Request, World, Flow, Outcome, returned, is_keyed, idle, stored_plan, planned, pause,
  send_parts, send_message, confirmed_part,
}
use jeonghan_daily_review_bo.Telegram.Noted.{bodies}
use jeonghan_daily_review_bo.Telegram.Resume.{
  unconfirmed, Run, ledger, send_part-cases, after_confirmed, after_stop, after_taken,
  send_parts-conserves, send_parts-confirms, pause-keeps, unconfirmed-eq,
}

get_plan-save_plan :
    (hash : Text → Text) (s : Store) (key full p : Text) (ps : List Text)
    → lookup plan_key key s.plans ≡ none
    → usable (p ∷ ps) ≡ true
    → get_plan (save_plan hash s key full (p ∷ ps)) key ≡ some (p ∷ ps)
unfolding get_plan save_plan insert_ignore lookup
get_plan-save_plan hash s key full p ps fresh good =
    let row : Plan = record {
      delivery_key = key;
      source_sha256 = hash full;
      full_text = full;
      parts = p ∷ ps;
    } in
    ground (arith, lookup-append plan_key key s.plans (row ∷ []))

confirm-plans :
    (hash : Text → Text) (s : Store) (key : Text) (index : ℕ) (content : Text) (id : ℕ)
    → (confirm hash s key index content id).plans ≡ s.plans
unfolding confirm
confirm-plans hash s key index content id = refl

module _ (hash : Text → Text) (durable : Bool) (q : Request)
    (keyed : is_keyed durable q ≡ true) where
  -- A plan that is saved is read back.
  stored_plan-planned :
      (w : World) (p : Text) (ps : List Text)
      → lookup plan_key q.delivery_key w.store.plans ≡ none
      → usable (p ∷ ps) ≡ true
      → stored_plan hash durable q (planned hash durable q (p ∷ ps) w).store ≡ some (p ∷ ps)
  stored_plan-planned w p ps fresh good =
      ground (arith, keyed, get_plan-save_plan hash w.store q.delivery_key q.text p ps)

  module _ (api : ℕ → Reply) where
    send_parts-plans :
        (index : ℕ) (ps : List Text) (f : Flow) (last : ℕ) (w : World)
        → (send_parts hash api durable q index ps f last w).0.store.plans ≡ w.store.plans
    unfolding send_parts
    send_parts-plans index [] f last w = refl
    send_parts-plans index (part ∷ rest) f last w =
        elim (Option-cases (confirmed_part hash durable q w.store index part)) [
          | inr (id, c) ↦
              rw (after_confirmed hash durable q keyed api index part rest f last w id c)
                (send_parts-plans (suc index) rest f id w)
          | inl c ↦ elim (send_part-cases hash api durable q index (is_empty rest) part f w) [
            | inl (w', e, stop, same, _) ↦
                rw (after_stop hash durable q keyed api index part rest f last w w' e c stop, same)
                  refl
            | inr (markup, n, id, f', go) ↦
                rw (after_taken hash durable q keyed api index part rest f last w _ f' id c go) (
                  send_parts-plans (suc index) rest f' id _
                  ∙ ground (
                    arith,
                    keyed,
                    pause-keeps q f w,
                    confirm-plans hash (pause q f w).store q.delivery_key index part id,
                  ))
          ]
        ]

    module _ (split : Text → Split) where
      abbrev Send : World → World × Outcome
      Send = send_message hash api durable q split

      send_planned :
          (w : World) (p : Text) (ps : List Text)
          → stored_plan hash durable q w.store ≡ some (p ∷ ps)
          → Send w ≡ Run hash durable q keyed api 0 (p ∷ ps) idle 0 w
      unfolding send_message
      send_planned w p ps h = rw (h, send_message) refl

      send_first :
          (w : World) (p : Text) (ps : List Text)
          → lookup plan_key q.delivery_key w.store.plans ≡ none
          → split q.text ≡ parts (p ∷ ps)
          → Send w
            ≡ Run hash durable q keyed api 0 (p ∷ ps) idle 0 (planned hash durable q (p ∷ ps) w)
      unfolding send_message get_plan
      send_first w p ps fresh cut =
          let none_yet : stored_plan hash durable q w.store ≡ none = ground (arith, keyed) in
          rw (none_yet, send_message, cut) refl

      stored_plan-keeps :
          (s t : Store)
          → t.plans ≡ s.plans
          → stored_plan hash durable q t ≡ stored_plan hash durable q s
      unfolding get_plan
      stored_plan-keeps s t h = rw h refl

      ledger-planned :
          (w : World) (p : Text) (ps : List Text)
          → ledger hash durable q keyed api 0 (p ∷ ps) (planned hash durable q (p ∷ ps) w)
            ≡ ledger hash durable q keyed api 0 (p ∷ ps) w
      unfolding save_plan confirmed_message_id
      ledger-planned w p ps = rw (keyed) (
          ap (◌++◌ (bodies w.events))
            (unconfirmed-eq hash durable q _ w.store 0 (p ∷ ps) (λ j p' le. refl)))

      -- Any number of calls, each of which may return or raise.
      unfoldable pub resend : ℕ → World → World
      resend zero w = w
      resend (suc n) w = resend n (Send w).0

      resend-ledger :
          (n : ℕ) (w : World) (p : Text) (ps : List Text)
          → stored_plan hash durable q w.store ≡ some (p ∷ ps)
          → (stored_plan hash durable q (resend n w).store ≡ some (p ∷ ps))
            × (ledger hash durable q keyed api 0 (p ∷ ps) (resend n w)
                ≡ ledger hash durable q keyed api 0 (p ∷ ps) w)
      unfolding resend
      resend-ledger zero w p ps h = (h, refl)
      resend-ledger (suc n) w p ps h =
          let same = send_planned w p ps h in
          let kept : stored_plan hash durable q (Send w).0.store ≡ some (p ∷ ps) =
            stored_plan-keeps w.store (Send w).0.store
              (rw same (send_parts-plans 0 (p ∷ ps) idle 0 w))
            ∙ h in
          let ih = resend-ledger n (Send w).0 p ps kept in
          (ih.0, ih.1 ∙ rw same (send_parts-conserves hash durable q keyed api 0 (p ∷ ps) idle 0 w))

      resend-planned :
          (n : ℕ) (w : World) (p : Text) (ps : List Text) (id : ℕ)
          → stored_plan hash durable q w.store ≡ some (p ∷ ps)
          → (Send (resend n w)).1 ≡ returned id
          → bodies (Send (resend n w)).0.events
            ≡ bodies w.events ++ unconfirmed hash durable q w.store 0 (p ∷ ps)
      resend-planned n w p ps id h done =
          let before = resend-ledger n w p ps h in
          let same = send_planned (resend n w) p ps before.0 in
          let all_confirmed =
            send_parts-confirms hash durable q keyed api 0 (p ∷ ps) idle 0 (resend n w) id
              (rw same at done) in
          let whole =
            send_parts-conserves hash durable q keyed api 0 (p ∷ ps) idle 0 (resend n w)
            ∙ before.1 in
          rw same (sym (append-nil _) ∙ (rw all_confirmed at whole))

      first-ledger :
          (w : World) (p : Text) (ps : List Text)
          → lookup plan_key q.delivery_key w.store.plans ≡ none
          → split q.text ≡ parts (p ∷ ps)
          → ledger hash durable q keyed api 0 (p ∷ ps) (Send w).0
            ≡ ledger hash durable q keyed api 0 (p ∷ ps) w
      first-ledger w p ps fresh cut = rw (send_first w p ps fresh cut) (
          send_parts-conserves hash durable q keyed api 0 (p ∷ ps) idle 0
            (planned hash durable q (p ∷ ps) w)
          ∙ ledger-planned w p ps)

      first-plan :
          (w : World) (p : Text) (ps : List Text)
          → lookup plan_key q.delivery_key w.store.plans ≡ none
          → usable (p ∷ ps) ≡ true
          → split q.text ≡ parts (p ∷ ps)
          → stored_plan hash durable q (Send w).0.store ≡ some (p ∷ ps)
      first-plan w p ps fresh good cut =
          stored_plan-keeps (planned hash durable q (p ∷ ps) w).store (Send w).0.store (
            rw (send_first w p ps fresh cut)
              (send_parts-plans 0 (p ∷ ps) idle 0 (planned hash durable q (p ∷ ps) w)))
          ∙ stored_plan-planned w p ps fresh good

      -- When one of the calls of a delivery returns, the messages that were noted as posted are, once
      -- each and in order, the parts that had no receipt.
      pub resend-bodies :
          (n : ℕ) (w : World) (p : Text) (ps : List Text) (id : ℕ)
          → lookup plan_key q.delivery_key w.store.plans ≡ none
          → usable (p ∷ ps) ≡ true
          → split q.text ≡ parts (p ∷ ps)
          → (Send (resend n w)).1 ≡ returned id
          → bodies (Send (resend n w)).0.events
            ≡ bodies w.events ++ unconfirmed hash durable q w.store 0 (p ∷ ps)
      unfolding resend
      resend-bodies zero w p ps id fresh good cut done =
          let same = send_first w p ps fresh cut in
          let all_confirmed =
            send_parts-confirms hash durable q keyed api 0 (p ∷ ps) idle 0
              (planned hash durable q (p ∷ ps) w) id (rw same at done) in
          let whole = rw same at (first-ledger w p ps fresh cut) in
          rw same (sym (append-nil _) ∙ (rw all_confirmed at whole))
      resend-bodies (suc n) w p ps id fresh good cut done =
          resend-planned n (Send w).0 p ps id (first-plan w p ps fresh good cut) done
          ∙ first-ledger w p ps fresh cut
