-- ===== src/Telegram/Lost.antt =====
-- A delivery of app/telegram.py that is tried again posts every part, and repeats only what was lost.
use jeonghan_daily_review_bo.Prelude.{
  ℕ, zero, suc, Text, ◌≡◌, refl, sym, ◌∙◌, subst, Bool, true, Option, none, List, [], ◌∷◌, ◌++◌,
  is_empty, arith, Option-cases, inl, inr, not, ◌&&◌, Bool-cases,
}
use jeonghan_daily_review_bo.Prelude.Table.{lookup}
use jeonghan_daily_review_bo.Telegram.Receipts.{plan_key, usable}
use jeonghan_daily_review_bo.Telegram.Split.{Split, parts, too_long, out_of_fuel}
use jeonghan_daily_review_bo.Telegram.Send.{
  Reply, delivered, failed, cut_off, paused, posted, unnoted_times, Markup, encoded, not_encoded,
  Request, World, Flow, Sent, next, stopped, Outcome, returned, is_keyed, idle, confirmed_part,
  stored_plan, planned, pause, markup_of, message_of, after_part, send_part, send_parts, send_plan,
  send_message,
}
use jeonghan_daily_review_bo.Telegram.Posts.{
  posts, repeats, IsMerge, posts-IsMerge, length-repeats, length-unnoted, add_zero, length-lost,
  lost, IsAccounted, account,
}
use jeonghan_daily_review_bo.Telegram.Noted.{bodies}
use jeonghan_daily_review_bo.Telegram.Resume.{unconfirmed}
use jeonghan_daily_review_bo.Telegram.Retry.{resend, resend-bodies}

module _ (hash : Text → Text) (api : ℕ → Reply) (durable : Bool) (q : Request) where
  pause-IsAccounted : (f : Flow) (w : World) → IsAccounted api w → IsAccounted api (pause q f w)
  pause-IsAccounted f w h =
      elim (Bool-cases (f.sent_network_part && not f.rate_limited && q.pacing)) [
        | inr e ↦ rw e h
        | inl e ↦ rw e (omega (arith, length-repeats w.events (paused ∷ []), h))
      ]

  pause-calls : (f : Flow) (w : World) → (pause q f w).calls ≡ w.calls
  pause-calls f w = elim (Bool-cases (f.sent_network_part && not f.rate_limited && q.pacing)) [
    | inr e ↦ rw e refl
    | inl e ↦ rw e refl
  ]

  send_part-IsAccounted :
      (index : ℕ) (is_final : Bool) (part : Text) (f : Flow) (w : World)
      → IsAccounted api w
      → IsAccounted api (send_part hash api durable q index is_final part f w).0
  unfolding send_part
  send_part-IsAccounted index is_final part f w h = with_markup (markup_of q is_final) refl
    where
      before : IsAccounted api (pause q f w)
      before = pause-IsAccounted f w h

      lost_now : (r : Reply) → api w.calls ≡ r → lost (api (pause q f w).calls) ≡ lost r
      lost_now r a = rw (pause-calls f w, a) refl

      with_reply :
          (markup : Option Text) (r : Reply)
          → markup_of q is_final ≡ encoded markup
          → api w.calls ≡ r
          → IsAccounted api (send_part hash api durable q index is_final part f w).0
      with_reply markup (failed n e) m a =
          rw (m, a, send_part)
            (account api (pause q f w) (unnoted_times n (message_of q part markup)) before
              (length-lost n (message_of q part markup) ∙ sym (lost_now (failed n e) a)))
      with_reply markup (cut_off n e) m a =
          rw (m, a, send_part)
            (account api (pause q f w) (unnoted_times (suc n) (message_of q part markup)) before
              (length-lost (suc n) (message_of q part markup) ∙ sym (lost_now (cut_off n e) a)))
      with_reply markup (delivered n id limited) m a =
          rw (m, a, send_part)
            (account api (pause q f w)
              (unnoted_times n (message_of q part markup) ++ posted (message_of q part markup) ∷ [])
              before
              (length-unnoted n (message_of q part markup) (posted (message_of q part markup) ∷ [])
                ∙ add_zero n
                ∙ sym (lost_now (delivered n id limited) a)))

      with_markup :
          (m : Markup)
          → markup_of q is_final ≡ m
          → IsAccounted api (send_part hash api durable q index is_final part f w).0
      with_markup (not_encoded e) m = rw (m, send_part) before
      with_markup (encoded markup) m = with_reply markup (api w.calls) m refl

  after_part-IsAccounted :
      (k : Flow → ℕ → World → World × Outcome) (r : World × Sent)
      → ((f : Flow) (id : ℕ) (w : World) → IsAccounted api w → IsAccounted api (k f id w).0)
      → IsAccounted api r.0
      → IsAccounted api (after_part k r).0
  after_part-IsAccounted k (w, stopped e) keep h = h
  after_part-IsAccounted k (w, next f id) keep h = keep f id w h

  send_parts-IsAccounted :
      (index : ℕ) (ps : List Text) (f : Flow) (last : ℕ) (w : World)
      → IsAccounted api w
      → IsAccounted api (send_parts hash api durable q index ps f last w).0
  unfolding send_parts
  send_parts-IsAccounted index [] f last w h = h
  send_parts-IsAccounted index (part ∷ rest) f last w h =
      elim (Option-cases (confirmed_part hash durable q w.store index part)) [
        | inr (id, c) ↦ rw (c, send_parts) (send_parts-IsAccounted (suc index) rest f id w h)
        | inl c ↦
            rw (c, send_parts)
              (after_part-IsAccounted (send_parts hash api durable q (suc index) rest)
                (send_part hash api durable q index (is_empty rest) part f w)
                (send_parts-IsAccounted (suc index) rest)
                (send_part-IsAccounted index (is_empty rest) part f w h))
      ]

  planned-IsAccounted :
      (ps : List Text) (w : World)
      → IsAccounted api w
      → IsAccounted api (planned hash durable q ps w)
  planned-IsAccounted ps w h = elim (Bool-cases (is_keyed durable q && not (is_empty ps))) [
    | inl e ↦ rw e h
    | inr e ↦ rw e h
  ]

  send_plan-IsAccounted :
      (ps : List Text) (w : World)
      → IsAccounted api w
      → IsAccounted api (send_plan hash api durable q ps w).0
  send_plan-IsAccounted [] w h = h
  send_plan-IsAccounted (p ∷ ps) w h = send_parts-IsAccounted 0 (p ∷ ps) idle 0 w h

  send_message-IsAccounted :
      (split : Text → Split) (w : World)
      → IsAccounted api w
      → IsAccounted api (send_message hash api durable q split w).0
  unfolding send_message
  send_message-IsAccounted split w h = elim (Option-cases (stored_plan hash durable q w.store)) [
    | inr (ps, e) ↦ rw (e, send_message) (send_plan-IsAccounted ps w h)
    | inl e ↦ with_split (split q.text) refl e
  ]
    where
      with_split :
          (s : Split)
          → split q.text ≡ s
          → stored_plan hash durable q w.store ≡ none
          → IsAccounted api (send_message hash api durable q split w).0
      with_split (parts ps) s e =
          rw (e, send_message, s)
            (send_plan-IsAccounted ps (planned hash durable q ps w) (planned-IsAccounted ps w h))
      with_split too_long s e = rw (e, send_message, s) h
      with_split out_of_fuel s e = rw (e, send_message, s) h

module _ (hash : Text → Text) (durable : Bool) (q : Request) (keyed : is_keyed durable q ≡ true)
    (api : ℕ → Reply) (split : Text → Split) where
  -- A call after so many calls.
  abbrev pub last_call : ℕ → World → World × Outcome
  last_call n w = send_message hash api durable q split (resend hash durable q keyed api split n w)

  resend-IsAccounted :
      (n : ℕ) (w : World)
      → IsAccounted api w
      → IsAccounted api (resend hash durable q keyed api split n w)
  unfolding resend
  resend-IsAccounted zero w h = h
  resend-IsAccounted (suc n) w h =
      resend-IsAccounted n (send_message hash api durable q split w).0
        (send_message-IsAccounted hash api durable q split w h)

  -- A message with a delivery key, a durable store and no stored plan is split into parts, none of them
  -- empty, and sent by any number of calls. Each may raise, and of each Telegram may take messages whose
  -- answer is lost, or whose receipt is not stored since the call ends before; such losses before the
  -- first of the calls are counted too. When a call returns, what Telegram has taken is a merge of two
  -- lists: the parts that had no receipt at the beginning, each once and in order, after what had been
  -- noted by then; and the repeats, as many as the messages that were lost in this way.
  pub resend-IsMerge :
      (n : ℕ) (w : World) (p : Text) (ps : List Text) (id : ℕ)
      → lookup plan_key q.delivery_key w.store.plans ≡ none
      → usable (p ∷ ps) ≡ true
      → split q.text ≡ parts (p ∷ ps)
      → IsAccounted api w
      → (last_call n w).1 ≡ returned id
      → IsMerge
          (bodies w.events ++ unconfirmed hash durable q w.store 0 (p ∷ ps))
          (repeats (last_call n w).0.events)
          (posts (last_call n w).0.events)
        × IsAccounted api (last_call n w).0
  resend-IsMerge n w p ps id fresh good cut counted done =
      let end = last_call n w in
      (
        subst (λ xs. IsMerge xs (repeats end.0.events) (posts end.0.events))
            (resend-bodies hash durable q keyed api split n w p ps id fresh good cut done)
            (posts-IsMerge end.0.events),
        send_message-IsAccounted hash api durable q split
            (resend hash durable q keyed api split n w) (resend-IsAccounted n w counted),
      )
