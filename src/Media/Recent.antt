-- ===== src/Media/Recent.antt =====
-- A delivered medium is known for as long as its receipt is in the window, app/media_delivery.py.
use jeonghan_daily_review_bo.Prelude.{
  ℕ, ◌-◌, ◌*◌, ◌≤◌, max, Text, ◌===◌, text_le, text_le_trans, text_dec, ◌≡◌, sym, ap, ◌∙◌, subst,
  Bool, true, ◌&&◌, List, [], ◌∷◌, any, all, leb, leb→le, arith,
}
use jeonghan_daily_review_bo.Prelude.Table.{upsert}
use jeonghan_daily_review_bo.Media.Ledger.{
  Receipt, has_text, named, any_recent, mark_one, mark_all, mark_delivered, prune, max_age,
  microseconds_per_hour,
}

-- A call that writes, with its moment.
pub data Call : Type 0 where
  marked : List Text → Text → Text → ℕ → Call
  pruned : ℕ → Call

-- A call that comes at `t` or after, and that prunes only what is older than `t`.
abbrev pub is_timely : ℕ → Call → Bool
is_timely t (marked identities kind update_id now) = leb t now
is_timely t (pruned now) = leb (now - max_age) t

module _ (iso : ℕ → Text) where
  unfoldable pub step : Call → List Receipt → List Receipt
  unfolding mark_delivered prune
  step (marked identities kind update_id now) rows =
      mark_delivered iso identities kind update_id now rows
  step (pruned now) rows = prune iso now rows

  unfoldable pub run : List Call → List Receipt → List Receipt
  unfolding step
  run [] rows = rows
  run (c ∷ cs) rows = run cs (step c rows)

  -- There is a receipt of the identity from `t` or after.
  abbrev is_known : Text → ℕ → List Receipt → Bool
  is_known k t = any (λ r. r.identity === k && text_le (iso t) r.delivered_at)

  module _ (in_order : (a b : ℕ) → a ≤ b → text_le (iso a) (iso b) ≡ true) (k : Text) (t : ℕ) where
    mark_one-known :
        (kind update_id : Text) (now : ℕ) (j : Text) (rows : List Receipt)
        → t ≤ now
        → is_known k t rows ≡ true
        → is_known k t (mark_one iso kind update_id now j rows) ≡ true
    unfolding upsert
    mark_one-known kind update_id now j [] late h = absurd (ground arith)
    mark_one-known kind update_id now j (r ∷ rows) late h =
        ground (arith, in_order t now late, mark_one-known kind update_id now j rows late)

    mark_one_self :
        (kind update_id : Text) (now : ℕ) (rows : List Receipt)
        → t ≤ now
        → is_known k t (mark_one iso kind update_id now k rows) ≡ true
    unfolding upsert
    mark_one_self kind update_id now [] late = ground (arith, in_order t now late)
    mark_one_self kind update_id now (r ∷ rows) late =
        ground (arith, in_order t now late, mark_one_self kind update_id now rows late)

    mark_all-known :
        (kind update_id : Text) (now : ℕ) (ks : List Text) (rows : List Receipt)
        → t ≤ now
        → is_known k t rows ≡ true
        → is_known k t (mark_all iso kind update_id now ks rows) ≡ true
    unfolding upsert
    mark_all-known kind update_id now [] rows late h = h
    mark_all-known kind update_id now (j ∷ ks) rows late h =
        mark_all-known kind update_id now ks (mark_one iso kind update_id now j rows) late
          (mark_one-known kind update_id now j rows late h)

    mark_all_self :
        (kind update_id : Text) (now : ℕ) (ks : List Text) (rows : List Receipt)
        → t ≤ now
        → has_text k ks ≡ true
        → is_known k t (mark_all iso kind update_id now ks rows) ≡ true
    unfolding upsert
    mark_all_self kind update_id now [] rows late h = absurd (ground arith)
    mark_all_self kind update_id now (j ∷ ks) rows late h = elim (text_dec j k) [
      | yes e ↦ mark_all-known kind update_id now ks (mark_one iso kind update_id now j rows) late (
          subst (λ i. is_known k t (mark_one iso kind update_id now i rows) ≡ true) (sym e)
            (mark_one_self kind update_id now rows late))
      | no n ↦
          mark_all_self kind update_id now ks (mark_one iso kind update_id now j rows) late
            (ground arith)
    ]

    prune-known :
        (now : ℕ) (rows : List Receipt)
        → now - max_age ≤ t
        → is_known k t rows ≡ true
        → is_known k t (prune iso now rows) ≡ true
    unfolding prune
    prune-known now [] early h = absurd (ground arith)
    prune-known now (r ∷ rows) early h = ground (
      arith,
      in_order (now - max_age) t early,
      text_le_trans (iso (now - max_age)) (iso t) r.delivered_at,
      prune-known now rows early,
    )

    step-known :
        (c : Call) (rows : List Receipt)
        → is_timely t c ≡ true
        → is_known k t rows ≡ true
        → is_known k t (step c rows) ≡ true
    unfolding step mark_delivered
    step-known (marked identities kind update_id now) rows timely h =
        mark_all-known kind update_id now (named identities) rows (leb→le t now timely) h
    step-known (pruned now) rows timely h = prune-known now rows (leb→le _ t timely) h

    run-known :
        (cs : List Call) (rows : List Receipt)
        → all (is_timely t) cs ≡ true
        → is_known k t rows ≡ true
        → is_known k t (run cs rows) ≡ true
    unfolding run
    run-known [] rows timely h = h
    run-known (c ∷ cs) rows timely h =
        run-known cs (step c rows) (ground arith) (step-known c rows (ground arith) h)

    known-recent :
        (hours : ℕ) (identities : List Text) (now : ℕ) (rows : List Receipt)
        → now - max 1 hours * microseconds_per_hour ≤ t
        → has_text k (named identities) ≡ true
        → is_known k t rows ≡ true
        → any_recent iso hours identities now rows ≡ true
    unfolding any_recent
    known-recent hours identities now [] early mine h = absurd (ground arith)
    known-recent hours identities now (r ∷ rows) early mine h = elim (text_dec r.identity k) [
      | yes e ↦
          let asked : has_text r.identity (named identities) ≡ true =
            ap (λ j. has_text j (named identities)) e ∙ mine in
          let cutoff = now - max 1 hours * microseconds_per_hour in
          ground (
            arith,
            asked,
            in_order cutoff t early,
            text_le_trans (iso cutoff) (iso t) r.delivered_at,
            known-recent hours identities now rows early mine,
          )
      | no n ↦ ground (arith, known-recent hours identities now rows early mine)
    ]

    -- Let `isoformat` keep the order of moments. A medium that was delivered under an identity is
    -- recent under any list of identities that has that one, until the window since its delivery is
    -- over, whatever was delivered since and however often the receipts were pruned, as long as no
    -- prune takes receipts that are as young as this one.
    pub delivered-recent :
        (identities later : List Text) (kind update_id : Text) (cs : List Call) (hours now : ℕ)
        → (rows : List Receipt) → has_text k (named identities) ≡ true
        → has_text k (named later) ≡ true
        → all (is_timely t) cs ≡ true
        → now - max 1 hours * microseconds_per_hour ≤ t
        → any_recent iso hours later now
            (run cs (mark_delivered iso identities kind update_id t rows))
          ≡ true
    unfolding mark_delivered
    delivered-recent identities later kind update_id cs hours now rows mine known timely early =
        known-recent hours later now _ early known (
          run-known cs (mark_delivered iso identities kind update_id t rows) timely
            (mark_all_self kind update_id t (named identities) rows (omega arith) mine))
