-- ===== src/Review/Moves.antt =====
-- `defer`, `resume`, `begin_retry` and `finish_retry` of app/source_first_queue.py keep the focus of
-- a round.
use jeonghan_daily_review_bo.Prelude.{
  suc, Text, ◌≡◌, refl, sym, ap, inl, inr, Bool, true, false, some, List, [], take, ◌===◌, text_dec,
  ltb, if◌then◌else◌, All-rewrite, any-update_where, arith, Bool-cases, Option-cases,
}
use jeonghan_daily_review_bo.Prelude.Table.{lookup, lookup-key, All-lookup}
use jeonghan_daily_review_bo.Review.Rounds.{
  Draft, LaneState, pending, active, deferred, complete, is_active, is_deferred, with_state,
  running, success, failed, Lane, Round, pending_of,
}
use jeonghan_daily_review_bo.Review.Queue.{
  on_lane, without_focus, put_off, defer_round, rejoin, resume_round, begin_retry_round,
  finish_retry_round,
}
use jeonghan_daily_review_bo.Review.Focus.{IsTrue, IsFocused, not_empty, activate_next-IsFocused}

module _ (casefold : Text → Text) where
  -- A rewrite of one source's lanes that keeps what the focus says of them.
  on_lane-IsFocused :
      (s : Text) (f : Lane → Lane) (r : Round)
      → ((l : Lane) → (f l).source ≡ l.source)
      → ((l : Lane)
          → IsTrue casefold r.active_source l
          → (l.source === s) ≡ true
          → IsTrue casefold r.active_source (f l))
      → IsFocused casefold r
      → IsFocused casefold (on_lane s f r)
  on_lane-IsFocused s f r keep good h = record {
    true_lanes =
        All-rewrite (IsTrue casefold r.active_source) (IsTrue casefold r.active_source)
          (λ l. l.source === s) f r.lanes good (λ l t n. t) h.true_lanes;
    has_active =
        rw
          (any-update_where (λ l. l.source === r.active_source) (λ l. l.source === s) f r.lanes
            (λ l. ap (λ x. x === r.active_source) (keep l)))
          h.has_active;
  }

  pub begin_retry-IsFocused :
      (s : Text) (r : Round)
      → IsFocused casefold r
      → IsFocused casefold (begin_retry_round s r).round
  unfolding begin_retry_round
  begin_retry-IsFocused s r h =
      on_lane-IsFocused s
        (λ l. record l {
          retry_count = suc l.retry_count;
          last_retry_status = running;
          last_retry_error = [];
        })
        r (λ l. refl) (λ l t e. record { state_true = t.state_true; steady = t.steady }) h

  pub finish_retry-IsFocused :
      (ok : Bool) (error s : Text) (r : Round)
      → IsFocused casefold r
      → IsFocused casefold (finish_retry_round ok error s r).round
  unfolding finish_retry_round
  finish_retry-IsFocused ok error s r h =
      on_lane-IsFocused s
        (λ l. record l {
          last_retry_status = if ok then success else failed;
          last_retry_error = take 160 error;
        })
        r (λ l. refl) (λ l t e. record { state_true = t.state_true; steady = t.steady }) h

  distinct : (s a x : Text) → (x === s) ≡ true → (a === s) ≡ false → (x === a) ≡ false
  distinct s a x p n = elim (text_dec x a) [
    | yes e ↦ absurd (ground (arith, ap (λ y. y === s) e))
    | no m ↦ ground arith
  ]

  same : (s a x : Text) → (x === s) ≡ false → (a === s) ≡ true → (x === a) ≡ false
  same s a x p n = elim (text_dec x a) [
    | yes e ↦ absurd (ground (arith, ap (λ y. y === s) e))
    | no m ↦ ground arith
  ]

  -- A source that is put off is no longer active, whether it was or not.
  deferred-IsFocused :
      (s : Text) (r : Round)
      → IsFocused casefold r
      → IsFocused casefold (without_focus s (on_lane s (with_state deferred) r))
  deferred-IsFocused s r h = elim (Bool-cases (r.active_source === s)) [
    | inl e ↦ rw e (record {
      true_lanes =
          All-rewrite (IsTrue casefold r.active_source) (IsTrue casefold []) (λ l. l.source === s)
            (with_state deferred) r.lanes
            (λ l t p. record {
              state_true = sym (not_empty casefold l.source t.steady);
              steady = t.steady;
            })
            (λ l t p. record {
              state_true = ground (
                arith,
                t.state_true,
                same s r.active_source l.source p e,
                not_empty casefold l.source t.steady,
              );
              steady = t.steady;
            })
            h.true_lanes;
      has_active = inl refl;
    })
    | inr n ↦ rw n (
        on_lane-IsFocused s (with_state deferred) r (λ l. refl)
          (λ l t p. record {
            state_true = sym (distinct s r.active_source l.source p n);
            steady = t.steady;
          })
          h)
  ]

  -- A lane that rejoins was put off, so it is not the active one.
  rejoined-IsFocused :
      (s : Text) (st : LaneState) (r : Round) (l : Lane)
      → is_active st ≡ false
      → lookup Lane.source s r.lanes ≡ some l
      → is_deferred l.state ≡ true
      → IsFocused casefold r
      → IsFocused casefold (on_lane s (with_state st) r)
  rejoined-IsFocused s st r l quiet e d h =
      on_lane-IsFocused s (with_state st) r (λ x. refl)
        (λ x t p. record { state_true = rw quiet (sym (other x p)); steady = t.steady }) h
    where
      deferred-is_active : (st' : LaneState) → is_deferred st' ≡ true → is_active st' ≡ false
      deferred-is_active pending g = refl
      deferred-is_active active g = absurd (ground arith)
      deferred-is_active deferred g = refl
      deferred-is_active complete g = refl

      other : (x : Lane) → (x.source === s) ≡ true → (x.source === r.active_source) ≡ false
      other x p = elim (text_dec x.source s) [
        | yes q ↦
            rw
              (
                q,
                sym (lookup-key Lane.source s r.lanes l e),
                sym
                    (All-lookup Lane.source (IsTrue casefold r.active_source) s r.lanes l
                      h.true_lanes e).state_true,
              )
              (deferred-is_active l.state d)
        | no n ↦ absurd (ground arith)
      ]

  module _ (inbox : List Draft) where
    pub defer-IsFocused :
        (s : Text) (r : Round)
        → IsFocused casefold r
        → IsFocused casefold (defer_round casefold inbox s r).round
    unfolding defer_round put_off
    defer-IsFocused s r h = elim (Option-cases (lookup Lane.source s r.lanes)) [
      | inl n ↦ rw (defer_round, n) h
      | inr (l, e) ↦ elim (Bool-cases (ltb 0 (pending_of inbox r s))) [
        | inl p ↦
            rw (defer_round, e, p)
              (activate_next-IsFocused casefold inbox
                (without_focus s (on_lane s (with_state deferred) r)) (deferred-IsFocused s r h))
        | inr n ↦ rw (defer_round, e, n) h
      ]
    ]

    pub resume-IsFocused :
        (s : Text) (r : Round)
        → IsFocused casefold r
        → IsFocused casefold (resume_round casefold inbox s r).round
    unfolding resume_round rejoin
    resume-IsFocused s r h = elim (Option-cases (lookup Lane.source s r.lanes)) [
      | inl n ↦ rw (resume_round, n) h
      | inr (l, e) ↦ elim (Bool-cases (is_deferred l.state)) [
        | inl d ↦
            rw (resume_round, e, d)
              (activate_next-IsFocused casefold inbox (on_lane s (with_state (back s r)) r)
                (rejoined-IsFocused s (back s r) r l (quiet (ltb 0 (pending_of inbox r s))) e d h))
        | inr n ↦ rw (resume_round, e, n) h
      ]
    ]
      where
        back : Text → Round → LaneState
        back s r = if ltb 0 (pending_of inbox r s) then pending else complete

        quiet : (b : Bool) → is_active (if b then pending else complete) ≡ false
        quiet true = refl
        quiet false = refl
