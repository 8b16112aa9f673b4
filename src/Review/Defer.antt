-- ===== src/Review/Defer.antt =====
-- What `defer` and `resume` of app/source_first_queue.py promise to the reader of the queue.
use jeonghan_daily_review_bo.Prelude.{
  Text, ◌≡◌, ap, inl, inr, true, false, not, some, List, [], ◌∷◌, find, any, is_empty, update_where,
  ◌||◌, ◌===◌, text_dec, if◌then◌else◌, All, All-rewrite, All-find, find-holds, arith, Bool-cases,
  Option-cases,
}
use jeonghan_daily_review_bo.Prelude.Sort.{All-sort}
use jeonghan_daily_review_bo.Handles.{queue_handle}
use jeonghan_daily_review_bo.Review.Rounds.{
  Draft, active, deferred, is_deferred, with_state, Lane, Round, in_order, lane_le,
}
use jeonghan_daily_review_bo.Review.Activate.{is_next, is_unresolved, focus, turn_to, activate_next}
use jeonghan_daily_review_bo.Review.Queue.{
  on_lane, without_focus, put_off, defer_round, rejoin, resume_round,
}

-- A lane of the source is put off.
pub record IsPutOff (s : Text) (l : Lane) : Type 0 where
  pub off : (not (l.source === s) || is_deferred l.state) ≡ true

module _ (casefold : Text → Text) (inbox : List Draft) where
  -- Where the round has an active source, `resume` leaves it active, whatever it answers.
  pub resume-active_source :
      (s : Text) (r : Round)
      → is_empty (queue_handle casefold r.active_source) ≡ false
      → (resume_round casefold inbox s r).round.active_source ≡ r.active_source
  unfolding resume_round rejoin activate_next
  resume-active_source s r h = ground (arith, h)

  focus-IsPutOff :
      (s : Text) (r : Round) (l : Lane)
      → (l.source === s) ≡ false
      → All (IsPutOff s) r.lanes
      → All (IsPutOff s) (focus l.source r).lanes
  unfolding focus
  focus-IsPutOff s r l n h =
      All-rewrite (IsPutOff s) (IsPutOff s) (λ x. x.source === l.source) (with_state active) r.lanes
        (λ x o p. record { off = ground (arith, clash x p) }) (λ x o p. o) h
    where
      clash : (x : Lane) → (x.source === l.source) ≡ true → (x.source === s) ≡ false
      clash x p = elim (text_dec x.source l.source) [
        | yes e ↦ ground (arith, ap (λ y. y === s) e)
        | no m ↦ ground arith
      ]

  activate_next-IsPutOff :
      (s : Text) (r : Round)
      → (r.active_source === s) ≡ false
      → All (IsPutOff s) r.lanes
      → All (IsPutOff s) (activate_next casefold inbox r).lanes
        × (((activate_next casefold inbox r).active_source === s) ≡ false)
  unfolding activate_next turn_to focus is_next
  activate_next-IsPutOff s r n h =
      elim (Bool-cases (is_empty (queue_handle casefold r.active_source))) [
        | inr f ↦ rw (activate_next, f) (h, n)
        | inl t ↦ elim (Option-cases (find (is_next inbox r) (in_order r.lanes))) [
          | inl none_next ↦ elim (Bool-cases (any (is_unresolved inbox r) r.lanes)) [
            | inl u ↦ rw (activate_next, t, none_next, u) (h, n)
            | inr u ↦ rw (activate_next, t, none_next, u) (h, n)
          ]
          | inr (l, found) ↦
              rw (activate_next, t, found) (focus-IsPutOff s r l (other l found) h, other l found)
        ]
      ]
    where
      other :
          (l : Lane) → find (is_next inbox r) (in_order r.lanes) ≡ some l → (l.source === s) ≡ false
      other l found = ground (
        arith,
        find-holds (is_next inbox r) (in_order r.lanes) l found,
        (All-find (IsPutOff s) (is_next inbox r) (in_order r.lanes) l
            (All-sort lane_le (IsPutOff s) r.lanes h) found).off,
      )

  defer_round-put_off :
      (s : Text) (r : Round)
      → (defer_round casefold inbox s r).answer ≡ true
      → (defer_round casefold inbox s r).round ≡ put_off casefold inbox s r
  unfolding defer_round
  defer_round-put_off s r a = ground arith

  without_focus-other :
      (s : Text) (r : Round)
      → is_empty s ≡ false
      → ((without_focus s r).active_source === s) ≡ false
  without_focus-other s r e = elim (Bool-cases (r.active_source === s)) [
    | inl t ↦ rw t (nothing s e)
    | inr f ↦ rw f f
  ]
    where
      nothing : (x : Text) → is_empty x ≡ false → ([] === x) ≡ false
      nothing [] e = absurd (ground arith)
      nothing (c ∷ x) e = ground arith

  put_off-IsPutOff :
      (s : Text) (r : Round)
      → is_empty s ≡ false
      → All (IsPutOff s) (put_off casefold inbox s r).lanes
        × (((put_off casefold inbox s r).active_source === s) ≡ false)
  unfolding put_off
  put_off-IsPutOff s r e =
      activate_next-IsPutOff s (without_focus s (on_lane s (with_state deferred) r))
        (without_focus-other s (on_lane s (with_state deferred) r) e) (on_lane-IsPutOff r.lanes)
    where
      on_lane-IsPutOff :
          (ls : List Lane)
          → All (IsPutOff s) (update_where (λ l. l.source === s) (with_state deferred) ls)
      on_lane-IsPutOff [] = tt
      on_lane-IsPutOff (l ∷ ls) = (record { off = shown }, on_lane-IsPutOff ls)
        where
          shown :
              (not ((if l.source === s then with_state deferred l else l).source === s)
                || is_deferred (if l.source === s then with_state deferred l else l).state)
              ≡ true
          shown = ground arith

  -- Where `defer` answers true for a source with a name, the source is put off, and neither it was
  -- left the active one nor did the queue turn back to it.
  pub defer-IsPutOff :
      (s : Text) (r : Round)
      → is_empty s ≡ false
      → (defer_round casefold inbox s r).answer ≡ true
      → All (IsPutOff s) (defer_round casefold inbox s r).round.lanes
        × (((defer_round casefold inbox s r).round.active_source === s) ≡ false)
  defer-IsPutOff s r e a = rw (defer_round-put_off s r a) (put_off-IsPutOff s r e)
