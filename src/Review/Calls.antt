-- ===== src/Review/Calls.antt =====
-- The review queue of app/source_first_queue.py as a machine: its calls in any order, with changes of
-- the inbox, which another component makes, between them.
use jeonghan_daily_review_bo.Prelude.{
  Text, codes, ◌≡◌, refl, inl, inr, Bool, List, [], ◌∷◌, find, is_empty, ◌===◌, All, All-append,
  All-update_where, Bool-cases, Option-cases,
}
use jeonghan_daily_review_bo.Prelude.Table.{lookup}
use jeonghan_daily_review_bo.Handles.{queue_handle}
use jeonghan_daily_review_bo.Review.Rounds.{Draft, Round, Store}
use jeonghan_daily_review_bo.Review.Merge.{RawSource, pending_rows, merge}
use jeonghan_daily_review_bo.Review.Activate.{reconcile_states}
use jeonghan_daily_review_bo.Review.Queue.{
  Answer, on_round, new_round, defer_round, resume_round, begin_retry_round, finish_retry_round,
  sync_round, sync_from, sync, defer, resume, begin_retry, finish_retry,
}
use jeonghan_daily_review_bo.Review.Focus.{IsFocused, activate_next-IsFocused}
use jeonghan_daily_review_bo.Review.Reconcile.{reconcile-IsFocused}
use jeonghan_daily_review_bo.Review.Merged.{IsSettled, merged_round-IsFocused}
use jeonghan_daily_review_bo.Review.Moves.{
  begin_retry-IsFocused, finish_retry-IsFocused, defer-IsFocused, resume-IsFocused,
}

pub data Call : Type 0 where
  syncs : Text → List RawSource → Call
  defers resumes begins : Text → Text → Call
  finishes : Text → Text → Bool → Text → Call
  inbox_becomes : List Draft → Call

module _ (casefold : Text → Text) where
  unfoldable pub step : Call → Store → Store
  step (syncs uuid sources) st = (sync casefold uuid sources st).store
  step (defers id s) st = (defer casefold id s st).store
  step (resumes id s) st = (resume casefold id s st).store
  step (begins id s) st = (begin_retry casefold id s st).store
  step (finishes id s ok error) st = (finish_retry casefold id s ok error st).store
  step (inbox_becomes inbox) st = record st { inbox = inbox }

  unfoldable pub run : List Call → Store → Store
  unfolding step
  run [] st = st
  run (c ∷ cs) st = run cs (step c st)

  -- The names that come in with a call are settled by one normalization.
  abbrev pub IsSettledCall : Call → Type 0
  IsSettledCall (syncs uuid sources) = All (λ raw. IsSettled casefold raw.handle) sources
  IsSettledCall (defers id s) = Unit
  IsSettledCall (resumes id s) = Unit
  IsSettledCall (begins id s) = Unit
  IsSettledCall (finishes id s ok error) = Unit
  IsSettledCall (inbox_becomes inbox) = All (λ d. IsSettled casefold d.source) inbox

  -- Every round is focused, and the names in the inbox are settled.
  pub record IsOrderly (st : Store) : Type 0 where
    pub focused : All (IsFocused casefold) st.rounds
    pub settled : All (λ d. IsSettled casefold d.source) st.inbox

  on_round-IsOrderly :
      (id : Text) (op : Round → Answer) (st : Store)
      → ((r : Round) → IsFocused casefold r → IsFocused casefold (op r).round)
      → IsOrderly st
      → IsOrderly (on_round id op st).store
  unfolding on_round
  on_round-IsOrderly id op st keep h = elim (Option-cases (lookup Round.session_id id st.rounds)) [
    | inl n ↦ rw (on_round, n) h
    | inr (r, e) ↦
        rw (on_round, e)
          (record {
            focused =
                All-update_where (IsFocused casefold) (λ x. x.session_id === id) (λ x. (op x).round)
                  st.rounds (λ x g t. keep x g) h.focused;
            settled = h.settled;
          })
  ]

  module _ (unknown_fold : casefold (codes "unknown") ≡ codes "unknown") where
    pub sync_round-IsFocused :
        (sources : List RawSource) (inbox : List Draft) (r : Round)
        → All (λ raw. IsSettled casefold raw.handle) sources
        → All (λ d. IsSettled casefold d.source) inbox
        → IsFocused casefold r
        → IsFocused casefold (sync_round casefold inbox sources r)
    unfolding sync_round pending_rows
    sync_round-IsFocused sources inbox r hs hd h =
        activate_next-IsFocused casefold inbox
          (reconcile_states casefold inbox (merge casefold sources (pending_rows inbox) r))
          (reconcile-IsFocused casefold inbox (merge casefold sources (pending_rows inbox) r)
            (merged_round-IsFocused casefold unknown_fold sources inbox r hs hd h))

    sync-IsOrderly :
        (uuid : Text) (sources : List RawSource) (st : Store)
        → All (λ raw. IsSettled casefold raw.handle) sources
        → IsOrderly st
        → IsOrderly (sync casefold uuid sources st).store
    unfolding sync sync_from
    sync-IsOrderly uuid sources st hs h = elim (Option-cases (find Round.is_open st.rounds)) [
      | inr (r, e) ↦
          rw (sync, e)
            (record {
              focused =
                  All-update_where (IsFocused casefold) (λ x. x.session_id === r.session_id)
                    (sync_round casefold st.inbox sources) st.rounds
                    (λ x g t. sync_round-IsFocused sources st.inbox x hs h.settled g) h.focused;
              settled = h.settled;
            })
      | inl n ↦ elim (Bool-cases (is_empty (pending_rows st.inbox))) [
        | inl t ↦ rw (sync, n, t) h
        | inr f ↦
            rw (sync, n, f)
              (record {
                focused =
                    All-append (IsFocused casefold) st.rounds
                      (sync_round casefold st.inbox sources (new_round uuid) ∷ []) h.focused
                      (
                        sync_round-IsFocused sources st.inbox (new_round uuid) hs h.settled
                            (record { true_lanes = tt; has_active = inl refl }),
                        tt,
                      );
                settled = h.settled;
              })
      ]
    ]

    step-IsOrderly :
        (c : Call) (st : Store) → IsSettledCall c → IsOrderly st → IsOrderly (step c st)
    unfolding step defer resume begin_retry finish_retry
    step-IsOrderly (syncs uuid sources) st hc h = sync-IsOrderly uuid sources st hc h
    step-IsOrderly (defers id s) st hc h =
        on_round-IsOrderly id (defer_round casefold st.inbox (queue_handle casefold s)) st
          (defer-IsFocused casefold st.inbox (queue_handle casefold s)) h
    step-IsOrderly (resumes id s) st hc h =
        on_round-IsOrderly id (resume_round casefold st.inbox (queue_handle casefold s)) st
          (resume-IsFocused casefold st.inbox (queue_handle casefold s)) h
    step-IsOrderly (begins id s) st hc h =
        on_round-IsOrderly id (begin_retry_round (queue_handle casefold s)) st
          (begin_retry-IsFocused casefold (queue_handle casefold s)) h
    step-IsOrderly (finishes id s ok error) st hc h =
        on_round-IsOrderly id (finish_retry_round ok error (queue_handle casefold s)) st
          (finish_retry-IsFocused casefold ok error (queue_handle casefold s)) h
    step-IsOrderly (inbox_becomes inbox) st hc h = record { focused = h.focused; settled = hc }

    -- Let "unknown" be a name that casefold keeps. From an orderly store, any calls and changes of the
    -- inbox whose names are settled by one normalization lead to an orderly store: in every round a
    -- lane is in the state `active` exactly where its source is the round's active source, each
    -- active source has a lane, and every lane's name is steady and not empty.
    pub run-IsOrderly :
        (cs : List Call) (st : Store) → All IsSettledCall cs → IsOrderly st → IsOrderly (run cs st)
    unfolding run
    run-IsOrderly [] st hc h = h
    run-IsOrderly (c ∷ cs) st hc h = run-IsOrderly cs (step c st) hc.1 (step-IsOrderly c st hc.0 h)
