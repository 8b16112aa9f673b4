-- ===== src/Review/Queue.antt =====
-- The calls of `SourceFirstQueueStore` of app/source_first_queue.py that write: `sync`, `defer`,
-- `resume`, `begin_retry` and `finish_retry`. A call by the id of a session acts on its round.
use jeonghan_daily_review_bo.Prelude.{
  suc, Text, Bool, true, false, Option, none, some, List, [], ◌∷◌, ◌++◌, find, any, is_empty, take,
  update_where, ◌===◌, ltb, if◌then◌else◌,
}
use jeonghan_daily_review_bo.Prelude.Table.{lookup}
use jeonghan_daily_review_bo.Handles.{queue_handle}
use jeonghan_daily_review_bo.Review.Rounds.{
  Draft, pending, deferred, complete, is_deferred, with_state, running, success, failed, Lane,
  Round, Store, pending_of,
}
use jeonghan_daily_review_bo.Review.Merge.{RawSource, pending_rows, merge}
use jeonghan_daily_review_bo.Review.Activate.{reconcile_states, activate_next}

-- What an operation on a round gives: the round and the answer to the caller.
pub record Answer : Type 0 where
  pub round : Round
  pub answer : Bool

abbrev pub new_round : Text → Round
new_round id = record {
  session_id = id;
  is_open = true;
  active_source = [];
  lanes = [];
  items = [];
}

-- The lanes after an update of the row of one source.
abbrev pub on_lane : Text → (Lane → Lane) → Round → Round
on_lane s f r = record r { lanes = update_where (λ l. l.source === s) f r.lanes }

-- Whether the update finds a row: `cur.rowcount > 0`.
abbrev pub has_lane : Text → Round → Bool
has_lane s r = any (λ l. l.source === s) r.lanes

-- `CASE WHEN active_source=? THEN '' ELSE active_source END`
abbrev pub without_focus : Text → Round → Round
without_focus s r = record r {
  active_source = if r.active_source === s then [] else r.active_source;
}

module _ (casefold : Text → Text) (inbox : List Draft) where
  unfoldable pub sync_round : List RawSource → Round → Round
  unfolding merge reconcile_states activate_next pending_rows
  sync_round sources r =
      activate_next casefold inbox
        (reconcile_states casefold inbox (merge casefold sources (pending_rows inbox) r))

  unfoldable pub put_off : Text → Round → Round
  unfolding activate_next
  put_off s r = activate_next casefold inbox (without_focus s (on_lane s (with_state deferred) r))

  unfoldable pub defer_round : Text → Round → Answer
  unfolding pending_of put_off
  defer_round s r = elim (lookup Lane.source s r.lanes) [
    | none ↦ record { round = r; answer = false }
    | some _ ↦
        if ltb 0 (pending_of inbox r s)
        then record { round = put_off s r; answer = true }
        else record { round = r; answer = false }
  ]

  unfoldable pub rejoin : Text → Round → Round
  unfolding pending_of activate_next
  rejoin s r =
      activate_next casefold inbox
        (on_lane s (with_state (if ltb 0 (pending_of inbox r s) then pending else complete)) r)

  unfoldable pub resume_round : Text → Round → Answer
  unfolding rejoin
  resume_round s r = elim (lookup Lane.source s r.lanes) [
    | none ↦ record { round = r; answer = false }
    | some l ↦
        if is_deferred l.state
        then record { round = rejoin s r; answer = true }
        else record { round = r; answer = false }
  ]

unfoldable pub begin_retry_round : Text → Round → Answer
begin_retry_round s r = record {
  round =
      on_lane s
        (λ l. record l {
          retry_count = suc l.retry_count;
          last_retry_status = running;
          last_retry_error = [];
        })
        r;
  answer = has_lane s r;
}

unfoldable pub finish_retry_round : Bool → Text → Text → Round → Answer
finish_retry_round ok error s r = record {
  round =
      on_lane s
        (λ l. record l {
          last_retry_status = if ok then success else failed;
          last_retry_error = take 160 error;
        })
        r;
  answer = has_lane s r;
}

-- The round of a session in the store: an operation writes it, and on a missing one does nothing.
pub record Reply : Type 0 where
  pub store : Store
  pub answer : Bool

unfoldable pub on_round : Text → (Round → Answer) → Store → Reply
unfolding lookup
on_round id op st = elim (lookup Round.session_id id st.rounds) [
  | none ↦ record { store = st; answer = false }
  | some r ↦ record {
    store = record st {
      rounds = update_where (λ x. x.session_id === id) (λ x. (op x).round) st.rounds;
    };
    answer = (op r).answer;
  }
]

-- The store after `sync`, and the session that it returns, empty where there is none.
pub record Synced : Type 0 where
  pub store : Store
  pub session : Text

module _ (casefold : Text → Text) where
  -- `sync` on the active round, or on a new one where a draft is pending.
  unfoldable pub sync_from : Text → List RawSource → Store → Option Round → Synced
  unfolding sync_round pending_rows
  sync_from uuid sources st (some r) = record {
    store = record st {
      rounds =
          update_where (λ x. x.session_id === r.session_id) (sync_round casefold st.inbox sources)
            st.rounds;
    };
    session = r.session_id;
  }
  sync_from uuid sources st none =
      if is_empty (pending_rows st.inbox) then record { store = st; session = [] } else record {
        store = record st {
          rounds = st.rounds ++ sync_round casefold st.inbox sources (new_round uuid) ∷ [];
        };
        session = uuid;
      }

  unfoldable pub sync : Text → List RawSource → Store → Synced
  unfolding sync_from
  sync uuid sources st = sync_from uuid sources st (find Round.is_open st.rounds)

  unfoldable pub defer : Text → Text → Store → Reply
  unfolding on_round defer_round queue_handle
  defer id s st = on_round id (defer_round casefold st.inbox (queue_handle casefold s)) st

  unfoldable pub resume : Text → Text → Store → Reply
  unfolding on_round resume_round queue_handle
  resume id s st = on_round id (resume_round casefold st.inbox (queue_handle casefold s)) st

  unfoldable pub begin_retry : Text → Text → Store → Reply
  unfolding on_round begin_retry_round queue_handle
  begin_retry id s st = on_round id (begin_retry_round (queue_handle casefold s)) st

  unfoldable pub finish_retry : Text → Text → Bool → Text → Store → Reply
  unfolding on_round finish_retry_round queue_handle
  finish_retry id s ok error st =
      on_round id (finish_retry_round ok error (queue_handle casefold s)) st
