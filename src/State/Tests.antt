-- ===== src/State/Tests.antt =====
-- Concrete runs of the state, and an instance of each property of it.
use jeonghan_daily_review_bo.Prelude.{
  not, ◌||◌, ℕ, Text, codes, ◌≡◌, refl, Bool, true, false, ◌&&◌, Option, none, some, List, [], ◌∷◌,
  leb, any, select, text_dec, All, arith,
}
use jeonghan_daily_review_bo.Prelude.Table.{lookup}
use jeonghan_daily_review_bo.Handles.{strip, lstrip_at}
use jeonghan_daily_review_bo.Models.{Update, post_init}
use jeonghan_daily_review_bo.State.Rows.{
  RawMedia, elements, no_dictionary, Payload, from_dict, update, Row, entry, foreign, Data,
}
use jeonghan_daily_review_bo.State.Lifecycle.{record_update_state, quarantine_pending}
use jeonghan_daily_review_bo.State.Store.{is_seen, to_dict}
use jeonghan_daily_review_bo.State.Queue.{pop_pending}
use jeonghan_daily_review_bo.State.Calls.{apply_fresh_start}
use jeonghan_daily_review_bo.State.Pending.{after, IsServedFrom, pop_pending-IsServed}
use jeonghan_daily_review_bo.State.Reloaded.{from_dict-to_dict}
use jeonghan_daily_review_bo.State.Blocked.{IsRaised, is_stuck_row, pop_pending-IsRaised}
use jeonghan_daily_review_bo.State.Kept.{quarantined_rows, is_bad, IsHeld, pop_pending-IsHeld}
use jeonghan_daily_review_bo.State.Waits.{Call, queued, pop, marked, pruned, waits, run, run-waits}
use jeonghan_daily_review_bo.State.Fresh.{IsDiscarded, apply_fresh_start-IsDiscarded}
use jeonghan_daily_review_bo.State.Replayed.{starts, apply_fresh_start-again}

abbrev post : Text → Update
post id = record {
  id = id;
  url = codes "https://x.com/pledis_17/status/1";
  author = codes "pledis_17";
  author_name = codes "SEVENTEEN";
  text = codes "hello";
  created_at = codes "2025-01-01T00:00:00+00:00";
  conversation_id = id;
  reply_to_id = [];
  quoted_id = [];
  quoted_text = [];
  quoted_author = [];
  quoted_media = [];
  lang = codes "en";
  media = [];
  category = codes "general";
  event_key = [];
  event_title = [];
  source_priority = 100;
  is_reply = false;
  raw_query = [];
}

abbrev payload : Update → RawMedia → Payload
payload u media = record {
  moment = some u.created_at;
  media = media;
  quoted_media = elements [];
  is_keyed = true;
  has_author_text = true;
  fields = u;
}

abbrev post_row : Text → Row
post_row id = entry (record {
  id = some id;
  author = codes "pledis_17";
  force = false;
  payload = payload (post id) (elements []);
})

abbrev broken_row : Row
broken_row = entry (record {
  id = some (codes "9");
  author = [];
  force = false;
  payload = record (payload (post (codes "9")) (elements [])) { is_keyed = false };
})

abbrev blocking_row : Row
blocking_row = entry (record {
  id = some (codes "8");
  author = [];
  force = true;
  payload = payload (post (codes "8")) (elements (no_dictionary (codes "str") ∷ []));
})

abbrev state : List Row → Data
state rows = record {
  seen = record { id = codes "1"; at = codes "2025-01-01" } ∷ [];
  archive = [];
  sessions = [];
  drafts = [];
  awaiting = [];
  pending_delivery = rows;
  telegram_failures = [];
  last_auto_run = [];
  last_auto_attempt = [];
  fresh_start_since = [];
  fresh_start_run_id = [];
  fresh_start_tokens = [];
  update_lifecycle = [];
  quarantined_delivery = [];
}

abbrev busy : Data
busy = state (
    post_row (codes "1")
    ∷ broken_row
    ∷ post_row (codes "2")
    ∷ foreign (codes "int")
    ∷ post_row (codes "3")
    ∷ [])

abbrev stuck : Data
stuck = state (post_row (codes "2") ∷ blocking_row ∷ [])

abbrev is_alnum : ℕ → Bool
is_alnum c = leb 48 c && leb c 122

abbrev digest : Row → Text
digest row = codes "quarantine:0"

pop_busy :
    (after (pop_pending is_alnum digest (codes "now") 1 busy)).pending_delivery
    ≡ post_row (codes "2") ∷ post_row (codes "3") ∷ []
unfolding pop_pending is_seen quarantine_pending record_update_state lookup text_dec from_dict
pop_busy = refl

pop_pending-IsServed_example :
    IsServedFrom 1 busy.pending_delivery [] [] busy
      (pop_pending is_alnum digest (codes "now") 1 busy)
unfolding is_seen text_dec from_dict
pop_pending-IsServed_example = pop_pending-IsServed is_alnum digest (codes "now") 1 busy refl

pop_pending-IsHeld_example :
    IsHeld
      (quarantined_rows busy)
      (select (is_bad busy) busy.pending_delivery)
      (quarantined_rows (after (pop_pending is_alnum digest (codes "now") 1 busy)))
unfolding is_seen text_dec from_dict
pop_pending-IsHeld_example =
    pop_pending-IsHeld is_alnum digest (codes "now") 1 busy refl (omega arith)

pop_pending-IsRaised_example :
    IsRaised stuck (pop_pending is_alnum digest (codes "now") 1 stuck)
    × (any
          (is_stuck_row (after (pop_pending is_alnum digest (codes "now") 1 stuck)))
          (after (pop_pending is_alnum digest (codes "now") 1 stuck)).pending_delivery
        ≡ true)
unfolding is_seen text_dec from_dict
pop_pending-IsRaised_example = pop_pending-IsRaised is_alnum digest (codes "now") 1 stuck refl

abbrev round : List Call
round =
    queued (codes "t1") (post (codes "3") ∷ post (codes "4") ∷ []) false
    ∷ pop (codes "t2") 1
    ∷ marked (codes "t3") (post (codes "2"))
    ∷ pruned 0
    ∷ []

abbrev read_utc : Text → Option Text
read_utc t = some t

abbrev no_time : Text → Option ℕ
no_time t = none

abbrev no_retrieval : Text → Text × Text
no_retrieval id = ([], [])

abbrev no_outage : Text → Bool
no_outage caption = false

abbrev job : Text → Text → Text
job event id = id

run-waits_example :
    waits (codes "3") (run is_alnum digest read_utc no_time no_retrieval no_outage job round busy)
    ≡ true
unfolding is_seen text_dec from_dict
run-waits_example =
    run-waits is_alnum digest read_utc no_time no_retrieval no_outage job (codes "3") round busy
      refl refl

from_dict-to_dict_example :
    from_dict (to_dict read_utc (post (codes "3"))) ≡ update (post (codes "3"))
unfolding post_init strip lstrip_at
from_dict-to_dict_example = from_dict-to_dict read_utc (post (codes "3")) refl refl

abbrev others : List (Text × Text)
others = (codes "run-8", codes "t2") ∷ (codes "run-9", codes "t3") ∷ []

abbrev restarted : Data
restarted = starts others (apply_fresh_start (codes "run-7") (codes "t1") busy).1

apply_fresh_start-again_example :
    apply_fresh_start (codes "run-7") (codes "t4") restarted ≡ (some 0, restarted)
unfolding strip text_dec
apply_fresh_start-again_example =
    apply_fresh_start-again (codes "run-7") (codes "t1") (codes "t4") busy others refl refl
      (omega arith)

apply_fresh_start-IsDiscarded_example :
    All
      (IsDiscarded (codes "t1") (apply_fresh_start (codes "run-7") (codes "t1") busy).1.seen)
      busy.pending_delivery
    × ((not (is_seen (codes "1") busy)
          || is_seen (codes "1") (apply_fresh_start (codes "run-7") (codes "t1") busy).1)
        ≡ true)
    × ((apply_fresh_start (codes "run-7") (codes "t1") busy).1.pending_delivery ≡ [])
    × ((apply_fresh_start (codes "run-7") (codes "t1") busy).1.fresh_start_since ≡ codes "t1")
    × ((apply_fresh_start (codes "run-7") (codes "t1") busy).1.last_auto_run ≡ codes "t1")
    × ((apply_fresh_start (codes "run-7") (codes "t1") busy).1.last_auto_attempt ≡ codes "t1")
    × ((apply_fresh_start (codes "run-7") (codes "t1") busy).1.fresh_start_run_id ≡ codes "run-7")
unfolding strip text_dec
apply_fresh_start-IsDiscarded_example =
    apply_fresh_start-IsDiscarded (codes "t1") (codes "run-7") (codes "1") busy refl refl
