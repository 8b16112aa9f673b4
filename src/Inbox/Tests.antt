-- ===== src/Inbox/Tests.antt =====
-- Concrete runs of the review inbox, and an instance of each property of it.
use jeonghan_daily_review_bo.Prelude.{
  ◌≤◌, Text, codes, ◌≡◌, refl, Option, none, some, List, [], ◌∷◌, length, text_dec, text_le,
}
use jeonghan_daily_review_bo.Prelude.Table.{lookup, upsert}
use jeonghan_daily_review_bo.Models.{Draft}
use jeonghan_daily_review_bo.State.Rows.{Payload}
use jeonghan_daily_review_bo.Inbox.Store.{
  Item, Filter, get, count, in_order, pages_of, list_items, upsert_item, sync_draft, sync_from,
  sync_from_state,
}
use jeonghan_daily_review_bo.Inbox.Pages.{read_pages, read_pages-in_order}
use jeonghan_daily_review_bo.Inbox.Synced.{status_of, IsSynced, IsKept, sync_from_state-again}
use jeonghan_daily_review_bo.Inbox.Decided.{
  Call, upserted, decided, synced, run, decision_after, run-decision,
}

abbrev item : Text → Text → Item
item id at = record {
  draft_id = id;
  update_id = codes "u";
  status = codes "pending";
  category = codes "general";
  source = codes "pledis_17";
  created_at = at;
  updated_at = [];
}

abbrev three : List Item
three =
    item (codes "a") (codes "1") ∷ item (codes "b") (codes "3") ∷ item (codes "c") (codes "2") ∷ []

abbrev no_filter : Filter
no_filter = record { status = codes "all"; category = []; source = [] }

abbrev draft : Text → Draft
draft id = record {
  id = id;
  update_id = codes "u";
  event_key = [];
  caption = codes "text";
  mode = codes "default";
  telegram_message_id = none;
  created_at = codes "4";
}

abbrev empty_archive : Text → Option Payload
empty_archive id = none

abbrev drafts : List (Option Draft)
drafts = some (draft (codes "b")) ∷ none ∷ some (draft (codes "d")) ∷ []

abbrev calls : List Call
calls =
    decided (codes "a") (codes "ready") (codes "now")
    ∷ upserted (draft (codes "a")) none (codes "pending") (codes "now")
    ∷ synced empty_archive drafts (codes "now")
    ∷ decided (codes "a") (codes "maybe") (codes "now")
    ∷ []

newest : (list_items no_filter 1 2 three).items ≡ item (codes "a") (codes "1") ∷ []
unfolding list_items count in_order pages_of text_dec text_le
newest = refl

read_pages-in_order_example :
    (read_pages no_filter 2 three (list_items no_filter 0 2 three).pages 0
      ≡ in_order no_filter three)
    × (length (list_items no_filter 1 2 three).items ≤ 10)
read_pages-in_order_example = read_pages-in_order no_filter 2 three 1

sync_from_state-again_example :
    IsSynced drafts (sync_from_state empty_archive (codes "now") drafts []).1
    × (sync_from_state empty_archive
          (codes "now")
          drafts
          (sync_from_state empty_archive (codes "now") drafts []).1
        ≡ (some 0, (sync_from_state empty_archive (codes "now") drafts []).1))
    × IsKept
        (status_of (codes "b") [])
        (status_of (codes "b") (sync_from_state empty_archive (codes "now") drafts []).1)
unfolding sync_from_state sync_from sync_draft get upsert_item lookup upsert text_dec
sync_from_state-again_example =
    sync_from_state-again empty_archive (codes "now") drafts 2 (codes "b") [] refl

run-decision_example :
    status_of (codes "a") (run calls three)
    ≡ some (decision_after (codes "a") (codes "pending") calls)
unfolding lookup text_dec
run-decision_example = run-decision (codes "a") calls (codes "pending") three refl

decided_ready : decision_after (codes "a") (codes "pending") calls ≡ codes "ready"
unfolding decision_after text_dec
decided_ready = refl
