-- ===== src/Inbox/Store.antt =====
-- `ReviewInboxStore` of app/review_inbox.py. `now` is the text of CURRENT_TIMESTAMP.
use jeonghan_daily_review_bo.Prelude.{
  ℕ, suc, ◌+◌, ◌-◌, ◌*◌, ◌/◌, min, max, Text, codes, ◌===◌, text_le, text_lt, Bool, false, not,
  ◌&&◌, ◌||◌, Option, none, some, List, [], ◌∷◌, length, take, drop, select, any, is_empty,
  update_where, if◌then◌else◌,
}
use jeonghan_daily_review_bo.Prelude.Table.{lookup, upsert}
use jeonghan_daily_review_bo.Prelude.Sort.{sort}
use jeonghan_daily_review_bo.Models.{Update, Draft}
use jeonghan_daily_review_bo.State.Rows.{Payload, from_dict, Decoded, update, refused, uncaught}

-- A row of `review_inbox`, with `ReviewItem` as its fields but the last.
pub record Item : Type 0 where
  pub draft_id : Text
  pub update_id : Text
  pub status : Text
  pub category : Text
  pub source : Text
  pub created_at : Text
  pub updated_at : Text

abbrev pub is_valid : Text → Bool
is_valid s = s === codes "pending" || s === codes "ready" || s === codes "rejected"

abbrev pub category_of : Option Update → Text
category_of none = codes "general"
category_of (some u) = u.category

abbrev pub source_of : Option Update → Text
source_of none = []
source_of (some u) = u.author

abbrev pub new_item : Draft → Option Update → Text → Text → Item
new_item a u status now = record {
  draft_id = a.id;
  update_id = a.update_id;
  status = if is_valid status then status else codes "pending";
  category = category_of u;
  source = source_of u;
  created_at = a.created_at;
  updated_at = now;
}

-- `ON CONFLICT(draft_id) DO UPDATE SET ...`
abbrev pub renewed_item : Draft → Option Update → Text → Item → Item
renewed_item a u now x = record x {
  update_id = a.update_id;
  category = category_of u;
  source = source_of u;
  created_at = if is_empty a.created_at then x.created_at else a.created_at;
  updated_at = now;
}

unfoldable pub upsert_item : Draft → Option Update → Text → Text → List Item → List Item
unfolding upsert
upsert_item a u status now xs =
    upsert Item.draft_id a.id (new_item a u status now) (renewed_item a u now) xs

abbrev pub has_draft : Text → Item → Bool
has_draft id x = x.draft_id === id

-- `set_status`: whether a row was changed, and the table.
unfoldable pub set_status : Text → Text → Text → List Item → Bool × List Item
set_status id status now xs =
    if is_valid status
    then (
      any (has_draft id) xs,
      update_where (has_draft id) (λ x. record x { status = status; updated_at = now }) xs,
    )
    else (false, xs)

unfoldable pub get : Text → List Item → Option Item
unfolding lookup
get id xs = lookup Item.draft_id id xs

-- `_filters`: a filter that is not set passes every row.
pub record Filter : Type 0 where
  pub status : Text
  pub category : Text
  pub source : Text

abbrev pub passes : Filter → Item → Bool
passes f x =
    (not (is_valid f.status) || x.status === f.status)
    && (is_empty f.category || x.category === f.category)
    && (is_empty f.source || x.source === f.source)

unfoldable pub count : Filter → List Item → ℕ
count f xs = length (select (passes f) xs)

-- `ORDER BY created_at DESC, draft_id DESC`
abbrev pub is_newer : Item → Item → Bool
unfolding text_le
is_newer a b =
    text_lt b.created_at a.created_at
    || (a.created_at === b.created_at && text_le b.draft_id a.draft_id)

unfoldable pub in_order : Filter → List Item → List Item
unfolding text_le
in_order f xs = sort is_newer (select (passes f) xs)

abbrev pub size_of : ℕ → ℕ
size_of page_size = max 1 (min page_size 10)

unfoldable pub pages_of : ℕ → ℕ → ℕ
pages_of size total = max 1 ((total + size - 1) / size)

pub record Page : Type 0 where
  pub items : List Item
  pub page : ℕ
  pub pages : ℕ

unfoldable pub list_items : Filter → ℕ → ℕ → List Item → Page
unfolding count in_order pages_of
list_items f page page_size xs =
    let size = size_of page_size in
    let pages = pages_of size (count f xs) in
    let at = min page (pages - 1) in
    record { items = take size (drop (at * size) (in_order f xs)); page = at; pages = pages }

-- What `sync_from_state` does with one draft: it has a row already, it gets one, or decoding its update
-- raises an error that is not caught.
pub data Synced : Type 0 where
  skipped : Synced
  added : List Item → Synced
  failed : Synced

-- The loop of `sync_from_state` on the drafts, of which nothing is left where one does not decode;
-- `archive` is what the archive has for an update. It ends with the number of added rows, or with an
-- error that is not caught.
module _ (archive : Text → Option Payload) (now : Text) where
  abbrev pub add_draft : Draft → Option Update → List Item → List Item
  unfolding upsert_item
  add_draft a u xs = upsert_item a u (codes "pending") now xs

  abbrev pub archived : Text → Decoded
  archived id = elim (archive id) [ none ↦ refused | some p ↦ from_dict p ]

  unfoldable pub sync_draft : Draft → List Item → Synced
  unfolding upsert_item get
  sync_draft a xs = elim (get a.id xs) [
    | some x ↦ skipped
    | none ↦ elim (archived a.update_id) [
      | update u ↦ added (add_draft a (some u) xs)
      | refused ↦ added (add_draft a none xs)
      | uncaught ↦ failed
    ]
  ]

  unfoldable pub sync_from : List (Option Draft) → ℕ → List Item → Option ℕ × List Item
  unfolding sync_draft
  sync_from [] n xs = (some n, xs)
  sync_from (none ∷ drafts) n xs = sync_from drafts n xs
  sync_from (some a ∷ drafts) n xs = elim (sync_draft a xs) [
    | skipped ↦ sync_from drafts n xs
    | added ys ↦ sync_from drafts (suc n) ys
    | failed ↦ (none, xs)
  ]

  unfoldable pub sync_from_state : List (Option Draft) → List Item → Option ℕ × List Item
  unfolding sync_from
  sync_from_state drafts xs = sync_from drafts 0 xs
