-- ===== src/State/Store.antt =====
-- The delivery queue of `StateStore`, app/state.py, and the seen updates. The file that holds the
-- state, its loading and saving are left out. `now` is the ISO text of the clock.
use jeonghan_daily_review_bo.Prelude.{
  ℕ, Text, codes, ◌===◌, Bool, true, false, not, ◌&&◌, Option, none, some, List, [], ◌∷◌, ◌++◌, map,
  length, is_empty, any, ltb, if◌then◌else◌,
}
use jeonghan_daily_review_bo.Prelude.Table.{upsert, has_key}
use jeonghan_daily_review_bo.Models.{MediaItem, Update}
use jeonghan_daily_review_bo.State.Rows.{
  RawMedium, dictionary, elements, Payload, from_dict, update, refused, uncaught, Entry, Row, entry,
  foreign, Seen, Archived, Data,
}

-- `data[key] = value` for a dictionary
abbrev pub put {ℓ} : {A : Type ℓ} → (A → Text) → A → List A → List A
put key row = upsert key (key row) row (λ _. row)

unfoldable pub is_seen : Text → Data → Bool
is_seen id d = has_key Seen.id id d.seen

unfoldable pub archive_update : Update → Data → Data
unfolding upsert
archive_update u d = record d {
  archive = put Archived.id (record { id = u.id; value = u }) d.archive;
}

abbrev pub record_seen : Text → Text → List Seen → List Seen
record_seen id now = put Seen.id (record { id = id; at = now })

-- `mark_seen` of app/state.py
unfoldable pub base_mark_seen : Update → Text → Data → Data
unfolding upsert archive_update
base_mark_seen u now d = archive_update u (record d { seen = record_seen u.id now d.seen })

-- `str(item.get("id", ""))`, and `str(item.get("id"))`.
abbrev pub pop_id : Entry → Text
pop_id e = elim e.id [ none ↦ [] | some id ↦ id ]

abbrev pub queue_id : Entry → Text
queue_id e = elim e.id [ none ↦ codes "None" | some id ↦ id ]

abbrev pub has_id : Text → Row → Bool
has_id k (entry e) = queue_id e === k
has_id k (foreign name) = false

-- `to_dict` of an update, as `Update.from_dict` reads it: `ensure_utc` is the parameter.
abbrev pub raw_medium : MediaItem → RawMedium
raw_medium m = dictionary (record {
  kind = m.kind;
  url = m.url;
  preview_url = some m.preview_url;
  bitrate = some m.bitrate;
  width = some m.width;
  height = some m.height;
  duration_ms = some m.duration_ms;
  content_type = some m.content_type;
})

abbrev pub to_dict : (Text → Option Text) → Update → Payload
to_dict ensure_utc u = record {
  moment = ensure_utc u.created_at;
  media = elements (map raw_medium u.media);
  quoted_media = elements (map raw_medium u.quoted_media);
  is_keyed = true;
  has_author_text = true;
  fields = u;
}

abbrev pub row_of : (Text → Option Text) → Bool → Update → Row
row_of ensure_utc force u =
    entry
      (record { id = some u.id; author = u.author; force = force; payload = to_dict ensure_utc u })

abbrev pub add_row : (Text → Option Text) → Bool → Update → List Row → List Row
add_row ensure_utc force u rows =
    if any (has_id u.id) rows then rows else rows ++ row_of ensure_utc force u ∷ []

abbrev pub add_rows : (Text → Option Text) → Bool → List Update → List Row → List Row
add_rows ensure_utc force [] rows = rows
add_rows ensure_utc force (u ∷ us) rows =
    add_rows ensure_utc force us (add_row ensure_utc force u rows)

-- `queue_updates` of app/state.py
unfoldable pub base_queue_updates : (Text → Option Text) → List Update → Bool → Data → Data
base_queue_updates ensure_utc us force d = record d {
  pending_delivery = add_rows ensure_utc force us d.pending_delivery;
}

-- A row that the queue no longer needs: `if update_id and self.is_seen(update_id)`.
abbrev pub is_done : Data → Entry → Bool
unfolding is_seen
is_done d e = not (is_empty (pop_id e)) && is_seen (pop_id e) d

-- How `pop_pending` ends: with a result, or with an error of a row.
pub data Popped : Type 0 where
  popped : List (Update × Bool) → Data → Popped
  raised : Data → Popped

abbrev pub add_result : ℕ → Update × Bool → List (Update × Bool) → List (Update × Bool)
add_result limit row result = if ltb (length result) limit then result ++ row ∷ [] else result

abbrev pub base_pop_from : ℕ → List Row → List Row → List (Update × Bool) → Data → Popped
unfolding is_seen
base_pop_from limit [] remaining result d =
    popped result (record d { pending_delivery = remaining })
base_pop_from limit (foreign name ∷ queue) remaining result d =
    base_pop_from limit queue remaining result d
base_pop_from limit (entry e ∷ queue) remaining result d = elim (is_done d e) [
  | true ↦ base_pop_from limit queue remaining result d
  | false ↦ elim (from_dict e.payload) [
    | update u ↦
        base_pop_from limit queue (remaining ++ entry e ∷ []) (add_result limit (u, e.force) result)
          d
    | refused ↦ base_pop_from limit queue remaining result d
    | uncaught ↦ raised d
  ]
]

-- `pop_pending` of app/state.py
unfoldable pub base_pop_pending : ℕ → Data → Popped
unfolding is_seen
base_pop_pending limit d = base_pop_from limit d.pending_delivery [] [] d
