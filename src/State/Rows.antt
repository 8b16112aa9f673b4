-- ===== src/State/Rows.antt =====
-- The parts of the state of app/state.py and app/zero_silent_miss.py that the delivery queue uses. A
-- Python dictionary is a table in insertion order.
use mathlib.Core.Option
use jeonghan_daily_review_bo.Prelude.{
  ℕ, Text, Bool, not, Option, none, some, List, [], ◌∷◌, if◌then◌else◌,
}
use jeonghan_daily_review_bo.Models.{MediaItem, Update, Draft, post_init}

-- A dictionary of a medium, with what it has under each key; a key without a default is there.
pub record RawItem : Type 0 where
  pub kind : Text
  pub url : Text
  pub preview_url : Option Text
  pub bitrate : Option ℕ
  pub width : Option ℕ
  pub height : Option ℕ
  pub duration_ms : Option ℕ
  pub content_type : Option Text

-- An element of `media`: a dictionary, or a value of another type, with the name of the type.
pub data RawMedium : Type 0 where
  dictionary : RawItem → RawMedium
  no_dictionary : Text → RawMedium

-- What a dictionary has under `media`: a value with elements (the empty list, where the key is
-- missing), or one that a loop cannot go over.
pub data RawMedia : Type 0 where
  elements : List RawMedium → RawMedia
  not_iterable : RawMedia

-- A dictionary that `Update.from_dict` is called with: what `ensure_utc` makes of its `created_at`,
-- nothing for a ValueError or a TypeError; whether it has the keys that `Update` needs and no other one,
-- and a text as its `author`; and what it has under the other keys.
pub record Payload : Type 0 where
  pub moment : Option Text
  pub media : RawMedia
  pub quoted_media : RawMedia
  pub is_keyed : Bool
  pub has_author_text : Bool
  pub fields : Update

-- What `Update.from_dict` makes of a dictionary: an update, an error that its callers catch (TypeError
-- or ValueError), or one that they do not (AttributeError).
pub data Decoded : Type 0 where
  update : Update → Decoded
  refused uncaught : Decoded

abbrev pub or_zero : Option ℕ → ℕ
or_zero none = 0
or_zero (some n) = n

abbrev pub or_empty : Option Text → Text
or_empty none = []
or_empty (some s) = s

-- `MediaItem.from_dict`, nothing for the AttributeError of `value.get`.
abbrev pub media_item : RawMedium → Option MediaItem
media_item (no_dictionary name) = none
media_item (dictionary raw) = some (record {
  kind = raw.kind;
  url = raw.url;
  preview_url = or_empty raw.preview_url;
  bitrate = or_zero raw.bitrate;
  width = or_zero raw.width;
  height = or_zero raw.height;
  duration_ms = or_zero raw.duration_ms;
  content_type = or_empty raw.content_type;
})

abbrev pub media_items : List RawMedium → Option (List MediaItem)
media_items [] = some []
media_items (raw ∷ raws) =
    let rest = media_items raws in
    elim (media_item raw) [ none ↦ none | some m ↦ Option.map (◌∷◌ m) rest ]

-- `[MediaItem.from_dict(item) for item in ...]`, before the rest of `from_dict`.
abbrev pub with_media : RawMedia → (List MediaItem → Decoded) → Decoded
with_media not_iterable rest = refused
with_media (elements raws) rest = elim (media_items raws) [ none ↦ uncaught | some ms ↦ rest ms ]

-- `cls(**data)` with `__post_init__`; `created_at` is a moment already, which `ensure_utc` leaves.
abbrev pub construct : Payload → Text → List MediaItem → List MediaItem → Decoded
unfolding post_init
construct p moment media quoted_media =
    if not p.is_keyed
    then refused
    else if not p.has_author_text
    then uncaught
    else elim (post_init some
        (record p.fields { created_at = moment; media = media; quoted_media = quoted_media })) [
          | none ↦ refused
          | some u ↦ update u
        ]

-- `Update.from_dict`
unfoldable pub from_dict : Payload → Decoded
unfolding post_init
from_dict p = elim p.moment [
  | none ↦ refused
  | some moment ↦
      with_media p.media
        (λ media. with_media p.quoted_media (λ quoted_media. construct p moment media quoted_media))
]

-- A dictionary in `pending_delivery`: its `id`, if it has one, its `author` and `force`, and what
-- `Update.from_dict` is called with.
pub record Entry : Type 0 where
  pub id : Option Text
  pub author : Text
  pub force : Bool
  pub payload : Payload

-- A row of `pending_delivery`; a row that is no dictionary has the name of its type.
pub data Row : Type 0 where
  entry : Entry → Row
  foreign : Text → Row

-- An entry of `seen`, of `archive`, and, below, of `telegram_failures`.
pub record Seen : Type 0 where
  pub id : Text
  pub at : Text

pub record Archived : Type 0 where
  pub id : Text
  pub value : Update

-- An entry of `sessions`, with the rest of its dictionary as one text, and of `awaiting`.
pub record Session : Type 0 where
  pub id : Text
  pub payload : Text
  pub created_at : Text

pub record Awaited : Type 0 where
  pub user_id : Text
  pub kind : Text

pub record Failure : Type 0 where
  pub key : Text
  pub count : ℕ
  pub last_failure_at : Text
  pub error_type : Text

-- An entry of `quarantined_delivery`.
pub record Quarantined : Type 0 where
  pub quarantined_at : Text
  pub reason : Text
  pub update_id : Text
  pub source : Text
  pub row : Row

-- An entry of `update_lifecycle`.
pub record Lifecycle : Type 0 where
  pub update_id : Text
  pub source : Text
  pub event_id : Text
  pub retrieval_attempt_id : Text
  pub retrieval_status : Text
  pub media_status : Text
  pub media_asset_ids : Text
  pub translation_status : Text
  pub translation_job_id : Text
  pub delivery_key : Text
  pub delivery_receipt_id : ℕ
  pub error_class : Text
  pub reason : Text
  pub retry_count : ℕ
  pub status : Text
  pub stage : Text
  pub updated_at : Text

pub record Data : Type 0 where
  pub seen : List Seen
  pub archive : List Archived
  pub sessions : List Session
  pub drafts : List Draft
  pub awaiting : List Awaited
  pub pending_delivery : List Row
  pub telegram_failures : List Failure
  pub last_auto_run : Text
  pub last_auto_attempt : Text
  pub fresh_start_since : Text
  pub fresh_start_run_id : Text
  pub fresh_start_tokens : List Text
  pub update_lifecycle : List Lifecycle
  pub quarantined_delivery : List Quarantined
