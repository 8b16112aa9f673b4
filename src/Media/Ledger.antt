-- ===== src/Media/Ledger.antt =====
-- `MediaDeliveryLedger` of app/media_delivery.py. A moment is a number of microseconds, `iso` its text
-- from `isoformat`; the digest is a parameter. An identity that is not there is the empty text.
use jeonghan_daily_review_bo.Prelude.{
  ℕ, ◌-◌, ◌*◌, max, Text, codes, ◌===◌, text_le, text_lt, Bool, not, ◌&&◌, List, [], ◌∷◌, ◌++◌,
  select, any, is_empty, if◌then◌else◌,
}
use jeonghan_daily_review_bo.Prelude.Table.{upsert}
use jeonghan_daily_review_bo.Handles.{strip}
use jeonghan_daily_review_bo.Models.{MediaItem}

-- A row of `telegram_media_delivery`.
pub record Receipt : Type 0 where
  pub identity : Text
  pub kind : Text
  pub update_id : Text
  pub delivered_at : Text

module _ (digest : Text → Text) (cache_version : Text) where
  abbrev pub newline : Text
  newline = 10 ∷ []

  unfoldable pub url_identity : MediaItem → Text
  url_identity m =
      let payload = m.kind ++ (newline ++ m.url) in
      codes "url:"
      ++ digest
          (if m.kind === codes "video" then cache_version ++ (newline ++ payload) else payload)

  unfoldable pub telegram_identity : Text → Text
  unfolding strip
  telegram_identity file_unique_id =
      if is_empty (strip file_unique_id) then [] else codes "telegram:" ++ strip file_unique_id

  -- `dict.fromkeys`
  abbrev pub unique : List Text → List Text
  unique [] = []
  unique (x ∷ xs) = x ∷ select (λ y. not (y === x)) (unique xs)

  abbrev pub given : Text → List Text
  given t = if is_empty t then [] else t ∷ []

  unfoldable pub identities_for : MediaItem → Text → Text → List Text
  unfolding url_identity telegram_identity
  identities_for m content_identity file_unique_id =
      unique (url_identity m ∷ (given content_identity ++ given (telegram_identity file_unique_id)))

abbrev pub has_text : Text → List Text → Bool
has_text t = any (λ a. a === t)

-- The identities that are not empty.
abbrev pub named : List Text → List Text
named = select (λ t. not (is_empty t))

abbrev pub microseconds_per_hour : ℕ
microseconds_per_hour = 3600000000

abbrev pub max_age : ℕ
max_age = 30 * 24 * microseconds_per_hour

module _ (iso : ℕ → Text) where
  unfoldable pub any_recent : ℕ → List Text → ℕ → List Receipt → Bool
  unfolding text_le
  any_recent dedup_hours identities now rows =
      any
        (λ r.
          has_text r.identity (named identities)
          && text_le (iso (now - max 1 dedup_hours * microseconds_per_hour)) r.delivered_at)
        rows

  abbrev pub receipt : Text → Text → ℕ → Text → Receipt
  receipt kind update_id now identity = record {
    identity = identity;
    kind = kind;
    update_id = update_id;
    delivered_at = iso now;
  }

  abbrev pub mark_one : Text → Text → ℕ → Text → List Receipt → List Receipt
  mark_one kind update_id now identity rows =
      upsert Receipt.identity identity (receipt kind update_id now identity)
        (λ _. receipt kind update_id now identity) rows

  abbrev pub mark_all : Text → Text → ℕ → List Text → List Receipt → List Receipt
  unfolding upsert
  mark_all kind update_id now [] rows = rows
  mark_all kind update_id now (k ∷ ks) rows =
      mark_all kind update_id now ks (mark_one kind update_id now k rows)

  unfoldable pub mark_delivered : List Text → Text → Text → ℕ → List Receipt → List Receipt
  unfolding upsert
  mark_delivered identities kind update_id now rows =
      mark_all kind update_id now (named identities) rows

  unfoldable pub prune : ℕ → List Receipt → List Receipt
  unfolding text_le
  prune now rows = select (λ r. not (text_lt r.delivered_at (iso (now - max_age)))) rows
