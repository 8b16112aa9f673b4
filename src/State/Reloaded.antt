-- ===== src/State/Reloaded.antt =====
-- `Update.to_dict` of app/models.py, which the delivery queue and the archive store, and
-- `Update.from_dict`, which reads it back.
use mathlib.Core.Option
use jeonghan_daily_review_bo.Prelude.{
  Text, ◌≡◌, refl, ap, ◌∙◌, Option, none, some, List, [], ◌∷◌, map,
}
use jeonghan_daily_review_bo.Models.{MediaItem, Update, post_init}
use jeonghan_daily_review_bo.State.Rows.{
  media_items, with_media, construct, from_dict, elements, Decoded, update, refused, uncaught,
}
use jeonghan_daily_review_bo.State.Store.{raw_medium, to_dict}

media_items-map : (ms : List MediaItem) → media_items (map raw_medium ms) ≡ some ms
media_items-map [] = refl
media_items-map (m ∷ ms) = ap (Option.map (◌∷◌ m)) (media_items-map ms)

with_media-map :
    (ms : List MediaItem) (rest : List MediaItem → Decoded)
    → with_media (elements (map raw_medium ms)) rest ≡ rest ms
with_media-map ms rest =
    ap (λ x. elim x [ none ↦ uncaught | some items ↦ rest items ]) (media_items-map ms)

-- An update whose moment `ensure_utc` reads as it is written, and which `__post_init__` leaves as it is,
-- is read back from what `to_dict` writes.
pub from_dict-to_dict :
    (ensure_utc : Text → Option Text) (u : Update)
    → ensure_utc u.created_at ≡ some u.created_at
    → post_init some u ≡ some u
    → from_dict (to_dict ensure_utc u) ≡ update u
unfolding from_dict post_init
from_dict-to_dict ensure_utc u read settled =
    let p = to_dict ensure_utc u in
    let quoted : List MediaItem → Decoded = λ media.
      with_media p.quoted_media (λ quoted_media. construct p u.created_at media quoted_media) in
    let start : from_dict p ≡ with_media p.media quoted = rw (from_dict, read) refl in
    start
    ∙ with_media-map u.media quoted
    ∙ with_media-map u.quoted_media (construct p u.created_at u.media)
    ∙ ap (λ x. elim x [ none ↦ refused | some v ↦ update v ]) settled
