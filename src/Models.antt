-- ===== src/Models.antt =====
-- The data classes of app/models.py. A moment is its ISO text.
use jeonghan_daily_review_bo.Prelude.{
  ℕ, Text, codes, Bool, not, ◌&&◌, Option, none, some, List, ◌++◌, is_empty, if◌then◌else◌,
}
use jeonghan_daily_review_bo.Handles.{strip, lstrip_at}

pub record MediaItem : Type 0 where
  pub kind : Text
  pub url : Text
  pub preview_url : Text
  pub bitrate : ℕ
  pub width : ℕ
  pub height : ℕ
  pub duration_ms : ℕ
  pub content_type : Text

pub record Update : Type 0 where
  pub id : Text
  pub url : Text
  pub author : Text
  pub author_name : Text
  pub text : Text
  pub created_at : Text
  pub conversation_id : Text
  pub reply_to_id : Text
  pub quoted_id : Text
  pub quoted_text : Text
  pub quoted_author : Text
  pub quoted_media : List MediaItem
  pub lang : Text
  pub media : List MediaItem
  pub category : Text
  pub event_key : Text
  pub event_title : Text
  pub source_priority : ℕ
  pub is_reply : Bool
  pub raw_query : Text

-- `Update.__post_init__`; `ensure_utc` is the parameter, nothing where it raises.
unfoldable pub post_init : (Text → Option Text) → Update → Option Update
unfolding strip lstrip_at
post_init ensure_utc u = elim (ensure_utc u.created_at) [
  | none ↦ none
  | some moment ↦
      let author = strip (lstrip_at u.author) in
      some (record u {
        created_at = moment;
        author = author;
        conversation_id = if is_empty u.conversation_id then u.id else u.conversation_id;
        url =
            if is_empty u.url && not (is_empty author) && not (is_empty u.id)
            then codes "https://x.com/" ++ (author ++ (codes "/status/" ++ u.id))
            else u.url;
      })
]

pub record Draft : Type 0 where
  pub id : Text
  pub update_id : Text
  pub event_key : Text
  pub caption : Text
  pub mode : Text
  pub telegram_message_id : Option ℕ
  pub created_at : Text
