-- ===== src/State/Queue.antt =====
-- The calls that `_install_state_lifecycle` of app/zero_silent_miss.py puts in place of those of
-- `StateStore`: the delivery queue, with a lifecycle record of each update. `now` is the ISO text of the clock,
-- `retrieval` is `_LAST_RETRIEVAL_BY_UPDATE`, an attempt and its status, and `correlation` a digest of a
-- row.
use jeonghan_daily_review_bo.Prelude.{
  ℕ, Text, codes, ◌===◌, text_le, Bool, true, false, not, ◌&&◌, ◌||◌, Option, none, some, List, [],
  ◌∷◌, ◌++◌, length, select, is_empty, ltb, if◌then◌else◌,
}
use jeonghan_daily_review_bo.Prelude.Table.{lookup}
use jeonghan_daily_review_bo.Prelude.Sort.{sort}
use jeonghan_daily_review_bo.Models.{Update, Draft}
use jeonghan_daily_review_bo.State.Rows.{
  from_dict, update, refused, uncaught, Entry, Row, entry, foreign, Lifecycle, Data,
}
use jeonghan_daily_review_bo.State.Lifecycle.{
  plain_change, no_lifecycle, or_default, record_update_state, quarantine_pending,
}
use jeonghan_daily_review_bo.State.Store.{
  base_mark_seen, is_seen, pop_id, base_queue_updates, is_done, Popped, popped, raised, add_result,
  is_seen,
}

abbrev pub draft_le : Draft → Draft → Bool
unfolding text_le
draft_le a b = text_le a.created_at b.created_at

abbrev pub last_draft : List Draft → Option Draft
last_draft [] = none
last_draft (x ∷ []) = some x
last_draft (x ∷ y ∷ xs) = last_draft (y ∷ xs)

-- The latest draft of an update.
unfoldable pub latest_draft : Text → List Draft → Option Draft
unfolding text_le
latest_draft id drafts = last_draft (sort draft_le (select (λ a. a.update_id === id) drafts))

abbrev pub receipt_of : Option Draft → ℕ
receipt_of none = 0
receipt_of (some a) = elim a.telegram_message_id [ none ↦ 0 | some id ↦ id ]

abbrev pub delivery_key_of : Option Draft → Text → Text
delivery_key_of none key = key
delivery_key_of (some a) key =
    if is_empty key && not (is_empty a.id) then codes "draft:" ++ a.id else key

abbrev pub event_id_of : Option Draft → Text → Text
event_id_of none event = event
event_id_of (some a) event = or_default event a.event_key

abbrev pub is_media_failed : Text → Bool
is_media_failed status = status === codes "terminal_failed" || status === codes "partial_failed"

abbrev pub lifecycle_record : Text → Data → Lifecycle
unfolding lookup
lifecycle_record id d = elim (lookup Lifecycle.update_id id d.update_lifecycle) [
  | none ↦ no_lifecycle id
  | some l ↦ l
]

module _ (is_alnum : ℕ → Bool) (now : Text) where
  abbrev pub queued_record : Text × Text → Update → Data → Data
  unfolding record_update_state
  queued_record (attempt, status) u =
      record_update_state is_alnum u.id (some u.author)
        (record (plain_change (codes "pending_delivery") (codes "queue")) {
          retrieval_attempt_id = attempt;
          retrieval_status = status;
        })
        now

  abbrev pub queue_records : (Text → Text × Text) → List Update → Data → Data
  unfolding record_update_state is_seen
  queue_records retrieval [] d = d
  queue_records retrieval (u ∷ us) d =
      queue_records retrieval us (if is_seen u.id d then d else queued_record (retrieval u.id) u d)

  unfoldable pub queue_updates :
      (Text → Option Text) → (Text → Text × Text) → List Update → Bool → Data → Data
  unfolding record_update_state is_seen base_queue_updates
  queue_updates ensure_utc retrieval us force d =
      queue_records retrieval us (base_queue_updates ensure_utc us force d)

  abbrev pub popped_record : Update → Data → Data
  unfolding record_update_state lookup
  popped_record u d =
      let current = lifecycle_record u.id d in
      queued_record (current.retrieval_attempt_id, current.retrieval_status) u d

  -- `mark_seen` of app/zero_silent_miss.py
  unfoldable pub mark_seen : Update → Data → Data
  unfolding base_mark_seen record_update_state lookup latest_draft
  mark_seen u d =
      let current = lifecycle_record u.id d in
      let draft = latest_draft u.id d.drafts in
      let media_failed = is_media_failed current.media_status in
      record_update_state is_alnum u.id (some u.author)
        (record (plain_change
          (if media_failed then codes "delivered_text_media_failed" else codes "delivered")
          (codes "telegram_delivery")) {
            event_id = event_id_of draft current.event_id;
            media_status = current.media_status;
            translation_status = or_default current.translation_status (codes "success");
            translation_job_id = current.translation_job_id;
            delivery_key = delivery_key_of draft current.delivery_key;
            delivery_receipt_id = receipt_of draft;
            reason = if media_failed then codes "media_unavailable" else [];
          })
        now (base_mark_seen u now d)

module _ (is_alnum : ℕ → Bool) (correlation : Row → Text) (now : Text) where
  abbrev pub quarantine_row : Entry → Data → Data
  unfolding quarantine_pending
  quarantine_row e =
      quarantine_pending is_alnum correlation (entry e) (codes "invalid_pending_payload") (pop_id e)
        e.author now

  abbrev pub quarantine_foreign : Text → Data → Data
  unfolding quarantine_pending
  quarantine_foreign name =
      quarantine_pending is_alnum correlation (foreign name) (codes "invalid_pending_row_type") []
        [] now

  abbrev pub pop_from : ℕ → List Row → List Row → List (Update × Bool) → Data → Popped
  unfolding is_seen quarantine_pending record_update_state lookup
  pop_from limit [] remaining result d = popped result (record d { pending_delivery = remaining })
  pop_from limit (foreign name ∷ queue) remaining result d =
      pop_from limit queue remaining result (quarantine_foreign name d)
  pop_from limit (entry e ∷ queue) remaining result d = elim (is_done d e) [
    | true ↦ pop_from limit queue remaining result d
    | false ↦ elim (from_dict e.payload) [
      | update u ↦
          pop_from limit queue (remaining ++ entry e ∷ []) (add_result limit (u, e.force) result)
            (if ltb (length result) limit then popped_record is_alnum now u d else d)
      | refused ↦ pop_from limit queue remaining result (quarantine_row e d)
      | uncaught ↦ raised d
    ]
  ]

  -- `pop_pending` of app/zero_silent_miss.py
  unfoldable pub pop_pending : ℕ → Data → Popped
  unfolding is_seen quarantine_pending record_update_state lookup
  pop_pending limit d = pop_from limit d.pending_delivery [] [] d
