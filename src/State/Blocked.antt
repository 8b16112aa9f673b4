-- ===== src/State/Blocked.antt =====
-- A row whose decoding raises an error that `pop_pending` does not catch: `MediaItem.from_dict` of
-- app/models.py calls `get` on each medium, so that a medium that is no dictionary is an AttributeError.
use jeonghan_daily_review_bo.Prelude.{
  ℕ, Text, ◌≡◌, refl, sym, ap, ◌∙◌, subst, inl, inr, Bool, true, false, not, ◌&&◌, ◌||◌, Option,
  Option-cases, none, some, List, [], ◌∷◌, ◌++◌, length, any, ltb, arith, Bool-cases, if◌then◌else◌,
}
use jeonghan_daily_review_bo.Prelude.Table.{lookup}
use jeonghan_daily_review_bo.Models.{MediaItem, Update, post_init}
use jeonghan_daily_review_bo.State.Rows.{
  RawMedium, dictionary, no_dictionary, RawMedia, elements, not_iterable, Payload, Decoded,
  with_media, construct, media_items, from_dict, uncaught, Entry, Row, entry, foreign, Data,
}
use jeonghan_daily_review_bo.State.Lifecycle.{record_update_state, quarantine_pending}
use jeonghan_daily_review_bo.State.Store.{is_seen, is_done, Popped, popped, raised, add_result}
use jeonghan_daily_review_bo.State.Queue.{
  quarantine_row, quarantine_foreign, popped_record, pop_from, pop_pending,
}
use jeonghan_daily_review_bo.State.Pending.{
  blocks, after, Decoded-cases, from_done, from_kept, from_refused,
}

-- A call that raises, and leaves the queue and the seen updates as they are.
abbrev pub IsRaised : Data → Popped → Type 0
IsRaised d (popped result d_after) = ⊥
IsRaised d (raised d_after) =
    (d_after.pending_delivery ≡ d.pending_delivery) × (d_after.seen ≡ d.seen)

-- A medium that is no dictionary.
abbrev pub is_stray : RawMedium → Bool
is_stray (dictionary raw) = false
is_stray (no_dictionary name) = true

abbrev pub has_stray : RawMedia → Bool
has_stray (elements raws) = any is_stray raws
has_stray not_iterable = false

abbrev pub is_iterable : RawMedia → Bool
is_iterable (elements raws) = true
is_iterable not_iterable = false

-- A dictionary that has a moment, and a stray medium, of its own or, where its own media are a list, of
-- the quoted post.
abbrev pub is_stuck : Payload → Bool
is_stuck p =
    elim p.moment [ none ↦ false | some moment ↦ true ]
    && (has_stray p.media || is_iterable p.media && has_stray p.quoted_media)

-- A row of an update that is not seen, which has a stray medium.
abbrev pub is_stuck_row : Data → Row → Bool
unfolding is_seen
is_stuck_row d (entry e) = not (is_done d e) && is_stuck e.payload
is_stuck_row d (foreign name) = false

media_items-stray : (raws : List RawMedium) → any is_stray raws ≡ true → media_items raws ≡ none
media_items-stray [] h = absurd (ground arith)
media_items-stray (no_dictionary name ∷ raws) h = refl
media_items-stray (dictionary raw ∷ raws) h = rw (media_items-stray raws h) refl

module _ (media : RawMedia) (rest : List MediaItem → Decoded) where
  with_media-stray : has_stray media ≡ true → with_media media rest ≡ uncaught
  with_media-stray h =
      elim media as (λ m. has_stray m ≡ true → with_media m rest ≡ uncaught) [
        | elements raws ↦
            λ t. ap (λ x. elim x [ none ↦ uncaught | some ms ↦ rest ms ]) (media_items-stray raws t)
        | not_iterable ↦ λ t. absurd (ground (arith, t))
      ]
        h

  loaded-uncaught :
      ((ms : List MediaItem) → rest ms ≡ uncaught)
      → (loaded : Option (List MediaItem))
      → elim loaded as (λ x. Decoded) [ none ↦ uncaught | some ms ↦ rest ms ] ≡ uncaught
  loaded-uncaught later none = refl
  loaded-uncaught later (some ms) = later ms

  with_media-later :
      ((ms : List MediaItem) → rest ms ≡ uncaught)
      → is_iterable media ≡ true
      → with_media media rest ≡ uncaught
  with_media-later later h =
      elim media as (λ m. is_iterable m ≡ true → with_media m rest ≡ uncaught) [
        | elements raws ↦ λ t. loaded-uncaught later (media_items raws)
        | not_iterable ↦ λ t. absurd (ground (arith, t))
      ]
        h

-- `Update.from_dict` raises an AttributeError for it.
from_dict-stuck : (p : Payload) → is_stuck p ≡ true → from_dict p ≡ uncaught
unfolding from_dict post_init
from_dict-stuck p h = elim (Option-cases p.moment) [
  | inl e ↦ absurd (ground (arith, e, h))
  | inr (moment, e) ↦
      let quoted : List MediaItem → Decoded = λ media.
        with_media p.quoted_media (λ quoted_media. construct p moment media quoted_media) in
      let same : from_dict p ≡ with_media p.media quoted = rw (from_dict, e) refl in
      same ∙ elim (Bool-cases (has_stray p.media)) [
        | inl t ↦ with_media-stray p.media quoted t
        | inr f ↦
            with_media-later p.media quoted
              (λ media.
                with_media-stray p.quoted_media (construct p moment media)
                  (ground (arith, e, h, f)))
              (ground (arith, e, h, f))
      ]
]

stuck-blocks :
    (d : Data) (rows : List Row) → any (is_stuck_row d) rows ≡ true → any (blocks d) rows ≡ true
unfolding is_seen
stuck-blocks d [] h = h
stuck-blocks d (foreign name ∷ rows) h = stuck-blocks d rows h
stuck-blocks d (entry e ∷ rows) h = ground (arith, from_dict-stuck e.payload, stuck-blocks d rows)

raised-stuck :
    (d : Data) (end : Popped)
    → any (is_stuck_row d) d.pending_delivery ≡ true
    → IsRaised d end
    → any (is_stuck_row (after end)) (after end).pending_delivery ≡ true
unfolding is_seen
raised-stuck d (popped result d_after) stuck h = absurd h
raised-stuck d (raised d_after) stuck h =
    subst
      (λ seen. any (is_stuck_row (record d_after { seen = seen })) d_after.pending_delivery ≡ true)
      (sym h.1) (subst (λ rows. any (is_stuck_row d) rows ≡ true) (sym h.0) stuck)

module _ (is_alnum : ℕ → Bool) (correlation : Row → Text) (now : Text) where
  from_uncaught :
      (e : Entry) (limit : ℕ) (queue remaining : List Row) (result : List (Update × Bool))
      (d : Data)
      → is_done d e ≡ false
      → from_dict e.payload ≡ uncaught
      → pop_from is_alnum correlation now limit (entry e ∷ queue) remaining result d ≡ raised d
  unfolding is_seen quarantine_pending record_update_state lookup
  from_uncaught e limit queue remaining result d f q = ground arith

  pop_from-IsRaised :
      (limit : ℕ) (queue remaining : List Row) (result : List (Update × Bool)) (d : Data)
      → any (blocks d) queue ≡ true
      → IsRaised d (pop_from is_alnum correlation now limit queue remaining result d)
  unfolding is_seen quarantine_pending record_update_state lookup
  pop_from-IsRaised limit [] remaining result d stuck = absurd (ground arith)
  pop_from-IsRaised limit (foreign name ∷ queue) remaining result d stuck =
      pop_from-IsRaised limit queue remaining result
        (quarantine_foreign is_alnum correlation now name d) stuck
  pop_from-IsRaised limit (entry e ∷ queue) remaining result d stuck =
      elim (Bool-cases (is_done d e)) [
        | inl t ↦
            rw (from_done is_alnum correlation now e limit queue remaining result d t)
              (pop_from-IsRaised limit queue remaining result d (ground arith))
        | inr f ↦ elim (Decoded-cases (from_dict e.payload)) [
          | inl (u, q) ↦
              let rest : any (blocks d) queue ≡ true = ground arith in
              rw (from_kept is_alnum correlation now e limit queue remaining result d u f q)
                (elim (ltb (length result) limit)
                  as (λ x. IsRaised d (
                    pop_from is_alnum correlation now limit queue (remaining ++ entry e ∷ [])
                      (add_result limit (u, e.force) result)
                      (if x then popped_record is_alnum now u d else d))) [
                        | true ↦
                            pop_from-IsRaised limit queue (remaining ++ entry e ∷ [])
                              (add_result limit (u, e.force) result)
                              (popped_record is_alnum now u d) rest
                        | false ↦
                            pop_from-IsRaised limit queue (remaining ++ entry e ∷ [])
                              (add_result limit (u, e.force) result) d rest
                      ])
          | inr (inl q) ↦
              rw (from_refused is_alnum correlation now e limit queue remaining result d f q) (
                pop_from-IsRaised limit queue remaining result
                  (quarantine_row is_alnum correlation now e d) (ground arith))
          | inr (inr q) ↦ rw (from_uncaught e limit queue remaining result d f q) (refl, refl)
        ]
      ]

  -- A row whose decoding raises such an error stops `pop_pending`.
  pub pop_pending-blocked :
      (limit : ℕ) (d : Data)
      → any (blocks d) d.pending_delivery ≡ true
      → IsRaised d (pop_pending is_alnum correlation now limit d)
  unfolding pop_pending is_seen quarantine_pending record_update_state lookup
  pop_pending-blocked limit d stuck = pop_from-IsRaised limit d.pending_delivery [] [] d stuck

  -- Where the queue has a row of an update that is not seen, whose `created_at` is read and of whose
  -- media, or of whose quoted media (its own being a list), one is no dictionary, `pop_pending` raises,
  -- whatever its limit, and leaves the queue and the seen updates; the row is there for the next call.
  pub pop_pending-IsRaised :
      (limit : ℕ) (d : Data)
      → any (is_stuck_row d) d.pending_delivery ≡ true
      → IsRaised d (pop_pending is_alnum correlation now limit d)
        × (any
              (is_stuck_row (after (pop_pending is_alnum correlation now limit d)))
              (after (pop_pending is_alnum correlation now limit d)).pending_delivery
            ≡ true)
  unfolding is_seen
  pop_pending-IsRaised limit d stuck =
      let raises = pop_pending-blocked limit d (stuck-blocks d d.pending_delivery stuck) in
      (raises, raised-stuck d (pop_pending is_alnum correlation now limit d) stuck raises)
