-- ===== src/Review/Shown.antt =====
-- What `snapshot` of app/source_first_queue.py shows: the counts of each source, and the place of the
-- active one.
use jeonghan_daily_review_bo.Prelude.{
  ℕ, suc, ◌+◌, min, Text, ◌≡◌, refl, ap, ◌⊎◌, inl, inr, Bool, true, false, not, ◌&&◌, List, [], ◌∷◌,
  ◌++◌, any, is_empty, select, length, ◌===◌, ltb, arith, Bool-cases, if◌then◌else◌,
}
use jeonghan_daily_review_bo.Handles.{queue_handle}
use jeonghan_daily_review_bo.Review.Rounds.{
  Draft, Lane, Item, Round, total_of, is_waiting, pending_of, in_order,
}
use jeonghan_daily_review_bo.Review.Snapshot.{
  Entry, Position, nowhere, entry_of, entries_of, position_from, snapshot,
}

-- The number of the current item: the one after those that are done, or the last one.
abbrev pub number_of : Entry → ℕ
number_of e = if ltb 0 e.pending_items then e.done_items + 1 else e.total_items

-- The place of the first entry of a source, counted from `index`: nowhere, if there is none.
abbrev pub IsPlaced : ℕ → Text → List Entry → Position → Type 0
IsPlaced index s es pos =
    ((any (λ e. e.source === s) es ≡ false) × (pos ≡ nowhere))
    ⊎ ((before : List Entry) × (e : Entry) × (after : List Entry) × (es ≡ before ++ (e ∷ after))
        × (any (λ x. x.source === s) before ≡ false)
        × ((e.source === s) ≡ true)
        × (pos.active_position ≡ index + length before)
        × (pos.current_item_number ≡ number_of e)
        × (pos.current_item_total ≡ e.total_items))

module _ (casefold : Text → Text) (latest : Text → Text × Text) (inbox : List Draft) where
  -- An item of the source whose draft does not wait in the inbox.
  abbrev pub is_decided : Text → Item → Bool
  is_decided s i = i.source === s && not (is_waiting inbox s i)

  -- The entry of a lane counts the items of its source: those that wait, those that are decided, and
  -- all of them.
  abbrev pub IsCounted : Round → Lane → Entry → Type 0
  IsCounted r l e =
      (e.source ≡ l.source)
      × (e.pending_items ≡ length (select (is_waiting inbox l.source) r.items))
      × (e.done_items ≡ length (select (is_decided l.source) r.items))
      × (e.total_items ≡ e.done_items + e.pending_items)

  -- An entry for each lane, in this order.
  abbrev pub AreCounted : Round → List Lane → List Entry → Type 0
  AreCounted r [] [] = Unit
  AreCounted r [] (e ∷ es) = ⊥
  AreCounted r (l ∷ ls) [] = ⊥
  AreCounted r (l ∷ ls) (e ∷ es) = IsCounted r l e × AreCounted r ls es

  decided_and_waiting :
      (s : Text) (is : List Item)
      → length (select (λ i. i.source === s) is)
        ≡ length (select (is_decided s) is) + length (select (is_waiting inbox s) is)
  unfolding is_waiting
  decided_and_waiting s [] = omega arith
  decided_and_waiting s (i ∷ is) = ground (arith, decided_and_waiting s is)

  entry_of-IsCounted : (r : Round) (l : Lane) → IsCounted r l (entry_of casefold latest inbox r l)
  unfolding entry_of total_of pending_of
  entry_of-IsCounted r l =
      let both = decided_and_waiting l.source r.items in
      (refl, refl, omega (arith, both), omega (arith, both))

  entries_of-AreCounted :
      (r : Round) (ls : List Lane) → AreCounted r ls (entries_of casefold latest inbox r ls)
  unfolding entries_of
  entries_of-AreCounted r [] = tt
  entries_of-AreCounted r (l ∷ ls) = (entry_of-IsCounted r l, entries_of-AreCounted r ls)

  found-number :
      (r : Round) (l : Lane) (e : Entry)
      → IsCounted r l e
      → (if ltb 0 e.pending_items then min e.total_items (e.done_items + 1) else e.total_items)
        ≡ number_of e
  found-number r l e h = ground (arith, h.3)

  position_from-IsPlaced :
      (index : ℕ) (s : Text) (r : Round) (ls : List Lane) (es : List Entry)
      → AreCounted r ls es
      → IsPlaced index s es (position_from casefold latest inbox index s es)
  unfolding position_from
  position_from-IsPlaced index s r [] [] h = inl (refl, refl)
  position_from-IsPlaced index s r [] (e ∷ es) h = absurd h
  position_from-IsPlaced index s r (l ∷ ls) [] h = absurd h
  position_from-IsPlaced index s r (l ∷ ls) (e ∷ es) h = elim (Bool-cases (e.source === s)) [
    | inl t ↦ inr (
      [],
      e,
      es,
      refl,
      refl,
      t,
      rw (position_from, t) (omega arith),
      rw (position_from, t) (found-number r l e h.0),
      rw (position_from, t) refl,
    )
    | inr f ↦
        rw (position_from, f)
          (elim (position_from-IsPlaced (suc index) s r ls es h.1) [
            | inl (none_here, out) ↦ inl (ground arith, out)
            | inr (before, x, after, whole, none_before, here, place, number, total) ↦ inr (
              e ∷ before,
              x,
              after,
              ap (◌∷◌ e) whole,
              ground arith,
              here,
              omega (arith, place),
              number,
              total,
            )
          ])
  ]

  -- In a snapshot there is an entry for each source of the round, in order, which counts the items of
  -- the source that wait in the inbox, those that are decided, and both; the position is that of the
  -- first entry of the active source, counted from 1, if there is one: with its total, and with the
  -- number of the item after those that are decided, or the total, if none waits.
  pub snapshot-IsPlaced :
      (r : Round)
      → AreCounted r (in_order r.lanes) (snapshot casefold latest inbox r).sources
        × (((is_empty (queue_handle casefold r.active_source) ≡ true)
              × ((snapshot casefold latest inbox r).position ≡ nowhere))
            ⊎ IsPlaced 1
                (queue_handle casefold r.active_source)
                (snapshot casefold latest inbox r).sources
                (snapshot casefold latest inbox r).position)
  unfolding snapshot
  snapshot-IsPlaced r =
      let counted = entries_of-AreCounted r (in_order r.lanes) in
      let s = queue_handle casefold r.active_source in
      (
        counted,
        elim (Bool-cases (is_empty s)) [
          | inl t ↦ inl (t, rw (snapshot, t) refl)
          | inr f ↦
              rw (snapshot, f)
                (inr (
                  position_from-IsPlaced 1 s r (in_order r.lanes)
                    (entries_of casefold latest inbox r (in_order r.lanes)) counted))
        ],
      )
