-- ===== src/State/Kept.antt =====
-- The quarantine of app/zero_silent_miss.py: which rows of the queue `pop_pending` puts into it.
use mathlib.Core.List.{append_assoc, append-nil}
use jeonghan_daily_review_bo.Prelude.{
  ℕ, zero, suc, ◌-◌, ◌≤◌, Text, ◌≡◌, refl, sym, ap, ◌∙◌, subst, ◌⊎◌, inl, inr, Bool, true, false,
  not, ◌&&◌, List, [], ◌∷◌, ◌++◌, map, length, length-append, length-drop, drop, select, any, leb,
  ltb, arith, Bool-cases, if◌then◌else◌,
}
use jeonghan_daily_review_bo.Prelude.Table.{lookup}
use jeonghan_daily_review_bo.Models.{Update}
use jeonghan_daily_review_bo.State.Rows.{
  from_dict, Decoded, update, refused, uncaught, Entry, Row, entry, foreign, Quarantined, Data,
}
use jeonghan_daily_review_bo.State.Lifecycle.{
  record_update_state, quarantine_pending, quarantine_limit, last_items,
}
use jeonghan_daily_review_bo.State.Store.{is_seen, is_done, add_result}
use jeonghan_daily_review_bo.State.Queue.{
  quarantine_row, quarantine_foreign, popped_record, pop_from, pop_pending,
}
use jeonghan_daily_review_bo.State.Pending.{
  blocks, after, Decoded-cases, from_done, from_kept, from_refused,
}

module _ {ℓ} {A : Type ℓ} (n : ℕ) where
  pub last_items-short : (xs : List A) → length xs ≤ n → last_items n xs ≡ xs
  last_items-short xs h = ap (λ k. drop k xs) none_dropped
    where
      none_dropped : length xs - n ≡ 0
      none_dropped = omega arith

  pub last_items-cons :
      (x : A) (xs : List A) → n ≤ length xs → last_items n (x ∷ xs) ≡ last_items n xs
  last_items-cons x xs h = ap (λ k. drop k (x ∷ xs)) more
    where
      more : suc (length xs) - n ≡ suc (length xs - n)
      more = omega arith

  last_items-append :
      (xs ys : List A) → last_items n (last_items n xs ++ ys) ≡ last_items n (xs ++ ys)
  last_items-append [] ys = ap (λ zs. last_items n (zs ++ ys)) (last_items-short [] (omega arith))
  last_items-append (x ∷ xs) ys = elim (Bool-cases (leb n (length xs))) [
    | inl t ↦
        ap (λ zs. last_items n (zs ++ ys)) (last_items-cons x xs (ground arith))
        ∙ last_items-append xs ys
        ∙ sym (last_items-cons x (xs ++ ys) (ground (arith, length-append xs ys)))
    | inr f ↦ ap (λ zs. last_items n (zs ++ ys)) (last_items-short (x ∷ xs) (ground arith))
  ]

  length-last_items : (xs : List A) → length (last_items n xs) ≤ n
  length-last_items xs = omega (arith, length-drop (length xs - n) xs)

module _ {ℓ κ} {A : Type ℓ} {B : Type κ} (f : A → B) where
  map-drop : (n : ℕ) (xs : List A) → map f (drop n xs) ≡ drop n (map f xs)
  map-drop zero xs = refl
  map-drop (suc n) [] = refl
  map-drop (suc n) (x ∷ xs) = map-drop n xs

  pub length-map : (xs : List A) → length (map f xs) ≡ length xs
  length-map [] = refl
  length-map (x ∷ xs) = ap suc (length-map xs)

  map-snoc : (xs : List A) (x : A) → map f (xs ++ x ∷ []) ≡ map f xs ++ f x ∷ []
  map-snoc [] x = refl
  map-snoc (y ∷ xs) x = ap (◌∷◌ (f y)) (map-snoc xs x)

  map-last_items : (n : ℕ) (xs : List A) → map f (last_items n xs) ≡ last_items n (map f xs)
  map-last_items n xs =
      map-drop (length xs - n) xs ∙ ap (λ k. drop (k - n) (map f xs)) (sym (length-map xs))

abbrev pub quarantined_rows : Data → List Row
quarantined_rows d = map Quarantined.row d.quarantined_delivery

abbrev is_refused : Decoded → Bool
is_refused (update u) = false
is_refused refused = true
is_refused uncaught = false

-- A row that no update can be made of, of no seen update.
abbrev pub is_bad : Data → Row → Bool
unfolding is_seen
is_bad d (entry e) = not (is_done d e) && is_refused (from_dict e.payload)
is_bad d (foreign name) = true

-- The quarantine after some rows, in the order in which they came.
abbrev pub IsHeld : List Row → List Row → List Row → Type 0
IsHeld rows added held = held ≡ last_items quarantine_limit (rows ++ added)

add-IsHeld :
    (q : Quarantined) (qs : List Quarantined)
    → map Quarantined.row (last_items quarantine_limit (qs ++ q ∷ []))
      ≡ last_items quarantine_limit (map Quarantined.row qs ++ q.row ∷ [])
add-IsHeld q qs =
    map-last_items Quarantined.row quarantine_limit (qs ++ q ∷ [])
    ∙ ap (last_items quarantine_limit) (map-snoc Quarantined.row qs q)

add-room :
    (q : Quarantined) (qs : List Quarantined)
    → length (map Quarantined.row (last_items quarantine_limit (qs ++ q ∷ []))) ≤ quarantine_limit
add-room q qs =
    subst (λ n. n ≤ quarantine_limit)
      (sym (length-map Quarantined.row (last_items quarantine_limit (qs ++ q ∷ []))))
      (length-last_items quarantine_limit (qs ++ q ∷ []))

-- Rows that come after a first one.
more-IsHeld :
    (rows held added end : List Row) (row : Row)
    → IsHeld rows (row ∷ []) held
    → IsHeld held added end
    → IsHeld rows (row ∷ added) end
more-IsHeld rows held added end row first h =
    h
    ∙ ap (λ r. last_items quarantine_limit (r ++ added)) first
    ∙ last_items-append quarantine_limit (rows ++ row ∷ []) added
    ∙ ap (last_items quarantine_limit) (append_assoc rows (row ∷ []) added)

module _ (d : Data) (e : Entry) (queue : List Row) where
  select-other :
      (is_done d e ≡ true) ⊎ ((u : Update) × (from_dict e.payload ≡ update u))
      → select (is_bad d) (entry e ∷ queue) ≡ select (is_bad d) queue
  unfolding is_seen
  select-other (inl t) = ground arith
  select-other (inr (u, q)) = ground arith

  select-bad :
      is_done d e ≡ false
      → from_dict e.payload ≡ refused
      → select (is_bad d) (entry e ∷ queue) ≡ entry e ∷ select (is_bad d) queue
  unfolding is_seen
  select-bad f q = ground arith

module _ (is_alnum : ℕ → Bool) (correlation : Row → Text) (now : Text) where
  pop_from-IsHeld :
      (limit : ℕ) (queue remaining : List Row) (result : List (Update × Bool)) (d : Data)
      → any (blocks d) queue ≡ false
      → length (quarantined_rows d) ≤ quarantine_limit
      → IsHeld (quarantined_rows d) (select (is_bad d) queue) (
          quarantined_rows
            (after (pop_from is_alnum correlation now limit queue remaining result d)))
  unfolding is_seen quarantine_pending record_update_state lookup
  pop_from-IsHeld limit [] remaining result d free room = sym (
      ap (last_items quarantine_limit) (append-nil (quarantined_rows d))
      ∙ last_items-short quarantine_limit (quarantined_rows d) room)
  pop_from-IsHeld limit (foreign name ∷ queue) remaining result d free room =
      more-IsHeld (quarantined_rows d) _ (select (is_bad d) queue) _ (foreign name)
        (add-IsHeld _ d.quarantined_delivery)
        (pop_from-IsHeld limit queue remaining result
          (quarantine_foreign is_alnum correlation now name d) free
          (add-room _ d.quarantined_delivery))
  pop_from-IsHeld limit (entry e ∷ queue) remaining result d free room =
      let rest : any (blocks d) queue ≡ false = ground arith in
      elim (Bool-cases (is_done d e)) [
        | inl t ↦
            rw
              (
                from_done is_alnum correlation now e limit queue remaining result d t,
                select-other d e queue (inl t),
              )
              (pop_from-IsHeld limit queue remaining result d rest room)
        | inr f ↦ elim (Decoded-cases (from_dict e.payload)) [
          | inl (u, q) ↦
              rw
                (
                  from_kept is_alnum correlation now e limit queue remaining result d u f q,
                  select-other d e queue (inr (u, q)),
                )
                (elim (ltb (length result) limit)
                  as (λ x. IsHeld (quarantined_rows d) (select (is_bad d) queue) (
                    quarantined_rows (
                      after (
                        pop_from is_alnum correlation now limit queue (remaining ++ entry e ∷ [])
                          (add_result limit (u, e.force) result)
                          (if x then popped_record is_alnum now u d else d))))) [
                            | true ↦
                                pop_from-IsHeld limit queue (remaining ++ entry e ∷ [])
                                  (add_result limit (u, e.force) result)
                                  (popped_record is_alnum now u d) rest room
                            | false ↦
                                pop_from-IsHeld limit queue (remaining ++ entry e ∷ [])
                                  (add_result limit (u, e.force) result) d rest room
                          ])
          | inr (inl q) ↦
              rw
                (
                  from_refused is_alnum correlation now e limit queue remaining result d f q,
                  select-bad d e queue f q,
                )
                (more-IsHeld (quarantined_rows d) _ (select (is_bad d) queue) _ (entry e)
                  (add-IsHeld _ d.quarantined_delivery)
                  (pop_from-IsHeld limit queue remaining result
                    (quarantine_row is_alnum correlation now e d) rest
                    (add-room _ d.quarantined_delivery)))
          | inr (inr q) ↦ absurd (ground arith)
        ]
      ]

  -- Where no row of the queue raises an error that is not caught and the quarantine has at most 1000
  -- rows, `pop_pending` puts every row that it drops, other than those of seen updates, at the end of
  -- the quarantine, in order; of the quarantine the last 1000 rows stay.
  pub pop_pending-IsHeld :
      (limit : ℕ) (d : Data)
      → any (blocks d) d.pending_delivery ≡ false
      → length (quarantined_rows d) ≤ quarantine_limit
      → IsHeld
          (quarantined_rows d)
          (select (is_bad d) d.pending_delivery)
          (quarantined_rows (after (pop_pending is_alnum correlation now limit d)))
  unfolding pop_pending is_seen quarantine_pending record_update_state lookup
  pop_pending-IsHeld limit d free room = pop_from-IsHeld limit d.pending_delivery [] [] d free room
