-- ===== src/State/Pending.antt =====
-- What `pop_pending` of app/zero_silent_miss.py does with the rows of the queue, next to `pop_pending` of
-- app/state.py.
use mathlib.Core.List.{append_assoc, append-nil}
use jeonghan_daily_review_bo.Prelude.{
  ℕ, zero, suc, ◌-◌, Text, ◌≡◌, refl, sym, ap, ◌∙◌, subst, ◌⊎◌, inl, inr, Bool, true, false, not,
  ◌&&◌, List, [], ◌∷◌, ◌++◌, length, take, select, any, ltb, arith, Bool-cases, if◌then◌else◌,
}
use jeonghan_daily_review_bo.Prelude.Table.{lookup}
use jeonghan_daily_review_bo.Models.{Update}
use jeonghan_daily_review_bo.State.Rows.{
  from_dict, Decoded, update, refused, uncaught, Entry, Row, entry, foreign, Data,
}
use jeonghan_daily_review_bo.State.Lifecycle.{record_update_state, quarantine_pending}
use jeonghan_daily_review_bo.State.Store.{is_seen, is_done, Popped, popped, raised, add_result}
use jeonghan_daily_review_bo.State.Queue.{
  quarantine_row, quarantine_foreign, popped_record, pop_from, pop_pending,
}

abbrev pub is_update : Decoded → Bool
is_update (update u) = true
is_update refused = false
is_update uncaught = false

abbrev pub is_uncaught : Decoded → Bool
is_uncaught (update u) = false
is_uncaught refused = false
is_uncaught uncaught = true

pub Decoded-cases :
    (x : Decoded) → ((u : Update) × (x ≡ update u)) ⊎ ((x ≡ refused) ⊎ (x ≡ uncaught))
Decoded-cases (update u) = inl (u, refl)
Decoded-cases refused = inr (inl refl)
Decoded-cases uncaught = inr (inr refl)

-- A row that stays in the queue, and one whose decoding raises what `pop_pending` does not catch.
abbrev pub keeps : Data → Row → Bool
unfolding is_seen
keeps d (entry e) = not (is_done d e) && is_update (from_dict e.payload)
keeps d (foreign name) = false

abbrev pub blocks : Data → Row → Bool
unfolding is_seen
blocks d (entry e) = not (is_done d e) && is_uncaught (from_dict e.payload)
blocks d (foreign name) = false

abbrev served : Bool → Decoded → List (Update × Bool)
served force (update u) = (u, force) ∷ []
served force refused = []
served force uncaught = []

abbrev pub row_result : Row → List (Update × Bool)
row_result (entry e) = served e.force (from_dict e.payload)
row_result (foreign name) = []

abbrev pub results : List Row → List (Update × Bool)
results [] = []
results (row ∷ rows) = row_result row ++ results rows

-- The updates of the rows that stay, in the order of the queue.
abbrev pub due : Data → List Row → List (Update × Bool)
unfolding is_seen
due d rows = results (select (keeps d) rows)

abbrev pub after : Popped → Data
after (popped result d) = d
after (raised d) = d

take_one :
    (limit : ℕ) (result : List (Update × Bool)) (row : Update × Bool) (rest : List (Update × Bool))
    → add_result limit row result ++ take (limit - length (add_result limit row result)) rest
      ≡ result ++ take (limit - length result) (row ∷ rest)
take_one zero [] row rest = refl
take_one (suc n) [] row rest = ground arith
take_one zero (x ∷ xs) row rest = ground arith
take_one (suc n) (x ∷ xs) row rest = elim (Bool-cases (ltb (length xs) n)) [
  | inl t ↦ ground (arith, take_one n xs row rest)
  | inr f ↦ ground (arith, take_one n xs row rest)
]

-- A loop over the rows that ends with a result: the updates that are due, up to the limit, and the
-- rows that stay.
abbrev pub IsServedFrom : ℕ → List Row → List Row → List (Update × Bool) → Data → Popped → Type 0
unfolding is_seen
IsServedFrom limit queue remaining result d (popped r d_after) =
    (r ≡ result ++ take (limit - length result) (due d queue))
    × (d_after.pending_delivery ≡ remaining ++ select (keeps d) queue)
    × (d_after.seen ≡ d.seen)
IsServedFrom limit queue remaining result d (raised d_after) = ⊥

take_nothing : (n : ℕ) → take {A = Update × Bool} n [] ≡ []
take_nothing zero = refl
take_nothing (suc n) = refl

served_none :
    (limit : ℕ) (remaining : List Row) (result : List (Update × Bool)) (d : Data)
    → IsServedFrom limit [] remaining result d
        (popped result (record d { pending_delivery = remaining }))
unfolding is_seen
served_none limit remaining result d = (
  sym (ap (λ r. result ++ r) (take_nothing (limit - length result)) ∙ append-nil result),
  sym (append-nil remaining),
  refl,
)

module _ (d : Data) (e : Entry) (queue : List Row) where
  select-kept :
      (u : Update)
      → is_done d e ≡ false
      → from_dict e.payload ≡ update u
      → select (keeps d) (entry e ∷ queue) ≡ entry e ∷ select (keeps d) queue
  unfolding is_seen
  select-kept u f q = simp (f, q)

  due-kept :
      (u : Update)
      → is_done d e ≡ false
      → from_dict e.payload ≡ update u
      → due d (entry e ∷ queue) ≡ (u, e.force) ∷ due d queue
  unfolding is_seen
  due-kept u f q = ap results (select-kept u f q) ∙ ap (λ x. served e.force x ++ due d queue) q

  -- A row of a seen update, or one whose decoding is refused, is passed over.
  abbrev IsPassed : Type 0
  unfolding is_seen
  IsPassed = (is_done d e ≡ true) ⊎ (from_dict e.payload ≡ refused)

  select-passed : IsPassed → select (keeps d) (entry e ∷ queue) ≡ select (keeps d) queue
  unfolding is_seen
  select-passed h = ground arith

served_one :
    (limit : ℕ) (e : Entry) (u : Update) (queue remaining : List Row)
    (result : List (Update × Bool))
    → (d : Data) (end : Popped) → is_done d e ≡ false
    → from_dict e.payload ≡ update u
    → IsServedFrom limit queue
        (remaining ++ entry e ∷ [])
        (add_result limit (u, e.force) result)
        d
        end
    → IsServedFrom limit (entry e ∷ queue) remaining result d end
unfolding is_seen
served_one limit e u queue remaining result d (popped r d_after) f q h = (
  h.0
      ∙ take_one limit result (u, e.force) (due d queue)
      ∙ ap (λ xs. result ++ take (limit - length result) xs) (sym (due-kept d e queue u f q)),
  h.1
      ∙ append_assoc remaining (entry e ∷ []) (select (keeps d) queue)
      ∙ ap (λ xs. remaining ++ xs) (sym (select-kept d e queue u f q)),
  h.2,
)
served_one limit e u queue remaining result d (raised d_after) f q h = h

served_passed :
    (limit : ℕ) (e : Entry) (queue remaining : List Row) (result : List (Update × Bool))
    → (d : Data) (end : Popped) → IsPassed d e queue
    → IsServedFrom limit queue remaining result d end
    → IsServedFrom limit (entry e ∷ queue) remaining result d end
unfolding is_seen
served_passed limit e queue remaining result d (popped r d_after) p h = (
  h.0
      ∙ ap (λ xs. result ++ take (limit - length result) (results xs))
          (sym (select-passed d e queue p)),
  h.1 ∙ ap (λ xs. remaining ++ xs) (sym (select-passed d e queue p)),
  h.2,
)
served_passed limit e queue remaining result d (raised d_after) p h = h

module _ (is_alnum : ℕ → Bool) (correlation : Row → Text) (now : Text) where
  module _ (e : Entry) (limit : ℕ) (queue remaining : List Row) (result : List (Update × Bool))
      (d : Data) where
    pub from_done :
        is_done d e ≡ true
        → pop_from is_alnum correlation now limit (entry e ∷ queue) remaining result d
          ≡ pop_from is_alnum correlation now limit queue remaining result d
    unfolding is_seen quarantine_pending record_update_state lookup
    from_done t = ground arith

    pub from_kept :
        (u : Update)
        → is_done d e ≡ false
        → from_dict e.payload ≡ update u
        → pop_from is_alnum correlation now limit (entry e ∷ queue) remaining result d
          ≡ pop_from is_alnum correlation now limit queue
              (remaining ++ entry e ∷ [])
              (add_result limit (u, e.force) result)
              (if ltb (length result) limit then popped_record is_alnum now u d else d)
    unfolding is_seen quarantine_pending record_update_state lookup
    from_kept u f q = simp (pop_from, f, q)

    pub from_refused :
        is_done d e ≡ false
        → from_dict e.payload ≡ refused
        → pop_from is_alnum correlation now limit (entry e ∷ queue) remaining result d
          ≡ pop_from is_alnum correlation now limit queue remaining result
              (quarantine_row is_alnum correlation now e d)
    unfolding is_seen quarantine_pending record_update_state lookup
    from_refused f q = ground arith

  pop_from-IsServedFrom :
      (limit : ℕ) (queue remaining : List Row) (result : List (Update × Bool)) (d : Data)
      → any (blocks d) queue ≡ false
      → IsServedFrom limit queue remaining result d
          (pop_from is_alnum correlation now limit queue remaining result d)
  unfolding is_seen quarantine_pending record_update_state lookup
  pop_from-IsServedFrom limit [] remaining result d free = served_none limit remaining result d
  pop_from-IsServedFrom limit (foreign name ∷ queue) remaining result d free =
      pop_from-IsServedFrom limit queue remaining result
        (quarantine_foreign is_alnum correlation now name d) free
  pop_from-IsServedFrom limit (entry e ∷ queue) remaining result d free =
      let rest : any (blocks d) queue ≡ false = ground arith in
      elim (Bool-cases (is_done d e)) [
        | inl t ↦ served_passed limit e queue remaining result d _ (inl t) (
            subst (IsServedFrom limit queue remaining result d)
              (sym (from_done e limit queue remaining result d t))
              (pop_from-IsServedFrom limit queue remaining result d rest))
        | inr f ↦ elim (Decoded-cases (from_dict e.payload)) [
          | inl (u, q) ↦ served_one limit e u queue remaining result d _ f q (
              subst
                (IsServedFrom limit queue (remaining ++ entry e ∷ [])
                  (add_result limit (u, e.force) result) d)
                (sym (from_kept e limit queue remaining result d u f q))
                elim (ltb (length result) limit)
                  as (λ x.
                    IsServedFrom limit queue (remaining ++ entry e ∷ [])
                      (add_result limit (u, e.force) result) d
                      (pop_from is_alnum correlation now limit queue (remaining ++ entry e ∷ [])
                        (add_result limit (u, e.force) result)
                        (if x then popped_record is_alnum now u d else d))) [
                          | true ↦
                              pop_from-IsServedFrom limit queue (remaining ++ entry e ∷ [])
                                (add_result limit (u, e.force) result)
                                (popped_record is_alnum now u d) rest
                          | false ↦
                              pop_from-IsServedFrom limit queue (remaining ++ entry e ∷ [])
                                (add_result limit (u, e.force) result) d rest
                        ])
          | inr (inl q) ↦ served_passed limit e queue remaining result d _ (inr q) (
              subst (IsServedFrom limit queue remaining result d)
                (sym (from_refused e limit queue remaining result d f q))
                (pop_from-IsServedFrom limit queue remaining result
                  (quarantine_row is_alnum correlation now e d) rest))
          | inr (inr q) ↦ absurd (ground arith)
        ]
      ]

  -- Where no row of the queue raises an error that is not caught, a call of `pop_pending` returns the
  -- updates of the rows that are neither seen nor refused, in order and up to the limit, and keeps
  -- exactly those rows; the seen updates stay.
  pub pop_pending-IsServed :
      (limit : ℕ) (d : Data)
      → any (blocks d) d.pending_delivery ≡ false
      → IsServedFrom limit d.pending_delivery [] [] d (pop_pending is_alnum correlation now limit d)
  unfolding pop_pending is_seen quarantine_pending record_update_state lookup
  pop_pending-IsServed limit d free = pop_from-IsServedFrom limit d.pending_delivery [] [] d free
