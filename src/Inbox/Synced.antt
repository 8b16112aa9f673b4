-- ===== src/Inbox/Synced.antt =====
-- `sync_from_state` of app/review_inbox.py: what it adds, and what it leaves.
use jeonghan_daily_review_bo.Prelude.{
  ℕ, suc, Text, codes, ◌===◌, ◌≡◌, ◌⊎◌, text_dec, refl, ap, ◌∙◌, inl, inr, Bool, true, false, ◌||◌,
  Option, Option-cases, none, some, List, [], ◌∷◌, arith,
}
use jeonghan_daily_review_bo.Prelude.Table.{
  lookup, has_key, has_key-upsert, lookup-upsert, lookup-has_key, lookup-present,
}
use jeonghan_daily_review_bo.Models.{Update, Draft}
use jeonghan_daily_review_bo.State.Rows.{Payload}
use jeonghan_daily_review_bo.State.Pending.{Decoded-cases}
use jeonghan_daily_review_bo.Inbox.Store.{
  Item, new_item, renewed_item, upsert_item, get, add_draft, archived, skipped, added, failed,
  sync_draft, sync_from, sync_from_state,
}

abbrev pub has_item : Text → List Item → Bool
has_item = has_key Item.draft_id

abbrev pub status_in : Option Item → Option Text
status_in none = none
status_in (some x) = some x.status

-- The status of a draft's row.
abbrev pub status_of : Text → List Item → Option Text
status_of k xs = status_in (lookup Item.draft_id k xs)

-- Another row is added for a draft that has none.
abbrev IsAdded : Draft → List Item → List Item → Type 0
IsAdded a xs ys =
    ((k : Text) → has_item k ys ≡ (a.id === k || has_item k xs))
    × ((k : Text) (s : Text) → status_of k xs ≡ some s → status_of k ys ≡ some s)

pub upsert_item-status :
    (a : Draft) (u : Option Update) (status now k s : Text) (xs : List Item)
    → status_of k xs ≡ some s
    → status_of k (upsert_item a u status now xs) ≡ some s
unfolding upsert_item
upsert_item-status a u status now k s xs h = elim (Option-cases (lookup Item.draft_id k xs)) [
  | inl n ↦ absurd (ground (arith, n, h))
  | inr (x, e) ↦
      let whole =
        lookup-upsert Item.draft_id a.id k (new_item a u status now) (renewed_item a u now) xs refl
          (λ y i. i) in
      let same : x.status ≡ s = ground (arith, h, e) in
      elim (text_dec a.id k) [
        | yes q ↦
            let found : lookup Item.draft_id a.id xs ≡ some x =
              ap (λ j. lookup Item.draft_id j xs) q ∙ e in
            let hit : (a.id === k) ≡ true = ground (arith, q) in
            ap status_in whole ∙ rw (hit, found) (ap some same)
        | no n ↦ ap status_in whole ∙ ground (arith, h)
      ]
]

-- The drafts that decode have a row.
abbrev pub IsSynced : List (Option Draft) → List Item → Type 0
IsSynced [] xs = Unit
IsSynced (none ∷ drafts) xs = IsSynced drafts xs
IsSynced (some a ∷ drafts) xs = (has_item a.id xs ≡ true) × IsSynced drafts xs

-- A status that there was is there still.
abbrev pub IsKept : Option Text → Option Text → Type 0
IsKept none after = Unit
IsKept (some s) after = after ≡ some s

get-present :
    (a : Draft) (xs : List Item) (x : Item) → get a.id xs ≡ some x → has_item a.id xs ≡ true
unfolding get
get-present a xs x e = lookup-present Item.draft_id a.id xs x e

get-missing : (a : Draft) (xs : List Item) → get a.id xs ≡ none → has_item a.id xs ≡ false
unfolding get
get-missing a xs n = lookup-has_key Item.draft_id a.id xs n

module _ (archive : Text → Option Payload) (now : Text) where
  add_draft-IsAdded :
      (a : Draft) (u : Option Update) (xs : List Item) → IsAdded a xs (add_draft archive now a u xs)
  unfolding upsert_item
  add_draft-IsAdded a u xs = (
    λ k.
        has_key-upsert Item.draft_id a.id k (new_item a u (codes "pending") now)
          (renewed_item a u now) xs refl (λ x. refl),
    λ k s h. upsert_item-status a u (codes "pending") now k s xs h,
  )

  sync_draft-cases :
      (a : Draft) (xs : List Item)
      → ((sync_draft archive now a xs ≡ skipped) × (has_item a.id xs ≡ true))
        ⊎ (((ys : List Item) × (sync_draft archive now a xs ≡ added ys) × IsAdded a xs ys)
            ⊎ (sync_draft archive now a xs ≡ failed))
  unfolding sync_draft
  sync_draft-cases a xs = elim (Option-cases (get a.id xs)) [
    | inl n ↦ elim (Decoded-cases (archived archive now a.update_id)) [
      | inl (u, q) ↦ inr (
          inl (
            add_draft archive now a (some u) xs,
            rw (sync_draft, n, q) refl,
            add_draft-IsAdded a (some u) xs,
          ))
      | inr (inl q) ↦ inr (
          inl (
            add_draft archive now a none xs,
            rw (sync_draft, n, q) refl,
            add_draft-IsAdded a none xs,
          ))
      | inr (inr q) ↦ inr (inr (rw (sync_draft, n, q) refl))
    ]
    | inr (x, e) ↦ inl (rw (sync_draft, e) refl, get-present a xs x e)
  ]

  sync_from-has_item :
      (k : Text) (drafts : List (Option Draft)) (n : ℕ) (xs : List Item)
      → has_item k xs ≡ true
      → has_item k (sync_from archive now drafts n xs).1 ≡ true
  unfolding sync_from
  sync_from-has_item k [] n xs h = h
  sync_from-has_item k (none ∷ drafts) n xs h = sync_from-has_item k drafts n xs h
  sync_from-has_item k (some a ∷ drafts) n xs h = elim (sync_draft-cases a xs) [
    | inl (e, here) ↦ rw (sync_from, e) (sync_from-has_item k drafts n xs h)
    | inr (inl (ys, e, (keys, states))) ↦
        rw (sync_from, e) (sync_from-has_item k drafts (suc n) ys (ground (arith, keys k)))
    | inr (inr e) ↦ rw (sync_from, e) h
  ]

  pub sync_from-status :
      (k s : Text) (drafts : List (Option Draft)) (n : ℕ) (xs : List Item)
      → status_of k xs ≡ some s
      → status_of k (sync_from archive now drafts n xs).1 ≡ some s
  unfolding sync_from
  sync_from-status k s [] n xs h = h
  sync_from-status k s (none ∷ drafts) n xs h = sync_from-status k s drafts n xs h
  sync_from-status k s (some a ∷ drafts) n xs h = elim (sync_draft-cases a xs) [
    | inl (e, here) ↦ rw (sync_from, e) (sync_from-status k s drafts n xs h)
    | inr (inl (ys, e, (keys, states))) ↦
        rw (sync_from, e) (sync_from-status k s drafts (suc n) ys (states k s h))
    | inr (inr e) ↦ rw (sync_from, e) h
  ]

  sync_from-again :
      (drafts : List (Option Draft)) (n : ℕ) (xs : List Item)
      → IsSynced drafts xs
      → sync_from archive now drafts n xs ≡ (some n, xs)
  unfolding sync_from
  sync_from-again [] n xs h = refl
  sync_from-again (none ∷ drafts) n xs h = sync_from-again drafts n xs h
  sync_from-again (some a ∷ drafts) n xs h = elim (Option-cases (get a.id xs)) [
    | inl missing ↦ absurd (ground (arith, get-missing a xs missing, h.0))
    | inr (x, e) ↦
        let skip : sync_draft archive now a xs ≡ skipped = rw (sync_draft, e) refl in
        rw (sync_from, skip) (sync_from-again drafts n xs h.1)
  ]

  sync_from-IsSynced :
      (drafts : List (Option Draft)) (n m : ℕ) (xs : List Item)
      → (sync_from archive now drafts n xs).0 ≡ some m
      → IsSynced drafts (sync_from archive now drafts n xs).1
  unfolding sync_from
  sync_from-IsSynced [] n m xs h = tt
  sync_from-IsSynced (none ∷ drafts) n m xs h = sync_from-IsSynced drafts n m xs h
  sync_from-IsSynced (some a ∷ drafts) n m xs h = elim (sync_draft-cases a xs) [
    | inl (e, here) ↦
        rw (sync_from, e)
          (
            sync_from-has_item a.id drafts n xs here,
            sync_from-IsSynced drafts n m xs (rw (sync_from, e) at h),
          )
    | inr (inl (ys, e, (keys, states))) ↦
        rw (sync_from, e)
          (
            sync_from-has_item a.id drafts (suc n) ys (ground (arith, keys a.id)),
            sync_from-IsSynced drafts (suc n) m ys (rw (sync_from, e) at h),
          )
    | inr (inr e) ↦
        let gone : (sync_from archive now (some a ∷ drafts) n xs).0 ≡ none =
          rw (sync_from, e) refl in
        absurd (ground (arith, gone, h))
  ]

  sync_from-IsKept :
      (k : Text) (drafts : List (Option Draft)) (n : ℕ) (xs : List Item)
      → IsKept (status_of k xs) (status_of k (sync_from archive now drafts n xs).1)
  sync_from-IsKept k drafts n xs = elim (Option-cases (status_of k xs)) [
    | inl none_yet ↦ rw none_yet tt
    | inr (s, e) ↦ rw e (sync_from-status k s drafts n xs e)
  ]

  -- A call of `sync_from_state` that ends without an error leaves a row for each draft that decodes,
  -- so that the same call again adds nothing and changes nothing; and it leaves the status of a row
  -- that was there, whether a decision or not.
  pub sync_from_state-again :
      (drafts : List (Option Draft)) (n : ℕ) (k : Text) (xs : List Item)
      → (sync_from_state archive now drafts xs).0 ≡ some n
      → IsSynced drafts (sync_from_state archive now drafts xs).1
        × (sync_from_state archive now drafts (sync_from_state archive now drafts xs).1
            ≡ (some 0, (sync_from_state archive now drafts xs).1))
        × IsKept (status_of k xs) (status_of k (sync_from_state archive now drafts xs).1)
  unfolding sync_from_state
  sync_from_state-again drafts n k xs h =
      let synced = sync_from-IsSynced drafts 0 n xs h in
      (
        synced,
        sync_from-again drafts 0 (sync_from archive now drafts 0 xs).1 synced,
        sync_from-IsKept k drafts 0 xs,
      )
