-- ===== src/Prelude/Table.antt =====
-- A SQLite table with a text key: rows in insertion order, at most one row a key.
use mathlib.Core.Path.{◌≡◌, refl, ap, sym, ◌∙◌, subst}
use mathlib.Core.Logic.{inl, inr}
use mathlib.Core.Bool.{Bool, true, false, ◌||◌}
use mathlib.Core.Option
use mathlib.Core.Option.{Option, none, some}
use mathlib.Core.List.{List, [], ◌∷◌, ◌++◌}
use native.Mathlib.Omega.{arith}
use jeonghan_daily_review_bo.Prelude.Tests.{if◌then◌else◌, Bool-cases, Option-cases}
use jeonghan_daily_review_bo.Prelude.Texts.{Text, ◌===◌, text_dec}
use jeonghan_daily_review_bo.Prelude.Lists.{find, any, update_where, All, All-append, All-map}

module _ {ℓ} {A : Type ℓ} (key : A → Text) where
  -- `SELECT * FROM t WHERE key=?`
  unfoldable pub lookup : Text → List A → Option A
  lookup k [] = none
  lookup k (x ∷ xs) = if key x === k then some x else lookup k xs

  -- `INSERT INTO t ... ON CONFLICT(key) DO UPDATE`: the new row is made from the old one.
  unfoldable pub upsert : Text → A → (A → A) → List A → List A
  upsert k fresh f [] = fresh ∷ []
  upsert k fresh f (x ∷ xs) = if key x === k then f x ∷ xs else x ∷ upsert k fresh f xs

  -- `DELETE FROM t WHERE key=?`
  unfoldable pub delete : Text → List A → List A
  delete k [] = []
  delete k (x ∷ xs) = let rest = delete k xs in if key x === k then rest else x ∷ rest

  -- `INSERT OR IGNORE`
  unfoldable pub insert_ignore : A → List A → List A
  unfolding lookup
  insert_ignore row xs = elim (lookup (key row) xs) [ none ↦ xs ++ row ∷ [] | some _ ↦ xs ]

  abbrev pub NodupKeys : List A → Type ℓ
  NodupKeys [] = Unit
  NodupKeys (x ∷ xs) = (lookup (key x) xs ≡ none) × NodupKeys xs

  -- The row of a key after an `UPDATE ... WHERE` that keeps the keys.
  pub lookup-update_where :
      (p : A → Bool) (f : A → A)
      → ((a : A) → key (f a) ≡ key a)
      → (k : Text) (xs : List A)
      → lookup k (update_where p f xs) ≡ Option.map (λ a. if p a then f a else a) (lookup k xs)
  unfolding lookup
  lookup-update_where p f keep k [] = refl
  lookup-update_where p f keep k (x ∷ xs) =
      ground (arith, keep x, lookup-update_where p f keep k xs)

  pub lookup-append :
      (k : Text) (xs ys : List A)
      → lookup k (xs ++ ys) ≡ elim (lookup k xs) [ none ↦ lookup k ys | some a ↦ some a ]
  unfolding lookup
  lookup-append k [] ys = refl
  lookup-append k (x ∷ xs) ys = ground (arith, lookup-append k xs ys)

  pub lookup-upsert :
      (k j : Text) (fresh : A) (f : A → A) (xs : List A)
      → key fresh ≡ k
      → ((a : A) → key a ≡ k → key (f a) ≡ k)
      → lookup j (upsert k fresh f xs) ≡ (
          if k === j
          then some (elim (lookup k xs) [ none ↦ fresh | some a ↦ f a ])
          else lookup j xs)
  unfolding lookup upsert
  lookup-upsert k j fresh f [] e keep = ground arith
  lookup-upsert k j fresh f (x ∷ xs) e keep =
      ground (arith, keep x, lookup-upsert k j fresh f xs e keep)

  pub lookup-delete :
      (k j : Text) (xs : List A) → lookup j (delete k xs) ≡ (if k === j then none else lookup j xs)
  unfolding lookup delete
  lookup-delete k j [] = ground arith
  lookup-delete k j (x ∷ xs) = ground (arith, lookup-delete k j xs)

  pub lookup-key : (k : Text) (xs : List A) (a : A) → lookup k xs ≡ some a → key a ≡ k
  unfolding lookup
  lookup-key k [] a h = absurd (ground arith)
  lookup-key k (x ∷ xs) a h = ground (arith, lookup-key k xs a)

  -- Where keys are distinct, a row that any `SELECT` finds is the row of its key.
  pub lookup-find :
      (p : A → Bool) (xs : List A) (a : A)
      → NodupKeys xs
      → find p xs ≡ some a
      → lookup (key a) xs ≡ some a
  unfolding lookup
  lookup-find p [] a d h = absurd (ground arith)
  lookup-find p (x ∷ xs) a d h = ground (arith, lookup-find p xs a)

  pub NodupKeys-update_where :
      (p : A → Bool) (f : A → A)
      → ((a : A) → key (f a) ≡ key a)
      → (xs : List A) → NodupKeys xs
      → NodupKeys (update_where p f xs)
  NodupKeys-update_where p f keep [] d = tt
  NodupKeys-update_where p f keep (x ∷ xs) d = (
    ground (arith, keep x, lookup-update_where p f keep (key x) xs),
    NodupKeys-update_where p f keep xs d.1,
  )

  pub NodupKeys-append :
      (xs : List A) (a : A) → lookup (key a) xs ≡ none → NodupKeys xs → NodupKeys (xs ++ a ∷ [])
  unfolding lookup
  NodupKeys-append [] a h d = (refl, tt)
  NodupKeys-append (x ∷ xs) a h d =
      (ground (arith, lookup-append (key x) xs (a ∷ [])), NodupKeys-append xs a (ground arith) d.1)

  pub lookup-none :
      (k : Text) (p : A → Bool) (xs : List A)
      → ((a : A) → p a ≡ false → (key a === k) ≡ false)
      → any p xs ≡ false
      → lookup k xs ≡ none
  unfolding lookup
  lookup-none k p [] sub h = refl
  lookup-none k p (x ∷ xs) sub h = ground (arith, sub x, lookup-none k p xs sub)

  abbrev pub has_key : Text → List A → Bool
  has_key k = any (λ a. key a === k)

  pub lookup-has_key : (k : Text) (xs : List A) → lookup k xs ≡ none → has_key k xs ≡ false
  unfolding lookup
  lookup-has_key k [] h = refl
  lookup-has_key k (x ∷ xs) h = ground (arith, lookup-has_key k xs)

  pub All-lookup {κ} :
      (P : A → Type κ) (k : Text) (xs : List A) (a : A) → All P xs → lookup k xs ≡ some a → P a
  unfolding lookup
  All-lookup P k [] a h e = absurd (ground arith)
  All-lookup P k (x ∷ xs) a h e = elim (Bool-cases (key x === k)) [
    | inl t ↦ let here : x ≡ a = ground arith in subst P here h.0
    | inr f ↦ All-lookup P k xs a h.1 (ground arith)
  ]

  pub All-upsert {κ} :
      (P : A → Type κ) (k : Text) (fresh : A) (f : A → A) (xs : List A)
      → (lookup k xs ≡ none → P fresh)
      → ((a : A) → P a → P (f a))
      → All P xs
      → All P (upsert k fresh f xs)
  unfolding lookup upsert
  All-upsert P k fresh f [] new old h = (new refl, tt)
  All-upsert P k fresh f (x ∷ xs) new old h = elim (Bool-cases (key x === k)) [
    | inl t ↦ rw t (old x h.0, h.1)
    | inr e ↦ rw e (h.0, All-upsert P k fresh f xs (λ n. new (rw e n)) old h.1)
  ]

  pub has_key-upsert :
      (k j : Text) (fresh : A) (f : A → A) (xs : List A)
      → key fresh ≡ k
      → ((a : A) → key (f a) ≡ key a)
      → has_key j (upsert k fresh f xs) ≡ (k === j || has_key j xs)
  unfolding upsert
  has_key-upsert k j fresh f [] e keep = ground arith
  has_key-upsert k j fresh f (x ∷ xs) e keep =
      ground (arith, keep x, has_key-upsert k j fresh f xs e keep)

  -- A row that replaces the row of its key.
  pub has_key-replace :
      (j : Text) (row : A) (xs : List A)
      → has_key j (upsert (key row) row (λ _. row) xs) ≡ (key row === j || has_key j xs)
  unfolding upsert
  has_key-replace j row [] = ground arith
  has_key-replace j row (x ∷ xs) = elim (text_dec (key x) (key row)) [
    | yes e ↦ rw e (ground arith)
    | no n ↦ ground (arith, has_key-replace j row xs)
  ]

  -- A test that passes on a key passes on the row of the key.
  pub has_key-any :
      (q : Text → Bool) (k : Text) (xs : List A)
      → has_key k xs ≡ true
      → q k ≡ true
      → any (λ a. q (key a)) xs ≡ true
  has_key-any q k [] h t = absurd (ground arith)
  has_key-any q k (x ∷ xs) h t = elim (text_dec (key x) k) [
    | yes e ↦ rw (e, t) refl
    | no n ↦ ground (arith, has_key-any q k xs)
  ]

  pub has_key-append :
      (k : Text) (xs ys : List A) → has_key k (xs ++ ys) ≡ (has_key k xs || has_key k ys)
  has_key-append k [] ys = refl
  has_key-append k (x ∷ xs) ys = ground (arith, has_key-append k xs ys)

  pub lookup-present : (k : Text) (xs : List A) (a : A) → lookup k xs ≡ some a → has_key k xs ≡ true
  unfolding lookup
  lookup-present k [] a h = absurd (ground arith)
  lookup-present k (x ∷ xs) a h = ground (arith, lookup-present k xs a)

  pub has_key-insert_ignore :
      (k : Text) (row : A) (xs : List A)
      → has_key k (insert_ignore row xs) ≡ (has_key k xs || key row === k)
  unfolding insert_ignore
  has_key-insert_ignore k row xs = elim (Option-cases (lookup (key row) xs)) [
    | inl n ↦ rw (insert_ignore, n) (ground (arith, has_key-append k xs (row ∷ [])))
    | inr (a, e) ↦ elim (text_dec (key row) k) [
      | yes q ↦
          rw (insert_ignore, e, q)
            (ground (arith, lookup-present k xs a (ap (λ j. lookup j xs) (sym q) ∙ e)))
      | no n ↦ rw (insert_ignore, e) (ground arith)
    ]
  ]

  pub All-insert_ignore {κ} :
      (P : A → Type κ) (row : A) (xs : List A) → P row → All P xs → All P (insert_ignore row xs)
  unfolding insert_ignore
  All-insert_ignore P row xs h k = elim (Option-cases (lookup (key row) xs)) [
    | inl n ↦ rw (insert_ignore, n) (All-append P xs (row ∷ []) k (h, tt))
    | inr (a, e) ↦ rw (insert_ignore, e) k
  ]

  -- Where keys are distinct, each row is the row of its key.
  pub NodupKeys-lookup : (xs : List A) → NodupKeys xs → All (λ a. lookup (key a) xs ≡ some a) xs
  unfolding lookup
  NodupKeys-lookup [] d = tt
  NodupKeys-lookup (x ∷ xs) d = (
    ground arith,
    All-map (λ a. lookup (key a) xs ≡ some a) (λ a. lookup (key a) (x ∷ xs) ≡ some a) xs later
        (NodupKeys-lookup xs d.1),
  )
    where
      later : (a : A) → lookup (key a) xs ≡ some a → lookup (key a) (x ∷ xs) ≡ some a
      later a e = elim (text_dec (key x) (key a)) [
        | yes q ↦ absurd (ground (arith, d.0, ap (λ k. lookup k xs) q))
        | no n ↦ ground arith
      ]
