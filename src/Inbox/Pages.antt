-- ===== src/Inbox/Pages.antt =====
-- The pages of `list_items` of app/review_inbox.py: read one after the other, they are the whole list.
use native.Mathlib.Nat.{mul_comm, zero-add, zero-mul}
use native.Mathlib.Numerals.{unary_clauses}
use jeonghan_daily_review_bo.Prelude.{
  ℕ, zero, suc, ◌+◌, ◌-◌, ◌*◌, ◌/◌, ◌≤◌, min, max, ◌≡◌, refl, sym, ap, ◌∙◌, subst, Bool, List, [],
  ◌∷◌, ◌++◌, length, length-take-le, leb, take, drop, select, arith, Bool-cases, inl, inr,
}
use jeonghan_daily_review_bo.Prelude.Sort.{sort, insert}
use jeonghan_daily_review_bo.Inbox.Store.{
  Item, Filter, passes, count, is_newer, in_order, size_of, pages_of, list_items,
}

module _ {ℓ} {A : Type ℓ} where
  take-add : (a b : ℕ) (xs : List A) → take (a + b) xs ≡ take a xs ++ take b (drop a xs)
  take-add zero b xs = ap (λ n. take n xs) (zero-add b)
  take-add (suc a) zero [] = simp unary_clauses refl
  take-add (suc a) (suc b) [] = simp unary_clauses refl
  take-add (suc a) b (x ∷ xs) =
      let count_up : suc a + b ≡ suc (a + b) = omega arith in
      ap (λ n. take n (x ∷ xs)) count_up ∙ ap (◌∷◌ x) (take-add a b xs)

  drop-drop : (a b : ℕ) (xs : List A) → drop b (drop a xs) ≡ drop (a + b) xs
  drop-drop zero b xs = ap (λ n. drop n xs) (sym (zero-add b))
  drop-drop (suc a) zero [] = simp unary_clauses refl
  drop-drop (suc a) (suc b) [] = simp unary_clauses refl
  drop-drop (suc a) b (x ∷ xs) =
      let count_up : suc (a + b) ≡ suc a + b = omega arith in
      drop-drop a b xs ∙ ap (λ n. drop n (x ∷ xs)) count_up

  take-all : (n : ℕ) (xs : List A) → length xs ≤ n → take n xs ≡ xs
  take-all zero [] h = refl
  take-all zero (x ∷ xs) h = absurd (omega arith)
  take-all (suc n) [] h = refl
  take-all (suc n) (x ∷ xs) h = ap (◌∷◌ x) (take-all n xs (omega arith))

  length-insert :
      (le : A → A → Bool) (a : A) (xs : List A) → length (insert le a xs) ≡ suc (length xs)
  length-insert le a [] = refl
  length-insert le a (x ∷ xs) = ground (arith, length-insert le a xs)

  length-sort : (le : A → A → Bool) (xs : List A) → length (sort le xs) ≡ length xs
  length-sort le [] = refl
  length-sort le (x ∷ xs) = length-insert le x (sort le xs) ∙ ap suc (length-sort le xs)

-- The items of `n` pages from the page with the number `at` on.
unfoldable pub read_pages : Filter → ℕ → List Item → ℕ → ℕ → List Item
unfolding list_items
read_pages f page_size xs zero at = []
read_pages f page_size xs (suc n) at =
    (list_items f at page_size xs).items ++ read_pages f page_size xs n (suc at)

-- There are enough pages for the rows.
pages_of-enough : (size total : ℕ) → 1 ≤ size → total ≤ pages_of size total * size
unfolding pages_of
pages_of-enough size total h = subst (λ n. total ≤ n) (mul_comm size (pages_of size total)) enough
  where
    enough : total ≤ size * max 1 ((total + size - 1) / size)
    enough = elim (Bool-cases (leb 1 ((total + size - 1) / size))) [
      | inl t ↦
          let some_pages : max 1 ((total + size - 1) / size) ≡ (total + size - 1) / size =
            ground arith in
          rw some_pages (omega arith)
      | inr e ↦
          let no_pages : (total + size - 1) / size ≡ 0 = ground arith in
          omega (arith, ap (λ q. size * q) no_pages)
    ]

module _ (f : Filter) (page_size : ℕ) (xs : List Item) where
  abbrev all_pages : ℕ
  unfolding count pages_of
  all_pages = pages_of (size_of page_size) (count f xs)

  read_pages-take :
      (n at : ℕ)
      → at + n ≤ all_pages
      → read_pages f page_size xs n at
        ≡ take (n * size_of page_size) (drop (at * size_of page_size) (in_order f xs))
  unfolding read_pages list_items
  read_pages-take zero at h =
      ap (λ k. take k (drop (at * size_of page_size) (in_order f xs)))
        (sym (zero-mul (size_of page_size)))
  read_pages-take (suc n) at h =
      let size = size_of page_size in
      let rows = drop (at * size) (in_order f xs) in
      let here : min at (all_pages - 1) ≡ at = omega arith in
      let next : at * size + size ≡ suc at * size = omega arith in
      let more : size + n * size ≡ suc n * size = omega arith in
      rw (here) (
        ap (λ r. take size rows ++ r) (read_pages-take n (suc at) (omega arith))
        ∙ ap (λ k. take size rows ++ take (n * size) (drop k (in_order f xs))) (sym next)
        ∙ ap (λ r. take size rows ++ take (n * size) r)
            (sym (drop-drop (at * size) size (in_order f xs)))
        ∙ sym (take-add size (n * size) rows)
        ∙ ap (λ k. take k rows) more)

  length-in_order : length (in_order f xs) ≡ count f xs
  unfolding in_order count
  length-in_order = length-sort is_newer (select (passes f) xs)

  -- The pages of a list, read one after the other, are the rows that pass the filter, newest first, each
  -- of them once; a page has at most ten rows.
  pub read_pages-in_order :
      (page : ℕ)
      → (read_pages f page_size xs (list_items f 0 page_size xs).pages 0 ≡ in_order f xs)
        × (length (list_items f page page_size xs).items ≤ 10)
  unfolding list_items
  read_pages-in_order page = (
    read_pages-take all_pages 0 (omega arith)
        ∙ ap (λ k. take (all_pages * size_of page_size) (drop k (in_order f xs)))
            (zero-mul (size_of page_size))
        ∙ take-all (all_pages * size_of page_size) (in_order f xs) (
            subst (λ n. n ≤ all_pages * size_of page_size) (sym length-in_order)
              (pages_of-enough (size_of page_size) (count f xs) (omega arith))),
    omega (
      arith,
      length-take-le (size_of page_size)
          (drop (min page (all_pages - 1) * size_of page_size) (in_order f xs)),
    ),
  )
