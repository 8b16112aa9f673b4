-- ===== src/Events/Sets.antt =====
-- Python sets of texts, made from tuples, and their sizes.
use jeonghan_daily_review_bo.Prelude.{
  ℕ, ◌+◌, Text, ◌===◌, ◌≡◌, refl, sym, ap, Bool, false, not, List, [], ◌∷◌, ◌++◌, length,
  length-append, select, any, text_dec, arith, Bool-cases, inl, inr, if◌then◌else◌,
}

abbrev pub mem : Text → List Text → Bool
mem x xs = any (λ y. y === x) xs

-- `set(xs)`
abbrev pub distinct : List Text → List Text
distinct [] = []
distinct (x ∷ xs) = let rest = distinct xs in if mem x rest then rest else x ∷ rest

-- `set(xs).intersection(ys)`, and `set(xs).union(ys)`.
abbrev pub overlap : List Text → List Text → List Text
overlap xs ys = select (λ x. mem x (distinct ys)) (distinct xs)

abbrev pub union : List Text → List Text → List Text
union xs ys = distinct xs ++ select (λ y. not (mem y (distinct xs))) (distinct ys)

abbrev pub IsDistinct : List Text → Type 0
IsDistinct [] = Unit
IsDistinct (x ∷ xs) = (mem x xs ≡ false) × IsDistinct xs

distinct-IsDistinct : (xs : List Text) → IsDistinct (distinct xs)
distinct-IsDistinct [] = tt
distinct-IsDistinct (x ∷ xs) = elim (Bool-cases (mem x (distinct xs))) [
  | inl t ↦ rw t (distinct-IsDistinct xs)
  | inr f ↦ rw f (f, distinct-IsDistinct xs)
]

pub ===_sym : (a b : Text) → (a === b) ≡ (b === a)
===_sym a b = ground arith

-- How many of the texts are in a list.
abbrev count : List Text → List Text → ℕ
count xs ys = length (select (λ x. mem x ys) xs)

count_none : (xs : List Text) → count xs [] ≡ 0
count_none [] = refl
count_none (x ∷ xs) = count_none xs

count-cons :
    (ys xs : List Text) (x : Text)
    → IsDistinct ys
    → mem x xs ≡ false
    → count ys (x ∷ xs) ≡ (if mem x ys then 1 else 0) + count ys xs
count-cons [] xs x d f = refl
count-cons (y ∷ ys) xs x d f = elim (text_dec x y) [
  | yes e ↦
      ground
        (arith, ===_sym x y, ap (λ k. mem k ys) e, ap (λ k. mem k xs) e, count-cons ys xs x d.1 f)
  | no n ↦ ground (arith, ===_sym x y, count-cons ys xs x d.1 f)
]

count_sym : (xs ys : List Text) → IsDistinct xs → IsDistinct ys → count xs ys ≡ count ys xs
count_sym [] ys d e = sym (count_none ys)
count_sym (x ∷ xs) ys d e = ground (arith, count-cons ys xs x e d.0, count_sym xs ys d.1 e)

length-select-not :
    (p : Text → Bool) (xs : List Text)
    → length (select (λ x. not (p x)) xs) + length (select p xs) ≡ length xs
length-select-not p [] = refl
length-select-not p (x ∷ xs) = ground (arith, length-select-not p xs)

-- The size of an intersection and of a union does not depend on the order of the two sets.
pub length-overlap : (xs ys : List Text) → length (overlap xs ys) ≡ length (overlap ys xs)
length-overlap xs ys =
    count_sym (distinct xs) (distinct ys) (distinct-IsDistinct xs) (distinct-IsDistinct ys)

length-union-overlap :
    (xs ys : List Text)
    → length (union xs ys) + length (overlap ys xs) ≡ length (distinct xs) + length (distinct ys)
length-union-overlap xs ys =
    let rest = select (λ y. not (mem y (distinct xs))) (distinct ys) in
    omega (
      arith,
      length-append (distinct xs) rest,
      length-select-not (λ y. mem y (distinct xs)) (distinct ys),
    )

pub length-union : (xs ys : List Text) → length (union xs ys) ≡ length (union ys xs)
length-union xs ys =
    omega (arith, length-union-overlap xs ys, length-union-overlap ys xs, length-overlap xs ys)
