-- ===== src/Telegram/Chunks.antt =====
-- `_split_unlabeled_text` of app/telegram.py. The loop runs on fuel; each round cuts off at least
-- one character, so the length of the text is enough.
use mathlib.Core.List.{append-nil}
use jeonghan_daily_review_bo.Prelude.{
  ℕ, zero, suc, ◌≤◌, ◌<◌, Text, ◌≡◌, refl, List, [], ◌∷◌, ◌++◌, length, take, drop, All, arith, ltb,
  if◌then◌else◌, Bool-cases, inl, inr, take-append-drop, length-drop,
}
use jeonghan_daily_review_bo.Telegram.Cut.{split_at, split_at_bounds}

-- `if remaining: parts.append(remaining)`
abbrev pub last_part : Text → List Text
last_part [] = []
last_part (c ∷ s) = (c ∷ s) ∷ []

unfoldable pub split_unlabeled : ℕ → ℕ → Text → List Text
split_unlabeled zero limit remaining = last_part remaining
split_unlabeled (suc fuel) limit remaining =
    let cut = split_at limit (take limit remaining) in
    let rest = take cut remaining ∷ split_unlabeled fuel limit (drop cut remaining) in
    if ltb limit (length remaining) then rest else last_part remaining

-- `"".join(parts)`
abbrev pub concat : List Text → Text
concat [] = []
concat (p ∷ ps) = p ++ concat ps

-- What Telegram accepts as one message: not empty, and not above the limit.
abbrev pub IsPart : ℕ → Text → Type 0
IsPart limit p = (0 < length p) × (length p ≤ limit)

concat-last_part : (s : Text) → concat (last_part s) ≡ s
concat-last_part [] = refl
concat-last_part (c ∷ s) = append-nil (c ∷ s)

-- Nothing is lost, whatever the fuel.
pub concat-split_unlabeled : (fuel limit : ℕ) (s : Text) → concat (split_unlabeled fuel limit s) ≡ s
unfolding split_unlabeled
concat-split_unlabeled zero limit s = concat-last_part s
concat-split_unlabeled (suc fuel) limit s =
    let cut = split_at limit (take limit s) in
    elim (Bool-cases (ltb limit (length s))) [
      | inl t ↦ rw (t, concat-split_unlabeled fuel limit (drop cut s)) (take-append-drop cut s)
      | inr f ↦ rw f (concat-last_part s)
    ]

length-take_of_le : (n : ℕ) (s : Text) → n ≤ length s → length (take n s) ≡ n
length-take_of_le zero s h = refl
length-take_of_le (suc n) [] h = absurd (omega arith)
length-take_of_le (suc n) (c ∷ s) h = omega (arith, length-take_of_le n s)

cut_bounds :
    (limit : ℕ) (s : Text)
    → 0 < limit
    → limit < length s
    → (0 < split_at limit (take limit s)) × (split_at limit (take limit s) ≤ limit)
cut_bounds limit s pos long =
    let full = length-take_of_le limit s (omega arith) in
    rw full at (split_at_bounds (take limit s) (rw full pos))

last_part-IsPart : (limit : ℕ) (s : Text) → length s ≤ limit → All (IsPart limit) (last_part s)
last_part-IsPart limit [] h = tt
last_part-IsPart limit (c ∷ s) h = ((omega arith, h), tt)

-- With fuel for every character, each part is a message that Telegram accepts.
pub split_unlabeled-IsPart :
    (fuel limit : ℕ) (s : Text)
    → 0 < limit
    → length s ≤ fuel
    → All (IsPart limit) (split_unlabeled fuel limit s)
unfolding split_unlabeled
split_unlabeled-IsPart zero limit s pos enough = last_part-IsPart limit s (omega arith)
split_unlabeled-IsPart (suc fuel) limit s pos enough =
    let cut = split_at limit (take limit s) in
    elim (Bool-cases (ltb limit (length s))) [
      | inr f ↦ rw f (last_part-IsPart limit s (ground arith))
      | inl t ↦
          let bounds = cut_bounds limit s pos (ground arith) in
          rw t (
            (
              rw (length-take_of_le cut s (ground arith)) bounds,
              split_unlabeled-IsPart fuel limit (drop cut s) pos (omega (arith, length-drop cut s)),
            ))
    ]
