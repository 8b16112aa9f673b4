-- ===== src/Telegram/Cut.antt =====
-- Where `_split_unlabeled_text` of app/telegram.py cuts a text that is too long.
use jeonghan_daily_review_bo.Prelude.{
  ℕ, zero, suc, ◌+◌, ◌/◌, ◌≤◌, ◌<◌, max, Text, codes, ◌≡◌, refl, subst, Bool, true, false, ◌&&◌,
  ◌||◌, Option, none, some, inl, inr, List, [], ◌∷◌, length, All, arith, leb, ◌==◌, if◌then◌else◌,
  Bool-cases, Option-cases,
}

-- `text.startswith(mark)`
unfoldable pub starts_with : Text → Text → Bool
starts_with [] s = true
starts_with (m ∷ mark) [] = false
starts_with (m ∷ mark) (c ∷ s) = m == c && starts_with mark s

-- `text.rfind(mark)`, for a mark that is not empty: nothing for -1.
unfoldable pub rfind : Text → Text → Option ℕ
unfolding starts_with
rfind mark [] = none
rfind mark (c ∷ s) = elim (rfind mark s) [
  | some i ↦ some (suc i)
  | none ↦ if starts_with mark (c ∷ s) then some 0 else none
]

-- `max` of two results of `rfind`.
abbrev pub later : Option ℕ → Option ℕ → Option ℕ
later none b = b
later (some i) none = some i
later (some i) (some j) = some (max i j)

-- `max(text.rfind(mark) for mark in marks)`
unfoldable pub rfind_any : List Text → Text → Option ℕ
unfolding rfind
rfind_any [] s = none
rfind_any (m ∷ marks) s = later (rfind m s) (rfind_any marks s)

-- `text[i]`, for an index in range; 0 stands for the error out of range.
unfoldable pub char_at : Text → ℕ → ℕ
char_at [] i = 0
char_at (c ∷ s) zero = c
char_at (c ∷ s) (suc i) = char_at s i

abbrev pub paragraph_mark : Text
paragraph_mark = 10 ∷ 10 ∷ []

abbrev pub newline_mark : Text
newline_mark = 10 ∷ []

abbrev pub short_marks : List Text
short_marks = (0x3002 ∷ []) ∷ (0xff01 ∷ []) ∷ (0xff1f ∷ []) ∷ []

abbrev pub long_marks : List Text
long_marks = codes ". " ∷ codes "! " ∷ codes "? " ∷ (0x61f ∷ 32 ∷ []) ∷ []

abbrev pub whitespace_marks : List Text
whitespace_marks = codes " " ∷ (9 ∷ []) ∷ []

-- `window[sentence] in "。！？"`
abbrev pub is_short : ℕ → Bool
is_short c = c == 0x3002 || c == 0xff01 || c == 0xff1f

abbrev pub sentence_at : Text → Option ℕ
sentence_at w = later (rfind_any long_marks w) (rfind_any short_marks w)

-- A mark that is found at `floor` or later cuts behind itself.
abbrev pub accept : ℕ → Option ℕ → (ℕ → ℕ) → ℕ → ℕ
accept floor none behind next = next
accept floor (some i) behind next = if leb floor i then behind i else next

-- The cut of a window of `limit` characters.
unfoldable pub split_at : ℕ → Text → ℕ
unfolding rfind_any char_at
split_at limit w =
    let floor = max 1 (limit / 3) in
    accept floor (rfind paragraph_mark w) (λ i. i + 2)
      (accept floor (rfind newline_mark w) (λ i. i + 1)
        (accept floor (sentence_at w) (λ i. if is_short (char_at w i) then i + 1 else i + 2)
          (accept floor (rfind_any whitespace_marks w) (λ i. i + 1) limit)))

starts_with-length : (mark s : Text) → starts_with mark s ≡ true → length mark ≤ length s
unfolding starts_with
starts_with-length [] s h = omega arith
starts_with-length (m ∷ mark) [] h = absurd (ground arith)
starts_with-length (m ∷ mark) (c ∷ s) h = ground (arith, starts_with-length mark s)

-- A mark that is found lies inside the text.
pub rfind-within : (mark s : Text) (i : ℕ) → rfind mark s ≡ some i → i + length mark ≤ length s
unfolding rfind
rfind-within mark [] i h = absurd (ground arith)
rfind-within mark (c ∷ s) i h = elim (Option-cases (rfind mark s)) [
  | inl e ↦ ground (arith, starts_with-length mark (c ∷ s))
  | inr (j, e) ↦ ground (arith, rfind-within mark s j)
]

-- A mark of one character stands where it is found.
rfind_char : (m : ℕ) (s : Text) (i : ℕ) → rfind (m ∷ []) s ≡ some i → char_at s i ≡ m
unfolding rfind char_at starts_with
rfind_char m [] i h = absurd (ground arith)
rfind_char m (c ∷ s) i h = elim (Option-cases (rfind (m ∷ []) s)) [
  | inl e ↦ ground arith
  | inr (j, e) ↦ ground (arith, rfind_char m s j)
]

abbrev WhereFound {ℓ} : (ℕ → Type ℓ) → Option ℕ → Type ℓ
WhereFound P none = Unit
WhereFound P (some i) = P i

module _ {ℓ} (P : ℕ → Type ℓ) where
  later-WhereFound : (a b : Option ℕ) → WhereFound P a → WhereFound P b → WhereFound P (later a b)
  later-WhereFound none b h k = k
  later-WhereFound (some i) none h k = h
  later-WhereFound (some i) (some j) h k = elim (Bool-cases (leb i j)) [
    | inl t ↦ let e : j ≡ max i j = ground arith in subst P e k
    | inr f ↦ let e : i ≡ max i j = ground arith in subst P e h
  ]

  WhereFound-of : (o : Option ℕ) → ((i : ℕ) → o ≡ some i → P i) → WhereFound P o
  WhereFound-of none f = tt
  WhereFound-of (some i) f = f i refl

  rfind_any-WhereFound :
      (w : Text) (marks : List Text)
      → All (λ m. (i : ℕ) → rfind m w ≡ some i → P i) marks
      → WhereFound P (rfind_any marks w)
  unfolding rfind_any
  rfind_any-WhereFound w [] h = tt
  rfind_any-WhereFound w (m ∷ marks) h =
      later-WhereFound (rfind m w) (rfind_any marks w) (WhereFound-of (rfind m w) h.0)
        (rfind_any-WhereFound w marks h.1)

-- What is cut off behind a sentence mark at `i`.
abbrev behind_sentence : Text → ℕ → ℕ
behind_sentence w i = if is_short (char_at w i) then i + 1 else i + 2

abbrev Fits : ℕ → ℕ → Type 0
Fits limit n = (0 < n) × (n ≤ limit)

long-Fits :
    (w : Text) (a b i : ℕ) → rfind (a ∷ b ∷ []) w ≡ some i → Fits (length w) (behind_sentence w i)
long-Fits w a b i h = ground (arith, rfind-within (a ∷ b ∷ []) w i h)

short-Fits :
    (w : Text) (m i : ℕ)
    → is_short m ≡ true
    → rfind (m ∷ []) w ≡ some i
    → Fits (length w) (behind_sentence w i)
short-Fits w m i t h = ground (arith, rfind-within (m ∷ []) w i h, rfind_char m w i h)

-- Behind the sentence mark there is still text or the end of the window.
sentence-Fits : (w : Text) → WhereFound (λ i. Fits (length w) (behind_sentence w i)) (sentence_at w)
sentence-Fits w =
    later-WhereFound _ (rfind_any long_marks w) (rfind_any short_marks w)
      (rfind_any-WhereFound _ w long_marks (
        long-Fits w b'.' 32,
        (long-Fits w b'!' 32, (long-Fits w b'?' 32, (long-Fits w 0x61f 32, tt))),
      ))
      (rfind_any-WhereFound _ w short_marks (
        λ i. short-Fits w 0x3002 i refl,
        (λ i. short-Fits w 0xff01 i refl, (λ i. short-Fits w 0xff1f i refl, tt)),
      ))

accept-Fits :
    (limit floor next : ℕ) (o : Option ℕ) (behind : ℕ → ℕ)
    → WhereFound (λ i. Fits limit (behind i)) o
    → Fits limit next
    → Fits limit (accept floor o behind next)
accept-Fits limit floor next none behind h k = k
accept-Fits limit floor next (some i) behind h k = elim (Bool-cases (leb floor i)) [
  | inl t ↦ rw t h
  | inr f ↦ rw f k
]

mark-Fits :
    (w mark : Text) (k : ℕ)
    → 0 < k
    → k ≤ length mark
    → WhereFound (λ i. Fits (length w) (i + k)) (rfind mark w)
mark-Fits w mark k pos le =
    WhereFound-of _ (rfind mark w) (λ i h. omega (arith, rfind-within mark w i h))

-- The cut is behind the first character and not behind the window.
pub split_at_bounds : (w : Text) → 0 < length w → Fits (length w) (split_at (length w) w)
unfolding split_at
split_at_bounds w pos =
    let floor = max 1 (length w / 3) in
    accept-Fits (length w) floor _ _ _ (mark-Fits w paragraph_mark 2 (omega arith) (omega arith)) (
      accept-Fits (length w) floor _ _ _ (mark-Fits w newline_mark 1 (omega arith) (omega arith)) (
        accept-Fits (length w) floor _ _ _ (sentence-Fits w) (
          accept-Fits (length w) floor _ _ _
            (rfind_any-WhereFound _ w whitespace_marks (
              λ i h. omega (arith, rfind-within (32 ∷ []) w i h),
              (λ i h. omega (arith, rfind-within (9 ∷ []) w i h), tt),
            ))
            (pos, omega arith))))
