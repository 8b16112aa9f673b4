-- ===== src/Names.antt =====
-- Technical names that are safe to store: `truncate_error_class` and `normalize_source_handle` of
-- app/production_outcome.py, and `_safe_error_code` of app/source_health.py, which repeats the first.
-- Python's `casefold` and `lower` are parameters.
use jeonghan_daily_review_bo.Prelude.{
  ℕ, zero, suc, ◌≤◌, Text, codes, ◌≡◌, refl, ◌⊎◌, inl, inr, Bool, true, false, not, ◌&&◌, ◌||◌,
  Option, none, some, List, [], ◌∷◌, length, any, all, is_empty, leb, ◌==◌, All, arith, Bool-cases,
  if◌then◌else◌,
}
use jeonghan_daily_review_bo.Handles.{strip, lstrip_at}

-- `[A-Za-z]` and `[A-Za-z0-9_]`
abbrev pub is_letter : ℕ → Bool
is_letter c = (leb b'A' c && leb c b'Z') || (leb b'a' c && leb c b'z')

abbrev pub is_name_char : ℕ → Bool
is_name_char c = is_letter c || (leb b'0' c && leb c b'9') || c == b'_'

-- The name characters at the beginning, at most so many.
unfoldable pub name_run : ℕ → Text → Text
name_run zero s = []
name_run (suc n) [] = []
name_run (suc n) (c ∷ s) = let rest = name_run n s in if is_name_char c then c ∷ rest else []

-- `re.search(r"[A-Za-z][A-Za-z0-9_]{0,63}", text)`
unfoldable pub first_name : Text → Option Text
unfolding name_run
first_name [] = none
first_name (c ∷ s) =
    let rest = first_name s in if is_letter c then some (c ∷ name_run 63 s) else rest

abbrev pub has_start : Text → Text → Bool
has_start [] s = true
has_start (x ∷ w) [] = false
has_start (x ∷ w) (c ∷ s) = x == c && has_start w s

-- `word in text`
unfoldable pub contains : Text → Text → Bool
contains w [] = is_empty w
contains w (c ∷ s) = has_start w (c ∷ s) || contains w s

abbrev pub secret_words : List Text
secret_words =
    codes "token"
    ∷ codes "cookie"
    ∷ codes "secret"
    ∷ codes "auth"
    ∷ codes "password"
    ∷ codes "credential"
    ∷ []

module _ (casefold : Text → Text) where
  unfoldable pub names_secret : Text → Bool
  unfolding contains
  names_secret name = any (λ w. contains w (casefold name)) secret_words

  abbrev pub or_error : Option Text → Text
  or_error none = codes "Error"
  or_error (some name) = if names_secret name then codes "Error" else name

  -- `_safe_error_code`; the other one strips its text first.
  unfoldable pub safe_error_code : Text → Text
  unfolding first_name names_secret
  safe_error_code text = or_error (first_name text)

  unfoldable pub truncate_error_class : Text → Text
  unfolding first_name names_secret strip
  truncate_error_class text = or_error (first_name (strip text))

  -- A letter at the beginning.
  abbrev pub starts_with_letter : Text → Bool
  starts_with_letter [] = false
  starts_with_letter (c ∷ s) = is_letter c

  -- One identifier of at most 64 characters, which names no secret, or the word "Error".
  abbrev pub IsSafeName : Text → Type 0
  IsSafeName s =
      (s ≡ codes "Error")
      ⊎ ((starts_with_letter s ≡ true)
          × All (λ c. is_name_char c ≡ true) s
          × (length s ≤ 64)
          × (names_secret s ≡ false))

  name_run-chars :
      (n : ℕ) (s : Text)
      → All (λ c. is_name_char c ≡ true) (name_run n s) × (length (name_run n s) ≤ n)
  unfolding name_run
  name_run-chars zero s = (tt, omega arith)
  name_run-chars (suc n) [] = (tt, omega arith)
  name_run-chars (suc n) (c ∷ s) = elim (Bool-cases (is_name_char c)) [
    | inl t ↦
        let (chars, short) = name_run-chars n s in
        rw (name_run, t) ((t, chars), omega (arith, short))
    | inr f ↦ rw (name_run, f) (tt, omega arith)
  ]

  or_error-IsSafeName : (s : Text) → IsSafeName (or_error (first_name s))
  unfolding first_name
  or_error-IsSafeName [] = inl refl
  or_error-IsSafeName (c ∷ s) = elim (Bool-cases (is_letter c)) [
    | inr f ↦ rw (first_name, f) (or_error-IsSafeName s)
    | inl t ↦
        rw (first_name, t)
          (elim (Bool-cases (names_secret (c ∷ name_run 63 s))) [
            | inl secret ↦ rw secret (inl refl)
            | inr plain ↦
                let (chars, short) = name_run-chars 63 s in
                rw plain (inr (t, (ground arith, chars), omega (arith, short), plain))
          ])
  ]

  -- Whatever an error says, what is stored of it is "Error" or one identifier, which begins with a
  -- letter, has at most 64 characters and contains none of the words for secrets.
  pub error_names-IsSafeName :
      (text : Text) → IsSafeName (safe_error_code text) × IsSafeName (truncate_error_class text)
  unfolding safe_error_code truncate_error_class
  error_names-IsSafeName text = (or_error-IsSafeName text, or_error-IsSafeName (strip text))

module _ (lower : Text → Text) where
  -- `^[A-Za-z0-9_]{1,15}$` on the whole value.
  abbrev pub is_handle : Text → Bool
  is_handle s = not (is_empty s) && leb (length s) 15 && all is_name_char s

  unfoldable pub normalize_source_handle : Text → Text
  unfolding strip lstrip_at
  normalize_source_handle handle =
      let value = lower (strip (lstrip_at handle)) in
      if is_handle value then value else codes "unknown_source"
