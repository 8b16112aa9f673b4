-- ===== src/Callbacks/Tokens.antt =====
-- `CallbackStore` of app/callback_store.py. A moment is a number; `iso` is `isoformat` and `parse` is
-- `fromisoformat` with its repairs, both of Python's datetime, and `sha256` is the hexadecimal digest.
use jeonghan_daily_review_bo.Prelude.{
  ℕ, ◌+◌, Text, codes, Bool, true, not, ◌&&◌, ◌||◌, Option, none, some, List, [], ◌∷◌, ◌++◌, take,
  select, ◌===◌, text_le, ltb, leb, if◌then◌else◌,
}
use jeonghan_daily_review_bo.Prelude.Table.{lookup, delete}

pub record Token : Type 0 where
  pub token : Text
  pub payload : Text
  pub expires_at : Text

-- The bytes of a code point in UTF-8, and `byte_length`.
abbrev pub utf8_size : ℕ → ℕ
utf8_size c = if ltb c 0x80 then 1 else if ltb c 0x800 then 2 else if ltb c 0x10000 then 3 else 4

unfoldable pub byte_length : Text → ℕ
byte_length [] = 0
byte_length (c ∷ s) = utf8_size c + byte_length s

abbrev pub callback_max_bytes : ℕ
callback_max_bytes = 64

-- `value.startswith(TOKEN_PREFIX)`
unfoldable pub has_prefix : Text → Bool
has_prefix s = take 3 s === codes "cb:"

-- `range(24, 61, 4)`
abbrev pub token_sizes : List ℕ
token_sizes = 24 ∷ 28 ∷ 32 ∷ 36 ∷ 40 ∷ 44 ∷ 48 ∷ 52 ∷ 56 ∷ 60 ∷ []

-- What a call gives: a text, or the CallbackDataError, with the rows that are left.
pub record Outcome : Type 0 where
  pub value : Option Text
  pub rows : List Token

-- `INSERT OR REPLACE`
unfoldable pub replace : Token → List Token → List Token
unfolding delete
replace t rows = delete Token.token t.token rows ++ t ∷ []

-- `row is None or row[0] == payload`
abbrev pub is_free : Text → Option Token → Bool
is_free payload none = true
is_free payload (some t) = t.payload === payload

abbrev pub token_of : Text → ℕ → Text
token_of digest chars = codes "cb:" ++ take chars digest

unfoldable pub allocate : Text → Text → Text → List ℕ → List Token → Outcome
unfolding lookup replace
allocate payload digest expires [] rows = record { value = none; rows = rows }
allocate payload digest expires (n ∷ ns) rows =
    if is_free payload (lookup Token.token (token_of digest n) rows)
    then record {
      value = some (token_of digest n);
      rows =
          replace (record { token = token_of digest n; payload = payload; expires_at = expires })
            rows;
    }
    else allocate payload digest expires ns rows

module _ (sha256 : Text → Text) (iso : ℕ → Text) (ttl : ℕ) where
  unfoldable pub encode : Text → ℕ → List Token → Outcome
  unfolding byte_length has_prefix allocate
  encode payload now rows =
      if ltb (byte_length payload) 1
      then record { value = none; rows = rows }
      else if leb (byte_length payload) callback_max_bytes && not (has_prefix payload)
      then record { value = some payload; rows = rows }
      else allocate payload (sha256 payload) (iso (now + ttl)) token_sizes rows

  -- `DELETE ... WHERE expires_at <= ?`
  unfoldable pub prune : ℕ → List Token → List Token
  prune now rows = select (λ t. not (text_le t.expires_at (iso now))) rows

-- The moment of a row, the first moment of all where the text is malformed.
abbrev pub moment_of : Option ℕ → ℕ
moment_of none = 0
moment_of (some t) = t

module _ (parse : Text → Option ℕ) where
  unfoldable pub redeem : Text → ℕ → List Token → Option Token → Outcome
  unfolding delete
  redeem value now rows none = record { value = none; rows = rows }
  redeem value now rows (some t) =
      if leb (moment_of (parse t.expires_at)) now
      then record { value = none; rows = delete Token.token value rows }
      else record { value = some t.payload; rows = rows }

  unfoldable pub decode : Text → ℕ → List Token → Outcome
  unfolding byte_length has_prefix redeem lookup
  decode value now rows =
      if ltb (byte_length value) 1 || ltb callback_max_bytes (byte_length value)
      then record { value = none; rows = rows }
      else if not (has_prefix value)
      then record { value = some value; rows = rows }
      else redeem value now rows (lookup Token.token value rows)
