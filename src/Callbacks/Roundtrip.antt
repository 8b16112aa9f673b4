-- ===== src/Callbacks/Roundtrip.antt =====
-- What `encode` of app/callback_store.py gives, `decode` takes back until it expires.
use jeonghan_daily_review_bo.Prelude.{
  ℕ, zero, suc, ◌+◌, ◌≤◌, ◌<◌, Text, ◌≡◌, refl, sym, inl, inr, true, false, not, ◌&&◌, ◌||◌, Option,
  some, List, [], ◌∷◌, take, text_dec, ltb, leb, All, arith, Bool-cases,
}
use jeonghan_daily_review_bo.Prelude.Table.{lookup, delete, lookup-append, lookup-delete}
use jeonghan_daily_review_bo.Callbacks.Tokens.{
  Token, byte_length, callback_max_bytes, has_prefix, token_sizes, replace, is_free, token_of,
  allocate, encode, moment_of, redeem, decode,
}

-- An ASCII text.
abbrev pub IsAscii : Text → Type 0
IsAscii = All (λ c. c < 0x80)

byte_length-ascii : (n : ℕ) (s : Text) → IsAscii s → byte_length (take n s) ≤ n
unfolding byte_length
byte_length-ascii zero s h = omega arith
byte_length-ascii (suc n) [] h = omega arith
byte_length-ascii (suc n) (c ∷ s) h = ground (arith, h.0, byte_length-ascii n s h.1)

lookup-replace :
    (t : Token) (rows : List Token) → lookup Token.token t.token (replace t rows) ≡ some t
unfolding replace lookup
lookup-replace t rows = ground (
  arith,
  lookup-append Token.token t.token (delete Token.token t.token rows) (t ∷ []),
  lookup-delete Token.token t.token t.token rows,
)

-- A token that is allocated names the payload until it expires, and is short.
pub record IsIssued (payload expires : Text) (v : Text) (rows : List Token) : Type 0 where
  pub prefixed : has_prefix v ≡ true
  pub bound : byte_length v ≤ callback_max_bytes
  pub long : 1 ≤ byte_length v
  pub stored :
      (t : Token) × ((lookup Token.token v rows ≡ some t)
        × ((t.payload ≡ payload) × (t.expires_at ≡ expires)))

token-IsIssued :
    (payload expires digest : Text) (n : ℕ) (rows : List Token)
    → IsAscii digest
    → n ≤ 60
    → IsIssued payload expires (token_of digest n) (
        replace
          (record { token = token_of digest n; payload = payload; expires_at = expires })
          rows)
unfolding has_prefix byte_length text_dec
token-IsIssued payload expires digest n rows h b = record {
  prefixed = refl;
  bound = omega (arith, byte_length-ascii n digest h);
  long = omega arith;
  stored = (
    record { token = token_of digest n; payload = payload; expires_at = expires },
    (
      lookup-replace (record { token = token_of digest n; payload = payload; expires_at = expires })
          rows,
      (refl, refl),
    ),
  );
}

allocate-IsIssued :
    (payload digest expires v : Text) (ns : List ℕ) (rows : List Token)
    → IsAscii digest
    → All (λ n. n ≤ 60) ns
    → (allocate payload digest expires ns rows).value ≡ some v
    → IsIssued payload expires v (allocate payload digest expires ns rows).rows
unfolding allocate
allocate-IsIssued payload digest expires v [] rows h b e = absurd (ground arith)
allocate-IsIssued payload digest expires v (n ∷ ns) rows h b e =
    elim (Bool-cases (is_free payload (lookup Token.token (token_of digest n) rows))) [
      | inl t ↦
          let here : token_of digest n ≡ v = ground (arith, t) in
          rw (allocate, t, sym here) (token-IsIssued payload expires digest n rows h b.0)
      | inr f ↦
          rw (allocate, f)
            (allocate-IsIssued payload digest expires v ns rows h b.1 (ground (arith, f)))
    ]

module _ (sha256 : Text → Text) (iso : ℕ → Text) (ttl : ℕ) (parse : Text → Option ℕ) where
  issued-decode :
      (payload v : Text) (expires later : ℕ) (rows : List Token)
      → parse (iso expires) ≡ some expires
      → later < expires
      → IsIssued payload (iso expires) v rows
      → (decode parse v later rows).value ≡ some payload
  unfolding decode redeem
  issued-decode payload v expires later rows known early h =
      let (t, (found, (same, until))) = h.stored in
      let alive : leb (moment_of (parse t.expires_at)) later ≡ false =
        rw (until, known) (ground (arith, early)) in
      rw (decode, sized, h.prefixed, found, redeem, alive, same) refl
    where
      sized : (ltb (byte_length v) 1 || ltb callback_max_bytes (byte_length v)) ≡ false
      sized = ground (arith, h.bound, h.long)

  -- Let the digest be ASCII and `fromisoformat` read what `isoformat` writes. Where `encode` gives a
  -- callback text, it has at most 64 bytes, and `decode` takes it back to the payload at each moment
  -- before the time to live is over.
  pub decode-encode :
      ((t : ℕ) → parse (iso t) ≡ some t)
      → (payload v : Text) (now later : ℕ) (rows : List Token) → IsAscii (sha256 payload)
      → (encode sha256 iso ttl payload now rows).value ≡ some v
      → later < now + ttl
      → (byte_length v ≤ callback_max_bytes)
        × ((decode parse v later (encode sha256 iso ttl payload now rows).rows).value
            ≡ some payload)
  unfolding encode decode
  decode-encode known payload v now later rows ascii e early =
      elim (Bool-cases (ltb (byte_length payload) 1)) [
        | inl t ↦ absurd (ground (arith, t))
        | inr f ↦
            elim (Bool-cases
              (leb (byte_length payload) callback_max_bytes && not (has_prefix payload))) [
                | inl s ↦
                    let here : payload ≡ v = ground (arith, f, s) in
                    rw (encode, f, s, sym here) (ground (arith, s), ground (decode, arith, f, s))
                | inr l ↦
                    let ok =
                      allocate-IsIssued payload (sha256 payload) (iso (now + ttl)) v token_sizes
                        rows ascii sizes (ground (arith, f, l)) in
                    rw (encode, f, l)
                      (
                        ok.bound,
                        issued-decode payload v (now + ttl) later
                            (allocate payload (sha256 payload) (iso (now + ttl)) token_sizes
                              rows).rows
                            (known (now + ttl)) early ok,
                      )
              ]
      ]
    where
      sizes : All (λ n. n ≤ 60) token_sizes
      sizes = ground arith
