-- ===== src/Callbacks/Tests.antt =====
-- Callback data of a few characters, and the round trip at one.
use jeonghan_daily_review_bo.Prelude.{
  ℕ, ◌≤◌, Text, codes, text_dec, text_le, ◌≡◌, refl, Option, none, some, [], ◌∷◌, arith,
}
use jeonghan_daily_review_bo.Prelude.Table.{lookup, delete}
use jeonghan_daily_review_bo.Callbacks.Tokens.{
  byte_length, callback_max_bytes, has_prefix, replace, allocate, encode, prune, redeem, decode,
}
use jeonghan_daily_review_bo.Callbacks.Roundtrip.{decode-encode}

program : Unit {0}
unfolding text_dec text_le lookup delete byte_length has_prefix replace allocate encode prune redeem
    decode
program = tt

abbrev digest : Text → Text
digest s = codes "0123456789abcdef0123456789abcdef"

abbrev written : ℕ → Text
written t = t ∷ []

abbrev read : Text → Option ℕ
read [] = none
read (t ∷ s) = some t

abbrev issued : Text
issued = codes "cb:0123456789abcdef01234567"

expired : (decode read issued 11 (encode digest written 10 (codes "cb:x") 1 []).rows).value ≡ none
unfolding program
expired = refl

direct : (encode digest written 10 (codes "menu:1") 1 []).value ≡ some (codes "menu:1")
unfolding program
direct = refl

pruned : prune digest written 10 11 (encode digest written 10 (codes "cb:x") 1 []).rows ≡ []
unfolding program
pruned = refl

decode-encode_example :
    (byte_length issued ≤ callback_max_bytes)
    × ((decode read issued 5 (encode digest written 10 (codes "cb:x") 1 []).rows).value
        ≡ some (codes "cb:x"))
unfolding program
decode-encode_example =
    decode-encode digest written 10 read (λ t. refl) (codes "cb:x") issued 1 5 [] (ground arith)
      refl (omega arith)
