-- ===== src/Media/Tests.antt =====
-- A concrete run of the media receipts, and an instance of the property of them.
use jeonghan_daily_review_bo.Prelude.{
  ℕ, ◌≤◌, Text, codes, text_le, text_dec, ◌≡◌, refl, true, List, [], ◌∷◌, arith,
}
use jeonghan_daily_review_bo.Media.Ledger.{any_recent, mark_delivered}
use jeonghan_daily_review_bo.Media.Recent.{Call, marked, pruned, run, delivered-recent}

-- A text for each moment, in the order of the moments.
abbrev stamp : ℕ → Text
stamp n = n ∷ []

stamp-in_order : (a b : ℕ) → a ≤ b → text_le (stamp a) (stamp b) ≡ true
unfolding text_le
stamp-in_order a b h = ground arith

abbrev later_calls : List Call
later_calls = marked (codes "url:2" ∷ []) (codes "photo") (codes "8") 20 ∷ pruned 30 ∷ []

delivered-recent_example :
    any_recent stamp 72 (codes "sha256:5" ∷ codes "url:1" ∷ []) 40 (
      run stamp later_calls
        (mark_delivered stamp (codes "url:1" ∷ []) (codes "photo") (codes "7") 10 []))
    ≡ true
unfolding text_dec
delivered-recent_example =
    delivered-recent stamp stamp-in_order (codes "url:1") 10 (codes "url:1" ∷ [])
      (codes "sha256:5" ∷ codes "url:1" ∷ []) (codes "photo") (codes "7") later_calls 72 40 [] refl
      refl refl (omega arith)
