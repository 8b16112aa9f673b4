-- ===== src/Handles.antt =====
-- Source handles: `_handle` of app/source_first_queue.py, which app/completeness_engine.py repeats,
-- and `_norm_handle` of app/source_ledger.py. Python's `casefold` is the parameter.
use mathlib.Core.List.{reverse}
use jeonghan_daily_review_bo.Prelude.{ℕ, Text, Bool, ◌||◌, ◌&&◌, [], ◌∷◌, leb, ◌==◌, if◌then◌else◌}

-- `str.isspace` of one code point.
unfoldable pub is_space : ℕ → Bool
is_space c =
    (leb 9 c && leb c 13)
    || (leb 28 c && leb c 32)
    || c == 0x85
    || c == 0xa0
    || c == 0x1680
    || (leb 0x2000 c && leb c 0x200a)
    || c == 0x2028
    || c == 0x2029
    || c == 0x202f
    || c == 0x205f
    || c == 0x3000

unfoldable pub drop_while : (ℕ → Bool) → Text → Text
drop_while p [] = []
drop_while p (c ∷ s) = let rest = drop_while p s in if p c then rest else c ∷ s

-- `s.strip()`
unfoldable pub strip : Text → Text
unfolding drop_while is_space
strip s = reverse (drop_while is_space (reverse (drop_while is_space s)))

-- `s.lstrip("@")`
unfoldable pub lstrip_at : Text → Text
unfolding drop_while
lstrip_at = drop_while (λ c. c == b'@')

module _ (casefold : Text → Text) where
  -- `str(value or "").strip().lstrip("@").casefold()`
  unfoldable pub queue_handle : Text → Text
  unfolding strip lstrip_at
  queue_handle s = casefold (lstrip_at (strip s))

  -- `str(value or "").lstrip("@").strip().casefold()`
  unfoldable pub norm_handle : Text → Text
  unfolding strip lstrip_at
  norm_handle s = casefold (strip (lstrip_at s))
