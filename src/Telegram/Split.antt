-- ===== src/Telegram/Split.antt =====
-- `split_telegram_text` of app/telegram.py. The text of a number is the
-- parameter `decimal`. The loop on the number of parts runs on fuel.
use jeonghan_daily_review_bo.Prelude.{
  ℕ, zero, suc, ◌-◌, min, max, Text, Option, none, some, List, [], ◌∷◌, ◌++◌, length, any, ltb, leb,
  ◌==◌, is_empty, if◌then◌else◌,
}
use jeonghan_daily_review_bo.Telegram.Chunks.{split_unlabeled}

abbrev pub telegram_text_limit : ℕ
telegram_text_limit = 4096

abbrev pub safe_text_target : ℕ
safe_text_target = 4000

pub data Split : Type 0 where
  parts : List Text → Split
  too_long : Split
  out_of_fuel : Split

module _ (decimal : ℕ → Text) where
  -- The label of a part, "part i of n" in Persian, and a blank line.
  unfoldable pub label : ℕ → ℕ → Text
  label i n =
      (0x628 ∷ 0x62e ∷ 0x634 ∷ 32 ∷ [])
      ++ (decimal i ++ ((32 ∷ 0x627 ∷ 0x632 ∷ 32 ∷ []) ++ (decimal n ++ (10 ∷ 10 ∷ []))))

  -- `max(len(label) for index in range(1, count + 1))`
  unfoldable pub longest_label : ℕ → ℕ → ℕ
  unfolding label
  longest_label zero total = 0
  longest_label (suc k) total = max (length (label (suc k) total)) (longest_label k total)

  abbrev pub content_limit : ℕ → ℕ → ℕ
  content_limit limit total = max 1 (limit - longest_label total total)

  -- `while True`: the chunks at the number of parts at which the labels were reckoned.
  unfoldable pub settle : ℕ → ℕ → ℕ → Text → Option (List Text)
  settle zero limit total s = none
  settle (suc fuel) limit total s =
      let chunks = split_unlabeled (length s) (content_limit limit total) s in
      let again = settle fuel limit (length chunks) s in
      if length chunks == total then some chunks else again

  -- `[label + chunk for index, chunk in enumerate(chunks, start=1)]`
  unfoldable pub labelled : ℕ → ℕ → List Text → List Text
  unfolding label
  labelled index total [] = []
  labelled index total (c ∷ cs) = (label index total ++ c) ∷ labelled (suc index) total cs

  abbrev pub checked : ℕ → List Text → Split
  checked limit ps = if any (λ p. ltb limit (length p)) ps then too_long else parts ps

  abbrev pub finish_split : ℕ → Option (List Text) → Split
  finish_split limit none = out_of_fuel
  finish_split limit (some chunks) = checked limit (labelled 1 (length chunks) chunks)

  unfoldable pub split_telegram_text : ℕ → ℕ → Text → Split
  unfolding settle labelled
  split_telegram_text fuel limit s =
      let bound = min telegram_text_limit (max 1 limit) in
      if is_empty s
      then parts []
      else if leb (length s) bound
      then parts (s ∷ [])
      else finish_split bound (settle fuel bound 2 s)
