-- ===== src/Telegram/Posts.antt =====
-- What Telegram has taken of a delivery of app/telegram.py: the messages that were noted, and the
-- repeats, of the requests whose answer or receipt was lost.
use jeonghan_daily_review_bo.Prelude.{
  ℕ, zero, suc, ◌+◌, Text, ◌≡◌, refl, ap, ◌∙◌, List, [], ◌∷◌, ◌++◌, length, length-append, arith,
}
use jeonghan_daily_review_bo.Telegram.Send.{
  Reply, delivered, failed, cut_off, Message, Event, paused, posted, unnoted, unnoted_times, World,
}
use jeonghan_daily_review_bo.Telegram.Noted.{bodies}

-- The texts that Telegram has taken, in order, and those of them that were not noted.
abbrev pub posts : List Event → List Text
posts [] = []
posts (paused ∷ es) = posts es
posts (posted m ∷ es) = m.body ∷ posts es
posts (unnoted m ∷ es) = m.body ∷ posts es

abbrev pub repeats : List Event → List Text
repeats [] = []
repeats (paused ∷ es) = repeats es
repeats (posted m ∷ es) = repeats es
repeats (unnoted m ∷ es) = m.body ∷ repeats es

-- Two lists and a merge of them, which keeps the order of each.
pub data IsMerge : List Text → List Text → List Text → Type 0 where
  merged : IsMerge [] [] []
  from_left : {x : Text} {xs ys zs : List Text} → IsMerge xs ys zs → IsMerge (x ∷ xs) ys (x ∷ zs)
  from_right : {y : Text} {xs ys zs : List Text} → IsMerge xs ys zs → IsMerge xs (y ∷ ys) (y ∷ zs)

pub posts-IsMerge : (es : List Event) → IsMerge (bodies es) (repeats es) (posts es)
posts-IsMerge [] = merged
posts-IsMerge (paused ∷ es) = posts-IsMerge es
posts-IsMerge (posted m ∷ es) = from_left (posts-IsMerge es)
posts-IsMerge (unnoted m ∷ es) = from_right (posts-IsMerge es)

repeats-append : (xs ys : List Event) → repeats (xs ++ ys) ≡ repeats xs ++ repeats ys
repeats-append [] ys = refl
repeats-append (paused ∷ xs) ys = repeats-append xs ys
repeats-append (posted m ∷ xs) ys = repeats-append xs ys
repeats-append (unnoted m ∷ xs) ys = ap (◌∷◌ m.body) (repeats-append xs ys)

pub length-repeats :
    (xs ys : List Event) → length (repeats (xs ++ ys)) ≡ length (repeats xs) + length (repeats ys)
length-repeats xs ys = ap length (repeats-append xs ys) ∙ length-append (repeats xs) (repeats ys)

pub length-unnoted :
    (n : ℕ) (m : Message) (ys : List Event)
    → length (repeats (unnoted_times n m ++ ys)) ≡ n + length (repeats ys)
length-unnoted zero m ys = omega arith
length-unnoted (suc n) m ys = omega (arith, length-unnoted n m ys)

pub add_zero : (n : ℕ) → n + 0 ≡ n
add_zero n = omega arith

pub length-lost : (n : ℕ) (m : Message) → length (repeats (unnoted_times n m)) ≡ n
length-lost zero m = refl
length-lost (suc n) m = ap suc (length-lost n m)

-- The requests of a call that Telegram took without a receipt.
abbrev pub lost : Reply → ℕ
lost (delivered n id limited) = n
lost (failed n e) = n
lost (cut_off n e) = suc n

-- Those of the first calls.
unfoldable pub losses : (ℕ → Reply) → ℕ → ℕ
losses api zero = 0
losses api (suc n) = losses api n + lost (api n)

-- The messages that were not noted are those that the calls so far have lost.
abbrev pub IsAccounted : (ℕ → Reply) → World → Type 0
IsAccounted api w = length (repeats w.events) ≡ losses api w.calls

pub account :
    (api : ℕ → Reply) (w : World) (es : List Event)
    → IsAccounted api w
    → length (repeats es) ≡ lost (api w.calls)
    → length (repeats (w.events ++ es)) ≡ losses api (suc w.calls)
unfolding losses
account api w es h e = omega (arith, length-repeats w.events es, h, e)
