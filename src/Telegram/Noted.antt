-- ===== src/Telegram/Noted.antt =====
-- The messages of a delivery of app/telegram.py that were posted and went on to their receipts.
use jeonghan_daily_review_bo.Prelude.{
  ℕ, zero, suc, Text, ◌≡◌, refl, sym, ap, ◌∙◌, List, [], ◌∷◌, ◌++◌,
}
use mathlib.Core.List.{append-nil}
use jeonghan_daily_review_bo.Telegram.Send.{
  Message, Event, paused, posted, unnoted, unnoted_times, World, answered, refused,
}

-- The texts that were posted and noted, in order.
abbrev pub bodies : List Event → List Text
bodies [] = []
bodies (paused ∷ es) = bodies es
bodies (posted m ∷ es) = m.body ∷ bodies es
bodies (unnoted m ∷ es) = bodies es

pub bodies-append : (xs ys : List Event) → bodies (xs ++ ys) ≡ bodies xs ++ bodies ys
bodies-append [] ys = refl
bodies-append (paused ∷ xs) ys = bodies-append xs ys
bodies-append (posted m ∷ xs) ys = ap (◌∷◌ m.body) (bodies-append xs ys)
bodies-append (unnoted m ∷ xs) ys = bodies-append xs ys

bodies-unnoted_times :
    (n : ℕ) (m : Message) (ys : List Event) → bodies (unnoted_times n m ++ ys) ≡ bodies ys
bodies-unnoted_times zero m ys = refl
bodies-unnoted_times (suc n) m ys = bodies-unnoted_times n m ys

pub bodies-refused :
    (n : ℕ) (m : Message) (w : World) → bodies (refused n m w).events ≡ bodies w.events
bodies-refused n m w =
    bodies-append w.events (unnoted_times n m)
    ∙ ap (λ es. bodies w.events ++ bodies es) (sym (append-nil (unnoted_times n m)))
    ∙ ap (◌++◌ (bodies w.events)) (bodies-unnoted_times n m [])
    ∙ append-nil (bodies w.events)

pub bodies-answered :
    (n : ℕ) (m : Message) (w : World)
    → bodies (answered n m w).events ≡ bodies w.events ++ m.body ∷ []
bodies-answered n m w =
    bodies-append w.events (unnoted_times n m ++ posted m ∷ [])
    ∙ ap (◌++◌ (bodies w.events)) (bodies-unnoted_times n m (posted m ∷ []))
