-- ===== src/Telegram/Resume.antt =====
-- What a delivery of app/telegram.py that is interrupted and tried again has posted and confirmed.
use jeonghan_daily_review_bo.Prelude.{
  ℕ, suc, ◌<◌, ◌≤◌, Text, ◌===◌, ◌≡◌, refl, ◌∙◌, ◌⊎◌, Bool, true, not, ◌&&◌, Option, none, some,
  List, [], ◌∷◌, ◌++◌, is_empty, if◌then◌else◌, arith, ◌==◌, Bool-cases, Option-cases, inl, inr,
}
use mathlib.Core.List.{append_assoc, append-nil}
use jeonghan_daily_review_bo.Telegram.Receipts.{Store, confirmed-confirm}
use jeonghan_daily_review_bo.Telegram.Noted.{bodies, bodies-append, bodies-refused, bodies-answered}
use jeonghan_daily_review_bo.Telegram.Send.{
  Error, Reply, delivered, failed, cut_off, paused, Markup, encoded, not_encoded, Request, World,
  Flow, next, stopped, Outcome, returned, raised, is_keyed, confirmed_part, markup_of, message_of,
  pause, taken, refused, send_part, send_parts,
}

module _ (hash : Text → Text) (durable : Bool) (q : Request) where
  -- The parts from `index` on that have no receipt.
  unfoldable pub unconfirmed : Store → ℕ → List Text → List Text
  unconfirmed s index [] = []
  unconfirmed s index (p ∷ ps) =
      let rest = unconfirmed s (suc index) ps in
      elim (confirmed_part hash durable q s index p) [ none ↦ p ∷ rest | some id ↦ rest ]

  -- Two stores with the same receipts from `index` on leave the same parts.
  pub unconfirmed-eq :
      (s t : Store) (index : ℕ) (ps : List Text)
      → ((j : ℕ) (p : Text)
          → index ≤ j
          → confirmed_part hash durable q s j p ≡ confirmed_part hash durable q t j p)
      → unconfirmed s index ps ≡ unconfirmed t index ps
  unfolding unconfirmed
  unconfirmed-eq s t index [] h = refl
  unconfirmed-eq s t index (p ∷ ps) h = ground (
    arith,
    h index p (omega arith),
    unconfirmed-eq s t (suc index) ps (λ j p' le. h j p' (omega arith)),
  )

pub pause-keeps :
    (q : Request) (f : Flow) (w : World)
    → ((pause q f w).store ≡ w.store) × (bodies (pause q f w).events ≡ bodies w.events)
pause-keeps q f w = elim (Bool-cases (f.sent_network_part && not f.rate_limited && q.pacing)) [
  | inr e ↦ rw e (refl, refl)
  | inl e ↦ rw e (refl, bodies-append w.events (paused ∷ []) ∙ append-nil (bodies w.events))
]

module _ (hash : Text → Text) (api : ℕ → Reply) (durable : Bool) (q : Request) where
  abbrev pub Stops : ℕ → Bool → Text → Flow → World → Type 0
  Stops index is_final part f w =
      (w' : World) × (e : Error) × (send_part hash api durable q index is_final part f w
        ≡ (w', stopped e))
      × (w'.store ≡ w.store)
      × (bodies w'.events ≡ bodies w.events)

  abbrev pub Goes : ℕ → Bool → Text → Flow → World → Type 0
  Goes index is_final part f w =
      (markup : Option Text) × (n : ℕ) × (id : ℕ) × (f' : Flow) × (send_part hash api durable q
          index is_final part f w
        ≡ (taken hash durable q index part markup n id (pause q f w), next f' id))

  -- A part that is tried fails, with nothing noted and nothing confirmed, or is taken.
  pub send_part-cases :
      (index : ℕ) (is_final : Bool) (part : Text) (f : Flow) (w : World)
      → Stops index is_final part f w ⊎ Goes index is_final part f w
  unfolding send_part
  send_part-cases index is_final part f w = with_markup (markup_of q is_final) refl
    where
      keeps : ((pause q f w).store ≡ w.store) × (bodies (pause q f w).events ≡ bodies w.events)
      keeps = pause-keeps q f w

      with_reply :
          (markup : Option Text) (r : Reply)
          → markup_of q is_final ≡ encoded markup
          → api w.calls ≡ r
          → Stops index is_final part f w ⊎ Goes index is_final part f w
      with_reply markup (failed n e) m a = inl (
        refused n (message_of q part markup) (pause q f w),
        e,
        rw (m, a, send_part) refl,
        keeps.0,
        bodies-refused n (message_of q part markup) (pause q f w) ∙ keeps.1,
      )
      with_reply markup (cut_off n e) m a = inl (
        refused (suc n) (message_of q part markup) (pause q f w),
        e,
        rw (m, a, send_part) refl,
        keeps.0,
        bodies-refused (suc n) (message_of q part markup) (pause q f w) ∙ keeps.1,
      )
      with_reply markup (delivered n id limited) m a = inr (
        markup,
        n,
        id,
        record { sent_network_part = true; rate_limited = limited },
        rw (m, a, send_part) refl,
      )

      with_markup :
          (m : Markup)
          → markup_of q is_final ≡ m
          → Stops index is_final part f w ⊎ Goes index is_final part f w
      with_markup (not_encoded e) m = inl (pause q f w, e, rw (m, send_part) refl, keeps.0, keeps.1)
      with_markup (encoded markup) m = with_reply markup (api w.calls) m refl

module _ (hash : Text → Text) (durable : Bool) (q : Request)
    (keyed : is_keyed durable q ≡ true) where
  -- A part that was taken is confirmed, and the receipts of the others stay.
  confirmed-taken :
      (index j : ℕ) (part p : Text) (markup : Option Text) (n id : ℕ) (w : World)
      → confirmed_part hash durable q (taken hash durable q index part markup n id w).store j p ≡ (
          if index == j
          then if hash part === hash p then some id else none
          else confirmed_part hash durable q w.store j p)
  confirmed-taken index j part p markup n id w =
      ground (
        arith,
        keyed,
        confirmed-confirm hash w.store q.delivery_key q.delivery_key index j part p id,
      )

  unconfirmed-taken :
      (index : ℕ) (part : Text) (ps : List Text) (markup : Option Text) (n id : ℕ) (w : World)
      → unconfirmed hash durable q
          (taken hash durable q index part markup n id w).store
          (suc index)
          ps
        ≡ unconfirmed hash durable q w.store (suc index) ps
  unconfirmed-taken index part ps markup n id w =
      unconfirmed-eq hash durable q _ w.store (suc index) ps
        (λ j p le. ground (arith, confirmed-taken index j part p markup n id w))

  module _ (api : ℕ → Reply) where
    abbrev pub Run : ℕ → List Text → Flow → ℕ → World → World × Outcome
    Run = send_parts hash api durable q

    module _ (index : ℕ) (part : Text) (rest : List Text) (f : Flow) (last : ℕ) (w : World) where
      pub after_confirmed :
          (id : ℕ)
          → confirmed_part hash durable q w.store index part ≡ some id
          → Run index (part ∷ rest) f last w ≡ Run (suc index) rest f id w
      unfolding send_parts
      after_confirmed id c = rw (c, send_parts) refl

      pub after_stop :
          (w' : World) (e : Error)
          → confirmed_part hash durable q w.store index part ≡ none
          → send_part hash api durable q index (is_empty rest) part f w ≡ (w', stopped e)
          → Run index (part ∷ rest) f last w ≡ (w', raised e)
      unfolding send_parts
      after_stop w' e c stop = rw (c, send_parts, stop) refl

      pub after_taken :
          (w' : World) (f' : Flow) (id : ℕ)
          → confirmed_part hash durable q w.store index part ≡ none
          → send_part hash api durable q index (is_empty rest) part f w ≡ (w', next f' id)
          → Run index (part ∷ rest) f last w ≡ Run (suc index) rest f' id w'
      unfolding send_parts
      after_taken w' f' id c go = rw (c, send_parts, go) refl

    -- The loop leaves the receipts of the parts before it alone.
    pub send_parts-below :
        (index : ℕ) (ps : List Text) (f : Flow) (last : ℕ) (w : World) (j : ℕ) (p : Text)
        → j < index
        → confirmed_part hash durable q (Run index ps f last w).0.store j p
          ≡ confirmed_part hash durable q w.store j p
    unfolding send_parts
    send_parts-below index [] f last w j p lt = refl
    send_parts-below index (part ∷ rest) f last w j p lt =
        elim (Option-cases (confirmed_part hash durable q w.store index part)) [
          | inr (id, c) ↦
              rw (after_confirmed index part rest f last w id c)
                (send_parts-below (suc index) rest f id w j p (omega arith))
          | inl c ↦ elim (send_part-cases hash api durable q index (is_empty rest) part f w) [
            | inl (w', e, stop, same, _) ↦
                rw (after_stop index part rest f last w w' e c stop, same) refl
            | inr (markup, n, id, f', go) ↦ rw (after_taken index part rest f last w _ f' id c go) (
                send_parts-below (suc index) rest f' id
                  (taken hash durable q index part markup n id (pause q f w)) j p (omega arith)
                ∙ ground (
                  arith,
                  confirmed-taken index j part p markup n id (pause q f w),
                  pause-keeps q f w,
                ))
          ]
        ]

    unconfirmed-some :
        (s : Store) (index : ℕ) (part : Text) (rest : List Text) (id : ℕ)
        → confirmed_part hash durable q s index part ≡ some id
        → unconfirmed hash durable q s index (part ∷ rest)
          ≡ unconfirmed hash durable q s (suc index) rest
    unfolding unconfirmed
    unconfirmed-some s index part rest id c = rw (c, unconfirmed) refl

    unconfirmed-none :
        (s : Store) (index : ℕ) (part : Text) (rest : List Text)
        → confirmed_part hash durable q s index part ≡ none
        → unconfirmed hash durable q s index (part ∷ rest)
          ≡ part ∷ unconfirmed hash durable q s (suc index) rest
    unfolding unconfirmed
    unconfirmed-none s index part rest c = rw (c, unconfirmed) refl

    -- What is noted as posted, and what is left to post, of the parts from `index` on.
    abbrev pub ledger : ℕ → List Text → World → List Text
    ledger index ps w = bodies w.events ++ unconfirmed hash durable q w.store index ps

    -- A part that is taken moves from the one to the other.
    ledger-taken :
        (index : ℕ) (part : Text) (rest : List Text) (markup : Option Text) (n id : ℕ) (f : Flow)
        (w : World)
        → confirmed_part hash durable q w.store index part ≡ none
        → ledger (suc index) rest (taken hash durable q index part markup n id (pause q f w))
          ≡ ledger index (part ∷ rest) w
    ledger-taken index part rest markup n id f w c =
        let w1 = pause q f w in
        let keeps = pause-keeps q f w in
        rw
          (
            unconfirmed-taken index part rest markup n id w1,
            bodies-answered n (message_of q part markup) w1,
            keeps.0,
            keeps.1,
            unconfirmed-none w.store index part rest c,
          )
          (append_assoc (bodies w.events) (part ∷ [])
            (unconfirmed hash durable q w.store (suc index) rest))

    -- What is noted and what is left to post make up the same list before and after the loop.
    pub send_parts-conserves :
        (index : ℕ) (ps : List Text) (f : Flow) (last : ℕ) (w : World)
        → ledger index ps (Run index ps f last w).0 ≡ ledger index ps w
    unfolding send_parts
    send_parts-conserves index [] f last w = refl
    send_parts-conserves index (part ∷ rest) f last w =
        elim (Option-cases (confirmed_part hash durable q w.store index part)) [
          | inr (id, c) ↦
              let still = send_parts-below (suc index) rest f id w index part (omega arith) ∙ c in
              rw
                (
                  after_confirmed index part rest f last w id c,
                  unconfirmed-some _ index part rest id still,
                  unconfirmed-some w.store index part rest id c,
                )
                (send_parts-conserves (suc index) rest f id w)
          | inl c ↦ elim (send_part-cases hash api durable q index (is_empty rest) part f w) [
            | inl (w', e, stop, same, posted_same) ↦
                rw (after_stop index part rest f last w w' e c stop, same, posted_same) refl
            | inr (markup, n, id, f', go) ↦
                let w1 = taken hash durable q index part markup n id (pause q f w) in
                let still =
                  send_parts-below (suc index) rest f' id w1 index part (omega arith)
                  ∙ ground
                      (arith, confirmed-taken index index part part markup n id (pause q f w)) in
                rw
                  (
                    after_taken index part rest f last w _ f' id c go,
                    unconfirmed-some _ index part rest id still,
                  )
                  (send_parts-conserves (suc index) rest f' id w1
                    ∙ ledger-taken index part rest markup n id f w c)
          ]
        ]

    -- A loop that returns has confirmed every part.
    pub send_parts-confirms :
        (index : ℕ) (ps : List Text) (f : Flow) (last : ℕ) (w : World) (id : ℕ)
        → (Run index ps f last w).1 ≡ returned id
        → unconfirmed hash durable q (Run index ps f last w).0.store index ps ≡ []
    unfolding send_parts unconfirmed
    send_parts-confirms index [] f last w id done = refl
    send_parts-confirms index (part ∷ rest) f last w id done =
        elim (Option-cases (confirmed_part hash durable q w.store index part)) [
          | inr (id', c) ↦
              let same = after_confirmed index part rest f last w id' c in
              let still = send_parts-below (suc index) rest f id' w index part (omega arith) ∙ c in
              rw (same, unconfirmed-some _ index part rest id' still)
                (send_parts-confirms (suc index) rest f id' w id (rw same at done))
          | inl c ↦ elim (send_part-cases hash api durable q index (is_empty rest) part f w) [
            | inl (w', e, stop, _, _) ↦
                let never : raised e ≡ returned id =
                  rw (after_stop index part rest f last w w' e c stop) at done in
                absurd (cc)
            | inr (markup, n, id', f', go) ↦
                let w1 = taken hash durable q index part markup n id' (pause q f w) in
                let same = after_taken index part rest f last w w1 f' id' c go in
                let still =
                  send_parts-below (suc index) rest f' id' w1 index part (omega arith)
                  ∙ ground
                      (arith, confirmed-taken index index part part markup n id' (pause q f w)) in
                rw (same, unconfirmed-some _ index part rest id' still)
                  (send_parts-confirms (suc index) rest f' id' w1 id (rw same at done))
          ]
        ]
