-- ===== src/Telegram/Send.antt =====
-- `TelegramBot.send_message` of app/telegram.py: the parts of a message, with a receipt for each
-- part that Telegram has taken.
use jeonghan_daily_review_bo.Prelude.{
  ℕ, zero, suc, Text, Bool, true, false, not, ◌&&◌, Option, none, some, List, [], ◌∷◌, ◌++◌,
  is_empty, if◌then◌else◌,
}
use jeonghan_daily_review_bo.Telegram.Split.{Split, parts, too_long, out_of_fuel}
use jeonghan_daily_review_bo.Telegram.Receipts.{
  Store, confirmed_message_id, confirm, get_plan, save_plan,
}

pub data Error : Type 0 where
  permanent transient callback_data interrupted : Error
  rate_limit : ℕ → Error

-- What `api("sendMessage", ...)` ends in. Telegram may have taken a request whose answer was lost,
-- which `api` tries again or raises for: each reply begins with the number of such requests. A request
-- that is answered has the id of the message, and whether a rate limit was met on the way; the process
-- may then stop, or the write of the receipt raise, before the receipt is stored.
pub data Reply : Type 0 where
  delivered : ℕ → ℕ → Bool → Reply
  failed cut_off : ℕ → Error → Reply

pub record Message : Type 0 where
  pub chat_id : ℕ
  pub body : Text
  pub disable_preview : Bool
  pub markup : Option Text

-- What leaves the process, in order: a message that Telegram took is `posted` where its call went on
-- to the receipt, and `unnoted` where the answer was lost or the call ended before the receipt.
pub data Event : Type 0 where
  paused : Event
  posted unnoted : Message → Event

-- The result of `_encode_reply_markup`: the JSON text, none for no markup, or an error.
pub data Markup : Type 0 where
  encoded : Option Text → Markup
  not_encoded : Error → Markup

-- What a call of the method fixes.
pub record Request : Type 0 where
  pub text : Text
  pub chat_id : ℕ
  pub markup : Markup
  pub disable_preview : Bool
  pub delivery_key : Text
  pub pacing : Bool

pub record World : Type 0 where
  pub store : Store
  pub events : List Event
  pub calls : ℕ

-- The loop's variables `sent_network_part` and `previous_send_was_rate_limited`.
pub record Flow : Type 0 where
  pub sent_network_part : Bool
  pub rate_limited : Bool

-- How the body of the loop ends: with the flow and the message id, or by an exception.
pub data Sent : Type 0 where
  next : Flow → ℕ → Sent
  stopped : Error → Sent

pub data Outcome : Type 0 where
  returned : ℕ → Outcome
  raised : Error → Outcome

abbrev pub markup_of : Request → Bool → Markup
markup_of q true = q.markup
markup_of q false = encoded none

abbrev pub unnoted_times : ℕ → Message → List Event
unnoted_times zero m = []
unnoted_times (suc n) m = unnoted m ∷ unnoted_times n m

-- A call of `api` that Telegram has taken so many messages of, without a receipt.
abbrev pub refused : ℕ → Message → World → World
refused n m w = record w { events = w.events ++ unnoted_times n m; calls = suc w.calls }

abbrev pub answered : ℕ → Message → World → World
answered n m w = record w {
  events = w.events ++ (unnoted_times n m ++ posted m ∷ []);
  calls = suc w.calls;
}

abbrev pub idle : Flow
idle = record { sent_network_part = false; rate_limited = false }

-- The rest of the loop runs unless the part raised.
abbrev pub after_part : (Flow → ℕ → World → World × Outcome) → World × Sent → World × Outcome
after_part rest (w, stopped e) = (w, raised e)
after_part rest (w, next f id) = rest f id w

module _ (q : Request) where
  abbrev pub pause : Flow → World → World
  pause f w =
      if f.sent_network_part && not f.rate_limited && q.pacing
      then record w { events = w.events ++ paused ∷ [] }
      else w

  abbrev pub message_of : Text → Option Text → Message
  message_of part markup = record {
    chat_id = q.chat_id;
    body = part;
    disable_preview = q.disable_preview;
    markup = markup;
  }

module _ (durable : Bool) (q : Request) where
  -- `delivery_key and self.message_delivery_store is not None`
  abbrev pub is_keyed : Bool
  is_keyed = not (is_empty q.delivery_key) && durable

module _ (hash : Text → Text) (durable : Bool) (q : Request) where
  abbrev pub confirmed_part : Store → ℕ → Text → Option ℕ
  confirmed_part s index part =
      if is_keyed durable q then confirmed_message_id hash s q.delivery_key index part else none

  -- The receipt of a part that Telegram has answered.
  abbrev pub receipted : ℕ → Text → ℕ → World → World
  receipted index part id w = record w {
    store =
        if is_keyed durable q then confirm hash w.store q.delivery_key index part id else w.store;
  }

  -- A part that Telegram has taken is confirmed before the next one is sent.
  abbrev pub taken : ℕ → Text → Option Text → ℕ → ℕ → World → World
  taken index part markup n id w = receipted index part id (answered n (message_of q part markup) w)

  -- The plan that is stored, if the delivery has one.
  abbrev pub stored_plan : Store → Option (List Text)
  stored_plan s = if is_keyed durable q then get_plan s q.delivery_key else none

  -- A new plan is stored before its first part is sent.
  abbrev pub planned : List Text → World → World
  planned ps w =
      if is_keyed durable q && not (is_empty ps)
      then record w { store = save_plan hash w.store q.delivery_key q.text ps }
      else w

module _ (hash : Text → Text) (api : ℕ → Reply) (durable : Bool) (q : Request) where
  -- The body of the loop for a part that is not confirmed.
  unfoldable pub send_part : ℕ → Bool → Text → Flow → World → World × Sent
  send_part index is_final part f w = elim (markup_of q is_final) [
    | not_encoded e ↦ (pause q f w, stopped e)
    | encoded markup ↦ elim (api w.calls) [
      | failed n e ↦ (refused n (message_of q part markup) (pause q f w), stopped e)
      | cut_off n e ↦ (refused (suc n) (message_of q part markup) (pause q f w), stopped e)
      | delivered n id limited ↦ (
        taken hash durable q index part markup n id (pause q f w),
        next (record { sent_network_part = true; rate_limited = limited }) id,
      )
    ]
  ]

  -- The loop over the parts, from the one at `index`.
  unfoldable pub send_parts : ℕ → List Text → Flow → ℕ → World → World × Outcome
  send_parts index [] f last w = (w, returned last)
  send_parts index (part ∷ rest) f last w =
      elim (confirmed_part hash durable q w.store index part) [
        | some id ↦ send_parts (suc index) rest f id w
        | none ↦ after_part (send_parts (suc index) rest) (send_part index (is_empty rest) part f w)
      ]

  abbrev pub send_plan : List Text → World → World × Outcome
  send_plan [] w = (w, raised permanent)
  send_plan (p ∷ ps) w = send_parts 0 (p ∷ ps) idle 0 w

  -- `send_message`, by the way in which a text is split.
  unfoldable pub send_message : (Text → Split) → World → World × Outcome
  send_message split w = elim (stored_plan hash durable q w.store) [
    | some ps ↦ send_plan ps w
    | none ↦ elim (split q.text) [
      | parts ps ↦ send_plan ps (planned hash durable q ps w)
      | too_long ↦ (w, raised permanent)
      | out_of_fuel ↦ (w, raised permanent)
    ]
  ]
