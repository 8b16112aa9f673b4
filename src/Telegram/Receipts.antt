-- ===== src/Telegram/Receipts.antt =====
-- `MessageDeliveryStore` of app/message_delivery.py. SHA-256 is the parameter `hash`; the JSON text
-- of the parts is the list that it stands for.
use jeonghan_daily_review_bo.Prelude.{
  ℕ, Text, ◌===◌, ◌≡◌, refl, Bool, not, ◌&&◌, Option, none, some, List, [], ◌∷◌, ◌++◌, all, select,
  is_empty, arith, ◌==◌, if◌then◌else◌,
}
use jeonghan_daily_review_bo.Prelude.Table.{lookup, insert_ignore, delete}

-- A row of `message_delivery_parts`.
pub record Receipt : Type 0 where
  pub delivery_key : Text
  pub part_index : ℕ
  pub content_sha256 : Text
  pub message_id : ℕ

-- A row of `message_delivery_plans`.
pub record Plan : Type 0 where
  pub delivery_key : Text
  pub source_sha256 : Text
  pub full_text : Text
  pub parts : List Text

pub record Store : Type 0 where
  pub receipts : List Receipt
  pub plans : List Plan

abbrev pub plan_key : Plan → Text
plan_key p = p.delivery_key

-- The row of a primary key.
unfoldable pub receipt_of : Text → ℕ → List Receipt → Option Receipt
receipt_of key index [] = none
receipt_of key index (r ∷ rs) =
    if (r.delivery_key === key) && r.part_index == index then some r else receipt_of key index rs

unfoldable pub without_receipt : Text → ℕ → List Receipt → List Receipt
without_receipt key index [] = []
without_receipt key index (r ∷ rs) =
    let rest = without_receipt key index rs in
    if (r.delivery_key === key) && r.part_index == index then rest else r ∷ rest

module _ (hash : Text → Text) where
  abbrev pub id_if_same : Text → Option Receipt → Option ℕ
  id_if_same content none = none
  id_if_same content (some r) =
      if r.content_sha256 === hash content then some r.message_id else none

  unfoldable pub confirmed_message_id : Store → Text → ℕ → Text → Option ℕ
  confirmed_message_id s key index content = id_if_same content (receipt_of key index s.receipts)

  -- `INSERT OR REPLACE`
  unfoldable pub confirm : Store → Text → ℕ → Text → ℕ → Store
  confirm s key index content id = record s {
    receipts =
        without_receipt key index s.receipts
        ++ record {
          delivery_key = key;
          part_index = index;
          content_sha256 = hash content;
          message_id = id;
        }
          ∷ [];
  }

  -- `INSERT OR IGNORE`
  unfoldable pub save_plan : Store → Text → Text → List Text → Store
  save_plan s key full parts = record s {
    plans =
        insert_ignore plan_key
          (record {
            delivery_key = key;
            source_sha256 = hash full;
            full_text = full;
            parts = parts;
          })
          s.plans;
  }

-- A stored plan counts if it has parts and none of them is empty.
abbrev pub usable : List Text → Bool
usable parts = not (is_empty parts) && all (λ p. not (is_empty p)) parts

unfoldable pub get_plan : Store → Text → Option (List Text)
get_plan s key = elim (lookup plan_key key s.plans) [
  | none ↦ none
  | some p ↦ if usable p.parts then some p.parts else none
]

-- `clear`
unfoldable pub clear : Store → Text → Store
clear s key = record {
  receipts = select (λ r. not (r.delivery_key === key)) s.receipts;
  plans = delete plan_key key s.plans;
}

receipt_of-append :
    (key : Text) (index : ℕ) (xs ys : List Receipt)
    → receipt_of key index (xs ++ ys)
      ≡ elim (receipt_of key index xs) [ none ↦ receipt_of key index ys | some r ↦ some r ]
unfolding receipt_of
receipt_of-append key index [] ys = refl
receipt_of-append key index (x ∷ xs) ys = ground (arith, receipt_of-append key index xs ys)

receipt_of-without :
    (key key' : Text) (index index' : ℕ) (xs : List Receipt)
    → receipt_of key' index' (without_receipt key index xs)
      ≡ (if (key === key') && index == index' then none else receipt_of key' index' xs)
unfolding receipt_of without_receipt
receipt_of-without key key' index index' [] = ground arith
receipt_of-without key key' index index' (x ∷ xs) =
    ground (arith, receipt_of-without key key' index index' xs)

module _ (hash : Text → Text) where
  -- What a receipt confirms: its own part of its own delivery, and nothing else changes.
  pub confirmed-confirm :
      (s : Store) (key key' : Text) (index index' : ℕ) (content content' : Text) (id : ℕ)
      → confirmed_message_id hash (confirm hash s key index content id) key' index' content' ≡ (
          if (key === key') && index == index'
          then if hash content === hash content' then some id else none
          else confirmed_message_id hash s key' index' content')
  unfolding confirmed_message_id confirm receipt_of
  confirmed-confirm s key key' index index' content content' id =
      let row : Receipt = record {
        delivery_key = key;
        part_index = index;
        content_sha256 = hash content;
        message_id = id;
      } in
      ground (
        arith,
        receipt_of-append key' index' (without_receipt key index s.receipts) (row ∷ []),
        receipt_of-without key key' index index' s.receipts,
      )
