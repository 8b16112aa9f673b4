-- ===== src/Telegram/Tests.antt =====
-- Texts and deliveries of a few characters, and the theorems at them.
use jeonghan_daily_review_bo.Prelude.{
  ℕ, zero, suc, none, ◌+◌, ◌==◌, Text, codes, text_dec, ◌≡◌, refl, true, false, some, [], ◌∷◌, All,
  arith, if◌then◌else◌,
}
use jeonghan_daily_review_bo.Prelude.Table.{lookup, insert_ignore}
use jeonghan_daily_review_bo.Telegram.Cut.{split_at}
use jeonghan_daily_review_bo.Telegram.Chunks.{
  split_unlabeled, concat, IsPart, split_unlabeled-IsPart, concat-split_unlabeled,
}
use jeonghan_daily_review_bo.Telegram.Split.{Split, parts, split_telegram_text}
use jeonghan_daily_review_bo.Telegram.Receipts.{
  confirmed_message_id, confirm, get_plan, save_plan, receipt_of, without_receipt,
}
use jeonghan_daily_review_bo.Telegram.Send.{
  rate_limit, Reply, delivered, failed, cut_off, transient, interrupted, encoded, Request, World,
  send_part, send_parts, send_message,
}
use jeonghan_daily_review_bo.Telegram.Api.{
  Answer, network_error, payload, returned, raised, api_from, api,
}
use jeonghan_daily_review_bo.Telegram.Tries.{IsTried, api-IsTried}
use jeonghan_daily_review_bo.Telegram.Resume.{unconfirmed}
use jeonghan_daily_review_bo.Telegram.Retry.{resend}
use jeonghan_daily_review_bo.Telegram.Posts.{posts, repeats, IsMerge, losses, IsAccounted}
use jeonghan_daily_review_bo.Telegram.Lost.{last_call, resend-IsMerge}

program : Unit {0}
unfolding text_dec lookup insert_ignore split_at split_unlabeled split_telegram_text
    confirmed_message_id confirm get_plan save_plan receipt_of without_receipt send_part send_parts
    send_message unconfirmed resend losses
program = tt

at_spaces : split_unlabeled 20 6 (codes "ab cd ef gh") ≡ codes "ab cd " ∷ codes "ef gh" ∷ []
unfolding program
at_spaces = refl

at_newline :
    split_unlabeled 20 6 (codes "abc. de\nf gh") ≡ codes "abc. " ∷ codes "de\n" ∷ codes "f gh" ∷ []
unfolding program
at_newline = refl

split_unlabeled-IsPart_example : All (IsPart 6) (split_unlabeled 11 6 (codes "ab cd ef gh"))
split_unlabeled-IsPart_example =
    split_unlabeled-IsPart 11 6 (codes "ab cd ef gh") (omega arith) (omega arith)

concat-split_unlabeled_example :
    concat (split_unlabeled 3 6 (codes "ab cd ef gh")) ≡ codes "ab cd ef gh"
concat-split_unlabeled_example = concat-split_unlabeled 3 6 (codes "ab cd ef gh")

abbrev request : Request
request = record {
  text = codes "hello";
  chat_id = 7;
  markup = encoded (some (codes "{}"));
  disable_preview = true;
  delivery_key = codes "k";
  pacing = true;
}

abbrev fresh_world : World
fresh_world = record { store = record { receipts = []; plans = [] }; events = []; calls = 0 }

abbrev three_parts : Text → Split
three_parts s = parts (codes "a" ∷ codes "b" ∷ codes "c" ∷ [])

-- Telegram takes the second request, but its answer is lost; the process stops before the receipt of
-- the third; and one try of the fifth is lost.
abbrev flaky : ℕ → Reply
flaky n =
    if n == 1
    then failed 1 transient
    else if n == 2
    then cut_off 0 interrupted
    else if n == 4
    then delivered 1 104 false
    else delivered 0 (100 + n) false

resend-IsMerge_example :
    IsMerge
      (codes "a" ∷ codes "b" ∷ codes "c" ∷ [])
      (repeats (last_call (λ s. s) true request refl flaky three_parts 2 fresh_world).0.events)
      (posts (last_call (λ s. s) true request refl flaky three_parts 2 fresh_world).0.events)
    × IsAccounted flaky (last_call (λ s. s) true request refl flaky three_parts 2 fresh_world).0
unfolding program
resend-IsMerge_example =
    resend-IsMerge (λ s. s) true request refl flaky three_parts 2 fresh_world (codes "a")
      (codes "b" ∷ codes "c" ∷ []) 104 refl refl refl refl refl

taken_by_telegram :
    posts (last_call (λ s. s) true request refl flaky three_parts 2 fresh_world).0.events
    ≡ codes "a" ∷ codes "b" ∷ codes "b" ∷ codes "b" ∷ codes "c" ∷ codes "c" ∷ []
unfolding program
taken_by_telegram = refl

abbrev slow_answers : ℕ → Answer
slow_answers zero = network_error
slow_answers (suc zero) = payload (record {
  status_code = 429;
  error_code = 429;
  retry_after = some 7;
  is_ok = false;
  result = [];
})
slow_answers (suc (suc k)) = payload (record {
  status_code = 200;
  error_code = 0;
  retry_after = none;
  is_ok = true;
  result = codes "sent";
})

third_try : (api slow_answers 3).result ≡ returned (codes "sent")
unfolding program api api_from
third_try = refl

two_tries : (api slow_answers 2).result ≡ raised (rate_limit 7)
unfolding program api api_from
two_tries = refl

api-IsTried_example : (k : ℕ) × IsTried slow_answers 3 k (api slow_answers 3)
api-IsTried_example = api-IsTried slow_answers 3
