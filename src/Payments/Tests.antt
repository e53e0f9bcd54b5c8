-- ===== src/Payments/Tests.antt =====
-- Payment codes in transfers, and the theorem at a concrete input.
use borrow_hub.Schema.{Env, PaymentProvider, PaymentStatus, TransactionId, Payment, Database}
use borrow_hub.Store.{ok}
use borrow_hub.Rentals.Settlement.{
  settle_verified_payment, settle, settle_new, generate_contract_number,
}
use borrow_hub.Rentals.Tests.Fixture.{env, db, payment}
use borrow_hub.Payments.Code.{extract_payment_code}
use borrow_hub.Payments.Webhook.{
  SepayConfig, SepayWebhookDto, SepayWebhook, WebhookAnswer, is_verified_webhook, is_recorded,
  same_text, flag_payment_for_review, apply_transfer, apply_code, handle_transfer,
  handle_sepay_webhook,
}
use borrow_hub.Payments.Once.{handle_sepay_webhook-once}
use borrow_hub.Payments.Results.{
  IsPaidInFull, handle_sepay_webhook-settled, flag_payment_for_review-forgets,
}
use borrow_hub.Common.{false, true, ℕ, ◌≡◌, refl, none, some, List, [], ◌∷◌, ◌++◌, arith}
use borrow_hub.Rentals.Intent.{build_payment_code}
use borrow_hub.Payments.Code.{extract_payment_code}
use borrow_hub.Payments.RoundTrip.{extract-build_payment_code}

-- `cm5-k8x2p9qw`
abbrev id : List ℕ
id = b'c' ∷ b'm' ∷ b'5' ∷ b'-' ∷ b'k' ∷ b'8' ∷ b'x' ∷ b'2' ∷ b'p' ∷ b'9' ∷ b'q' ∷ b'w' ∷ []

-- ` thanks`
abbrev rest : List ℕ
rest = b' ' ∷ b't' ∷ b'h' ∷ b'a' ∷ b'n' ∷ b'k' ∷ b's' ∷ []

-- The code is found behind other text, and in lower case.
extract_runs :
    extract_payment_code none (
      some (
        b'b' ∷ b'b' ∷ b'h' ∷ b'1' ∷ b'2' ∷ b'3' ∷ b'4' ∷ b'5' ∷ b'6' ∷ b'7' ∷ b'8' ∷ b'9' ∷ b'x'
        ∷ rest))
    ≡ some (b'B' ∷ b'H' ∷ b'1' ∷ b'2' ∷ b'3' ∷ b'4' ∷ b'5' ∷ b'6' ∷ b'7' ∷ b'8' ∷ b'9' ∷ b'X' ∷ [])
unfolding extract_payment_code
extract_runs = refl

extract-build_payment_code_example :
    (extract_payment_code (some (build_payment_code id ++ rest)) none
      ≡ some (build_payment_code id))
    × (extract_payment_code none (some (build_payment_code id ++ rest))
        ≡ some (build_payment_code id))
extract-build_payment_code_example = extract-build_payment_code id rest none (omega arith) refl

abbrev transfer_code : List ℕ
transfer_code =
    b'B' ∷ b'H' ∷ b'1' ∷ b'2' ∷ b'3' ∷ b'4' ∷ b'5' ∷ b'6' ∷ b'7' ∷ b'8' ∷ b'9' ∷ b'0' ∷ []

abbrev sepay_payment : Payment
sepay_payment = record (payment PaymentStatus.pending) {
  provider = PaymentProvider.sepay;
  provider_transaction_id = TransactionId.intent PaymentProvider.sepay transfer_code;
}

abbrev sepay_db : Database
sepay_db = record db { payments = sepay_payment ∷ [] }

abbrev config : SepayConfig
config = record {
  account_number = 7 ∷ [];
  webhook_secret = 8 ∷ [];
  api_key = none;
  signature_of = λ t body. t ∷ [];
}

abbrev transfer : (id amount : ℕ) → SepayWebhookDto
transfer id amount = record {
  id = id;
  is_incoming = true;
  account_number = 7 ∷ [];
  code = none;
  content = some (b' ' ∷ transfer_code);
  transfer_amount = amount;
}

abbrev webhook : (id amount : ℕ) → SepayWebhook
webhook id amount = record {
  dto = transfer id amount;
  raw_body = some "{}";
  signature = some (1000000 ∷ []);
  timestamp = some 1000000;
  authorization = none;
}

-- A transfer of another amount calls for a review; after it, the right amount is ignored.
wrong_amount_runs :
    (handle_sepay_webhook env config (webhook 5 2000) sepay_db).0 ≡ ok WebhookAnswer.review_required
unfolding handle_sepay_webhook handle_transfer apply_transfer flag_payment_for_review
    is_verified_webhook extract_payment_code
wrong_amount_runs = refl

right_amount_runs :
    (handle_sepay_webhook env config
      (webhook 6 2100)
      (handle_sepay_webhook env config (webhook 5 2000) sepay_db).1).0
    ≡ ok WebhookAnswer.ignored
unfolding handle_sepay_webhook handle_transfer apply_transfer flag_payment_for_review
    is_verified_webhook extract_payment_code
right_amount_runs = refl

handle_sepay_webhook-settled_example :
    (is_verified_webhook env config (webhook 6 2100) ≡ true)
    × (true ≡ true)
    × (is_recorded 6 sepay_db ≡ false)
    × (same_text (7 ∷ []) (7 ∷ []) ≡ true)
    × IsPaidInFull (transfer 6 2100) sepay_db
unfolding handle_sepay_webhook handle_transfer apply_transfer is_verified_webhook
    extract_payment_code settle_verified_payment settle settle_new generate_contract_number
handle_sepay_webhook-settled_example =
    handle_sepay_webhook-settled env config (webhook 6 2100) sepay_db refl

flag_payment_for_review-forgets_example :
    apply_code env
      (transfer 6 2100)
      (some transfer_code)
      (flag_payment_for_review 20 11 5 sepay_db).1
    ≡ (ok WebhookAnswer.ignored, (flag_payment_for_review 20 11 5 sepay_db).1)
flag_payment_for_review-forgets_example =
    flag_payment_for_review-forgets env transfer_code 20 11 5 (transfer 6 2100) sepay_db refl refl

-- An hour later, without a signature, with an API key.
abbrev later : Env
later = record env { now = 1003600000 }

abbrev redelivered : SepayWebhook
redelivered = record (webhook 6 2100) {
  signature = none;
  authorization = some (b'A' ∷ b'p' ∷ b'i' ∷ b'k' ∷ b'e' ∷ b'y' ∷ b' ' ∷ 8 ∷ []);
}

handle_sepay_webhook-once_example :
    (handle_sepay_webhook later config redelivered
      (handle_sepay_webhook env config (webhook 6 2100) sepay_db).1).1
    ≡ (handle_sepay_webhook env config (webhook 6 2100) sepay_db).1
unfolding handle_sepay_webhook handle_transfer apply_transfer is_verified_webhook
    extract_payment_code settle_verified_payment settle settle_new generate_contract_number
handle_sepay_webhook-once_example =
    handle_sepay_webhook-once env later config (webhook 6 2100) redelivered sepay_db refl refl
