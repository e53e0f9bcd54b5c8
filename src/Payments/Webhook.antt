-- ===== src/Payments/Webhook.antt =====
-- PaymentService: handleSepayWebhook, verifySepaySignature, flagPaymentForReview. A text that the
-- code compares is the list of its characters' codes.
use borrow_hub.Common.{
  ℕ, ◌+◌, ◌/◌, String, Bool, true, false, ◌&&◌, ◌||◌, Option, none, some, List, [], ◌∷◌, ◌++◌, ◌==◌,
  leb, if◌then◌else◌, any, find, update_where,
}
use text.Mathlib.Text.{◌==◌ as str_eq}
use borrow_hub.Schema.{
  PaymentProvider, PaymentStatus, RiskTargetType, RiskLevel, RiskIncidentStatus, TransactionId,
  Payment, Rental, RiskIncident, Database, Env,
}
use borrow_hub.Store.{
  Exception, Action, pure, gets, require, or_raise, when, transaction, modify, ◌>>=◌, ◌>>◌,
  find_rental,
}
use borrow_hub.Rentals.Settlement.{settle_verified_payment}
use borrow_hub.Payments.Code.{extract_payment_code}

-- The configuration: the account, the two secrets, and the HMAC of `crypto` with the first secret,
-- as the text `sha256=<hex>` of a timestamp and a body.
pub record SepayConfig : Type 0 where
  pub account_number : List ℕ
  pub webhook_secret : List ℕ
  pub api_key : Option (List ℕ)
  pub signature_of : (timestamp : ℕ) → (body : String) → List ℕ

pub record SepayWebhookDto : Type 0 where
  pub id : ℕ
  -- `transferType === 'in'`
  pub is_incoming : Bool
  pub account_number : List ℕ
  pub code : Option (List ℕ)
  pub content : Option (List ℕ)
  pub transfer_amount : ℕ

-- The body and the headers; a timestamp that is no safe integer, or negative, is left out.
pub record SepayWebhook : Type 0 where
  pub dto : SepayWebhookDto
  pub raw_body : Option String
  pub signature : Option (List ℕ)
  pub timestamp : Option ℕ
  pub authorization : Option (List ℕ)

abbrev pub same_text : List ℕ → List ℕ → Bool
same_text [] [] = true
same_text [] (d ∷ ds) = false
same_text (c ∷ cs) [] = false
same_text (c ∷ cs) (d ∷ ds) = c == d && same_text cs ds

abbrev pub is_text : List ℕ → Option (List ℕ) → Bool
is_text text none = false
is_text text (some other) = same_text text other

-- `toLowerCase`, on what lowers to a letter of `apikey `: the capitals and the sign for kelvin.
abbrev pub to_lower : ℕ → ℕ
to_lower c = if leb b'A' c && leb c b'Z' then c + 32 else if c == 8490 then b'k' else c

-- The text behind a prefix, in small letters, if it begins with it.
abbrev pub after_prefix : (prefix text : List ℕ) → Option (List ℕ)
after_prefix [] text = some text
after_prefix (p ∷ ps) [] = none
after_prefix (p ∷ ps) (c ∷ cs) =
    let rest = after_prefix ps cs in if to_lower c == p then rest else none

abbrev pub api_key_prefix : List ℕ
api_key_prefix = b'a' ∷ b'p' ∷ b'i' ∷ b'k' ∷ b'e' ∷ b'y' ∷ b' ' ∷ []

abbrev pub provided_api_key : Option (List ℕ) → Option (List ℕ)
provided_api_key none = none
provided_api_key (some authorization) = after_prefix api_key_prefix authorization

abbrev pub is_api_key : SepayConfig → Option (List ℕ) → Bool
is_api_key config none = false
is_api_key config (some key) = same_text key config.webhook_secret || is_text key config.api_key

-- `Math.abs(now - timestamp) <= WEBHOOK_TIMESTAMP_TOLERANCE_SECONDS`
abbrev pub is_fresh : (now timestamp : ℕ) → Bool
is_fresh now timestamp = leb now (timestamp + 300) && leb timestamp (now + 300)

abbrev pub is_signed : Env → SepayConfig → Option String → Option (List ℕ) → Option ℕ → Bool
is_signed env config (some body) (some signature) (some timestamp) =
    is_fresh (env.now / 1000) timestamp && same_text signature (config.signature_of timestamp body)
is_signed env config _ _ _ = false

unfoldable pub is_verified_webhook : Env → SepayConfig → SepayWebhook → Bool
is_verified_webhook env config w =
    is_api_key config (provided_api_key w.authorization)
    || is_signed env config w.raw_body w.signature w.timestamp

-- verifySepaySignature
abbrev pub verify_sepay_signature : Env → SepayConfig → SepayWebhook → Action (Unit {0})
verify_sepay_signature env config w =
    require (is_verified_webhook env config w)
      (Exception.unauthorized "Invalid SePay webhook signature")

pub data WebhookAnswer : Type 0 where
  settled ignored duplicate review_required : WebhookAnswer

-- The transaction ids `sepay:<id>` and `review:sepay:<id>`.
abbrev pub is_transfer : (transfer_id : ℕ) → TransactionId → Bool
is_transfer transfer_id (TransactionId.sepay i) = i == transfer_id
is_transfer transfer_id (TransactionId.review_sepay i) = i == transfer_id
is_transfer transfer_id _ = false

abbrev pub is_sepay : PaymentProvider → Bool
is_sepay PaymentProvider.sepay = true
is_sepay _ = false

-- `intent:SEPAY:<code>`
abbrev pub is_sepay_intent : (code : List ℕ) → TransactionId → Bool
is_sepay_intent code (TransactionId.intent provider text) = is_sepay provider && same_text text code
is_sepay_intent code _ = false

abbrev pub is_unsettled : PaymentStatus → Bool
is_unsettled PaymentStatus.pending = true
is_unsettled PaymentStatus.processing = true
is_unsettled _ = false

abbrev pub is_flaggable : (payment_id : ℕ) → Payment → Bool
is_flaggable payment_id p = p.id == payment_id && is_unsettled p.status

abbrev pub flagged : (transfer_id : ℕ) → Payment → Payment
flagged transfer_id p = record p {
  status = PaymentStatus.processing;
  provider_transaction_id = TransactionId.review_sepay transfer_id;
}

abbrev pub amount_mismatch : (rental_id : ℕ) → RiskIncident
amount_mismatch rental_id = record {
  target_type = RiskTargetType.rental;
  target_id = rental_id;
  level = RiskLevel.high;
  reason = "PAYMENT_AMOUNT_MISMATCH";
  status = RiskIncidentStatus.opened;
}

-- flagPaymentForReview. Its `catch` of a violated unique index is left out: the handler has just
-- seen that no payment has one of the transaction ids of the transfer.
unfoldable pub flag_payment_for_review :
    (payment_id rental_id : ℕ) → (transfer_id : ℕ) → Action (Unit {0})
flag_payment_for_review payment_id rental_id transfer_id = do
  updated ← gets (λ db. any (is_flaggable payment_id) db.payments)
  modify (λ db. record db {
    payments = update_where (is_flaggable payment_id) (flagged transfer_id) db.payments;
  })
  when updated (
      modify
        (λ db. record db { risk_incidents = db.risk_incidents ++ amount_mismatch rental_id ∷ [] }))

-- The amounts agree, and the currency is VND.
abbrev pub is_exact : SepayWebhookDto → Payment → Rental → Bool
is_exact dto payment rental =
    str_eq rental.currency "VND"
    && (dto.transfer_amount == payment.amount && dto.transfer_amount == rental.total_amount)

abbrev pub apply_if_exact : Bool → Env → SepayWebhookDto → Payment → Rental → Action WebhookAnswer
apply_if_exact true env dto payment rental =
    settle_verified_payment env payment.id (TransactionId.sepay dto.id)
    >> pure WebhookAnswer.settled
apply_if_exact false env dto payment rental =
    transaction (flag_payment_for_review payment.id rental.id dto.id)
    >> pure WebhookAnswer.review_required

-- The handler once the payment of the code is found.
unfoldable pub apply_transfer : Env → SepayWebhookDto → Payment → Action WebhookAnswer
apply_transfer env dto payment = do
  found ← gets (find_rental payment.rental_id)
  rental ← or_raise found Exception.record_missing
  apply_if_exact (is_exact dto payment rental) env dto payment rental

abbrev pub apply_found : Env → SepayWebhookDto → Option Payment → Action WebhookAnswer
apply_found env dto none = pure WebhookAnswer.ignored
apply_found env dto (some payment) =
    if is_sepay payment.provider then apply_transfer env dto payment else pure WebhookAnswer.ignored

abbrev pub find_intent : (code : List ℕ) → Database → Option Payment
find_intent code db = find (λ p. is_sepay_intent code p.provider_transaction_id) db.payments

abbrev pub apply_code : Env → SepayWebhookDto → Option (List ℕ) → Action WebhookAnswer
apply_code env dto none = pure WebhookAnswer.ignored
apply_code env dto (some code) = gets (find_intent code) >>= apply_found env dto

abbrev pub apply_to_account : (is_configured : Bool) → Env → SepayWebhookDto → Action WebhookAnswer
apply_to_account true env dto = apply_code env dto (extract_payment_code dto.code dto.content)
apply_to_account false env dto = pure WebhookAnswer.ignored

abbrev pub apply_once :
    (is_duplicate : Bool) → Env → SepayConfig → SepayWebhookDto → Action WebhookAnswer
apply_once true env config dto = pure WebhookAnswer.duplicate
apply_once false env config dto =
    apply_to_account (same_text dto.account_number config.account_number) env dto

abbrev pub is_recorded : (transfer_id : ℕ) → Database → Bool
is_recorded transfer_id db =
    any (λ p. is_transfer transfer_id p.provider_transaction_id) db.payments

-- The handler behind the check of the signature.
unfoldable pub handle_transfer : Env → SepayConfig → SepayWebhookDto → Action WebhookAnswer
handle_transfer env config dto =
    if dto.is_incoming
    then (do seen ← gets (is_recorded dto.id); apply_once seen env config dto)
    else pure WebhookAnswer.ignored

unfoldable pub handle_sepay_webhook : Env → SepayConfig → SepayWebhook → Action WebhookAnswer
handle_sepay_webhook env config w =
    verify_sepay_signature env config w >> handle_transfer env config w.dto
