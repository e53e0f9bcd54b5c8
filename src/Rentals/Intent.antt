-- ===== src/Rentals/Intent.antt =====
-- RentalsService: getPaymentIntent, buildPaymentIntent, buildPaymentCode,
-- getConfiguredPaymentProvider. The bank details and the QR address of the answer are left out.
use borrow_hub.Common.{
  ℕ, ◌+◌, ◌-◌, String, Bool, true, false, not, ◌&&◌, ◌||◌, Option, none, some, List, [], ◌∷◌, ◌++◌,
  ltb, leb, ◌==◌, if◌then◌else◌, any, find_last, filter, length, map,
}
use borrow_hub.Schema.{
  RentalStatus, PaymentProvider, PaymentStatus, TransactionId, Payment, Rental, ConfigKey,
  AuthenticatedUser, Env,
}
use borrow_hub.Store.{
  Exception, Action, pure, raise, gets, require, modify, transaction, ◌>>=◌, ◌>>◌, find_rental,
  update_rentals, ok, err,
}
use borrow_hub.Rentals.Guards.{
  RentalView, find_accessible_rental, assert_renter, get_numeric_config,
}
use borrow_hub.Rentals.Booking.{is_awaiting_payment, set_status, window_ms}

abbrev pub is_letter_or_digit : ℕ → Bool
is_letter_or_digit c =
    leb b'a' c && leb c b'z' || leb b'A' c && leb c b'Z' || leb b'0' c && leb c b'9'

abbrev pub to_upper : ℕ → ℕ
to_upper c = if leb b'a' c && leb c b'z' then c - 32 else c

-- `text.slice(-n)`
abbrev pub slice_last : ℕ → List ℕ → List ℕ
slice_last n [] = []
slice_last n (c ∷ cs) =
    let rest = slice_last n cs in if leb (length (c ∷ cs)) n then c ∷ cs else rest

-- `id.replace(/[^a-z0-9]/gi, '').slice(-n).toUpperCase()`
unfoldable pub id_suffix : ℕ → List ℕ → List ℕ
id_suffix n text = map to_upper (slice_last n (filter is_letter_or_digit text))

-- buildPaymentCode
unfoldable pub build_payment_code : List ℕ → List ℕ
build_payment_code rental_id = b'B' ∷ b'H' ∷ id_suffix 12 rental_id

-- getConfiguredPaymentProvider
abbrev pub get_configured_payment_provider : Env → PaymentProvider
get_configured_payment_provider env =
    if env.payment_demo_enabled && not env.is_production
    then PaymentProvider.sandbox
    else if env.sepay_enabled
    then PaymentProvider.sepay
    else PaymentProvider.sandbox

abbrev pub is_completed_payment : PaymentStatus → Bool
is_completed_payment PaymentStatus.success = true
is_completed_payment PaymentStatus.partially_refunded = true
is_completed_payment PaymentStatus.refunded = true
is_completed_payment _ = false

pub record PaymentIntent : Type 0 where
  pub rental_id : ℕ
  pub asset_id : ℕ
  pub status : RentalStatus
  pub payment_provider : PaymentProvider
  pub currency : String
  pub amount_due : ℕ
  pub total_amount : ℕ
  pub rental_fee : ℕ
  pub service_fee : ℕ
  pub delivery_fee : ℕ
  pub late_fee : ℕ
  pub is_payable : Bool
  pub payment_id : Option ℕ
  pub payment_code : List ℕ
  pub expires_at : Option ℕ

unfoldable pub amount_due : RentalView → ℕ
amount_due rental =
    if is_awaiting_payment rental.status
      && not (any (λ p. is_completed_payment p.status) rental.payments)
    then rental.total_amount
    else 0

unfoldable pub build_payment_intent : RentalView → PaymentProvider → PaymentIntent
unfolding amount_due
build_payment_intent rental provider = record {
  rental_id = rental.id;
  asset_id = rental.asset_id;
  status = rental.status;
  payment_provider = provider;
  currency = rental.currency;
  amount_due = amount_due rental;
  total_amount = rental.total_amount;
  rental_fee = rental.rental_fee;
  service_fee = rental.service_fee;
  delivery_fee = rental.delivery_fee;
  late_fee = rental.late_fee;
  is_payable = ltb 0 (amount_due rental);
  payment_id = none;
  payment_code = [];
  expires_at = none;
}

abbrev pub same_provider : PaymentProvider → PaymentProvider → Bool
same_provider PaymentProvider.sandbox PaymentProvider.sandbox = true
same_provider PaymentProvider.sepay PaymentProvider.sepay = true
same_provider PaymentProvider.bank_transfer PaymentProvider.bank_transfer = true
same_provider PaymentProvider.qr PaymentProvider.qr = true
same_provider PaymentProvider.e_wallet PaymentProvider.e_wallet = true
same_provider _ _ = false

abbrev pub is_open_payment : PaymentStatus → Bool
is_open_payment PaymentStatus.pending = true
is_open_payment PaymentStatus.processing = true
is_open_payment _ = false

abbrev pub is_intent_of : ℕ → PaymentProvider → Payment → Bool
is_intent_of rental_id provider p =
    p.rental_id == rental_id && same_provider p.provider provider && is_open_payment p.status

abbrev pub same_codes : List ℕ → List ℕ → Bool
same_codes [] [] = true
same_codes (a ∷ xs) (b ∷ ys) = a == b && same_codes xs ys
same_codes _ _ = false

-- Another payment has the transaction id that an intent of this provider and code would take.
abbrev pub is_taken_intent : PaymentProvider → List ℕ → TransactionId → Bool
is_taken_intent provider code (TransactionId.intent q c) =
    same_provider q provider && same_codes c code
is_taken_intent provider code _ = false

-- `payment.create`, whose `providerTransactionId` is unique.
abbrev pub create_intent : PaymentProvider → List ℕ → Payment → Action Payment
create_intent provider code p db =
    if any (λ q. is_taken_intent provider code q.provider_transaction_id) db.payments
    then (err Exception.unique_violation, db)
    else (ok p, record db { payments = db.payments ++ p ∷ [] })

abbrev pub intent_payment : Env → RentalView → PaymentProvider → List ℕ → Payment
intent_payment env rental provider code = record {
  id = env.new_id 0;
  rental_id = rental.id;
  payer_id = rental.renter_id;
  provider = provider;
  provider_transaction_id = TransactionId.intent provider code;
  amount = rental.total_amount;
  currency = rental.currency;
  status = PaymentStatus.pending;
  paid_at = none;
}

abbrev pub existing_or_create :
    Env → RentalView → PaymentProvider → List ℕ → Option Payment → Action Payment
existing_or_create env rental provider code (some p) = pure p
existing_or_create env rental provider code none =
    create_intent provider code (intent_payment env rental provider code)

abbrev pub still_awaiting : Option Rental → Bool
still_awaiting none = false
still_awaiting (some r) = is_awaiting_payment r.status

-- The transaction of `getPaymentIntent`.
unfoldable pub open_intent : Env → RentalView → PaymentProvider → List ℕ → Action Payment
open_intent env rental provider code = do
  locked ← gets (find_rental rental.id)
  require (still_awaiting locked) (Exception.conflict "Rental is no longer awaiting payment")
  existing ← gets (λ db. find_last (is_intent_of rental.id provider) db.payments)
  existing_or_create env rental provider code existing

-- The part of `getPaymentIntent` for a rental with an amount due.
unfoldable pub payable_intent :
    Env → RentalView → PaymentProvider → PaymentIntent → Action PaymentIntent
payable_intent env rental provider base = do
  minutes ← get_numeric_config ConfigKey.payment_window_minutes 30
  let expires_at = rental.updated_at + window_ms minutes
  if leb expires_at env.now
      then (do
        modify (
            update_rentals env (λ r. r.id == rental.id && is_awaiting_payment r.status)
              (set_status RentalStatus.expired))
        raise (Exception.conflict "The payment window has expired"))
      else (do
        let code = build_payment_code (env.id_text rental.id)
        payment ← transaction (open_intent env rental provider code)
        pure (record base {
          payment_id = some payment.id;
          payment_code = code;
          expires_at = some expires_at;
        }))

unfoldable pub get_payment_intent : Env → AuthenticatedUser → (rental_id : ℕ) → Action PaymentIntent
get_payment_intent env u rental_id = do
  rental ← find_accessible_rental rental_id u
  assert_renter rental.renter_id u
  let provider = get_configured_payment_provider env
  let base = build_payment_intent rental provider
  if base.is_payable then payable_intent env rental provider base else pure base
