-- ===== src/Rentals/Settlement/Methods.antt =====
-- RentalsService: settleVerifiedPayment, recordPayment, confirmDemoPayment.

use borrow_hub.Common.{
  ℕ, String, Bool, true, false, not, ◌&&◌, Option, none, [], ◌∷◌, ◌==◌, if◌then◌else◌, find_last,
  or_else,
}
use borrow_hub.Schema.{
  RentalStatus, PaymentProvider, PaymentStatus, NotificationType, AnalyticsEventType, TransactionId,
  Payment, Rental, Reference, Effect, AuthenticatedUser, Env,
}
use borrow_hub.Store.{
  Exception, Action, pure, gets, or_raise, require, transaction, emit, ◌>>=◌, ◌>>◌, find_rental,
  find_payment, update_rental,
}
use borrow_hub.Rentals.Guards.{rental_include, find_accessible_rental, assert_renter, assert_status}
use borrow_hub.Rentals.Booking.{is_awaiting_payment, set_status}
use borrow_hub.Rentals.Intent.{get_configured_payment_provider, PaymentIntent, get_payment_intent}
use borrow_hub.Rentals.Settlement.Rows.{
  get_owner_commission_amount, set_transaction, upsert_payout, upsert_contract, is_success,
  matches_balance, settled_payment, settled_payout, new_payout, new_contract, renewed_contract,
}

-- The part of the settlement for a payment that has not been settled before.
unfoldable pub settle_new :
    Env → TransactionId → (commission : ℕ) → Payment → Rental → Action (Rental × Bool)
settle_new env transaction_id commission payment r = do
  rental ← gets (λ db. rental_include db r)
  assert_status r.status is_awaiting_payment
  require (matches_balance payment r)
      (Exception.conflict "Payment does not match the rental balance")
  set_transaction payment.id transaction_id (settled_payment env transaction_id)
  upsert_payout r.id (settled_payout r commission) (new_payout env r commission)
  upsert_contract r.id (renewed_contract env rental) (new_contract env rental)
  updated ← update_rental env r.id (set_status RentalStatus.awaiting_signature)
  pure (updated, true)

-- The transaction of `settleVerifiedPayment`: the rental, and whether it was newly settled.
unfoldable pub settle :
    Env → (payment_id : ℕ) → TransactionId → (commission : ℕ) → Action (Rental × Bool)
settle env payment_id transaction_id commission = do
  found ← gets (find_payment payment_id)
  payment ← or_raise found (Exception.not_found "Payment not found")
  found_rental ← gets (find_rental payment.rental_id)
  r ← or_raise found_rental (Exception.not_found "Rental request not found")
  if is_success payment.status
      then pure (r, false)
      else settle_new env transaction_id commission payment r

-- The side effects after a settlement. A failure of one is logged and does not fail the method.
abbrev pub announce_settlement : (payment_id : ℕ) → Rental → Action (Unit {0})
announce_settlement payment_id r = do
  emit (Effect.chat_message r.id r.renter_id)
  emit (Effect.notify (r.renter_id ∷ []) NotificationType.payment_success (Reference.rental r.id))
  emit (
      Effect.notify (r.owner_id ∷ r.renter_id ∷ []) NotificationType.contract_ready
        (Reference.rental r.id))
  emit (
      Effect.notify (r.owner_id ∷ r.renter_id ∷ []) NotificationType.signature_required
        (Reference.rental r.id))
  emit (Effect.audit none "payment.settled" (Reference.payment payment_id))
  emit (Effect.track AnalyticsEventType.payment_completed r.renter_id (Reference.rental r.id))

abbrev pub announce_if_new : (payment_id : ℕ) → Rental × Bool → Action Rental
announce_if_new payment_id (r, true) = announce_settlement payment_id r >> pure r
announce_if_new payment_id (r, false) = pure r

unfoldable pub settle_verified_payment : Env → (payment_id : ℕ) → TransactionId → Action Rental
settle_verified_payment env payment_id transaction_id = do
  found ← gets (find_payment payment_id)
  payment ← or_raise found (Exception.not_found "Payment not found")
  found_rental ← gets (find_rental payment.rental_id)
  r ← or_raise found_rental (Exception.not_found "Payment not found")
  commission ← get_owner_commission_amount r.rental_fee
  settlement ← transaction (settle env payment_id transaction_id commission)
  announce_if_new payment_id settlement

abbrev pub is_sandbox : PaymentProvider → Bool
is_sandbox PaymentProvider.sandbox = true
is_sandbox _ = false

-- `recordPayment` after its guards: the sandbox payment of the intent is settled.
unfoldable pub settle_intent : Env → Option String → PaymentIntent → Action Rental
settle_intent env provider_transaction_id intent = do
  require intent.is_payable (Exception.conflict "Rental does not require payment")
  payment_id ← or_raise intent.payment_id (Exception.conflict "Rental does not require payment")
  settle_verified_payment env payment_id
      (TransactionId.sandbox (or_else provider_transaction_id env.random_text))

unfoldable pub pay_intent :
    Env → AuthenticatedUser → (rental_id : ℕ) → Option String → Action Rental
pay_intent env u rental_id provider_transaction_id = do
  intent ← get_payment_intent env u rental_id
  settle_intent env provider_transaction_id intent

unfoldable pub record_payment :
    Env → AuthenticatedUser → (rental_id : ℕ) → Option String → Action Rental
record_payment env u rental_id provider_transaction_id = do
  require (not env.is_production && is_sandbox (get_configured_payment_provider env))
      (Exception.forbidden "Direct payment recording is only available in sandbox environments")
  rental ← find_accessible_rental rental_id u
  assert_renter rental.renter_id u
  pay_intent env u rental_id provider_transaction_id

abbrev pub is_pending_payment : PaymentStatus → Bool
is_pending_payment PaymentStatus.pending = true
is_pending_payment _ = false

unfoldable pub confirm_demo_payment : Env → AuthenticatedUser → (rental_id : ℕ) → Action Rental
confirm_demo_payment env u rental_id = do
  require (not env.is_production && env.payment_demo_enabled)
      (Exception.forbidden "Demo payment confirmation is disabled")
  rental ← find_accessible_rental rental_id u
  require (is_awaiting_payment rental.status) (Exception.conflict "Rental is not awaiting payment")
  found ← gets (λ db.
      find_last
        (λ p. p.rental_id == rental_id && is_sandbox p.provider && is_pending_payment p.status)
        db.payments)
  payment ← or_raise found (Exception.not_found "Demo payment QR is unavailable or expired")
  settle_verified_payment env payment.id (TransactionId.demo_scan payment.id)
