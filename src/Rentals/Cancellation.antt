-- ===== src/Rentals/Cancellation.antt =====
-- RentalsService: cancel and computeCancellationOutcome.
use borrow_hub.Common.{
  ℕ, ◌+◌, ◌*◌, String, Bool, true, false, not, ◌||◌, Option, none, some, List, [], ◌∷◌, ◌++◌, ltb,
  leb, ◌==◌, if◌then◌else◌, filter, head?, or_else, first_some,
}
use borrow_hub.Common.Int.{pos, ◌-ℤ◌}
use borrow_hub.Schema.{
  RentalStatus, PaymentStatus, RefundStatus, PayoutStatus, ContractStatus, NotificationType,
  Payment, Refund, Payout, RentalContract, Rental, UserRow, ConfigKey, Reference, Effect,
  AuthenticatedUser, Env,
}
use borrow_hub.Store.{
  Exception, Action, pure, require, modify, when, for_some, transaction, emit, ◌>>=◌, ◌>>◌,
  update_rental, update_payment, update_payout, update_contract, update_user,
}
use borrow_hub.Rentals.Guards.{
  RentalView, is_owner, is_renter, is_staff, find_accessible_rental, assert_status,
  get_numeric_config,
}
use borrow_hub.Rentals.Booking.{round_percent}

abbrev pub is_cancellable : RentalStatus → Bool
is_cancellable RentalStatus.pending_owner = true
is_cancellable RentalStatus.awaiting_payment = true
is_cancellable RentalStatus.awaiting_signature = true
is_cancellable RentalStatus.confirmed = true
is_cancellable RentalStatus.ready_for_handover = true
is_cancellable _ = false

pub data Actor : Type 0 where
  owner renter : Actor

pub record CancellationOutcome : Type 0 where
  pub refund_amount : ℕ
  pub payout_status : PayoutStatus
  pub owner_trust_penalty : ℕ
  pub actor : Actor
  pub refund_percent : ℕ

abbrev pub hour_ms : ℕ
hour_ms = 3600000

abbrev pub owner_outcome : (penalty : ℕ) → Option Payment → CancellationOutcome
owner_outcome penalty none = record {
  refund_amount = 0;
  payout_status = PayoutStatus.cancelled;
  owner_trust_penalty = penalty;
  actor = Actor.owner;
  refund_percent = 0;
}
owner_outcome penalty (some p) = record {
  refund_amount = p.amount;
  payout_status = PayoutStatus.cancelled;
  owner_trust_penalty = penalty;
  actor = Actor.owner;
  refund_percent = 100;
}

-- `percent` is 100 or the partial percentage.
abbrev pub renter_outcome : (percent : ℕ) → Option Payment → CancellationOutcome
renter_outcome percent none = record {
  refund_amount = 0;
  payout_status = PayoutStatus.cancelled;
  owner_trust_penalty = 0;
  actor = Actor.renter;
  refund_percent = 0;
}
renter_outcome percent (some p) = record {
  refund_amount = round_percent p.amount percent;
  payout_status = if percent == 100 then PayoutStatus.cancelled else PayoutStatus.blocked;
  owner_trust_penalty = 0;
  actor = Actor.renter;
  refund_percent = percent;
}

-- `hoursUntilStart >= fullRefundHours`, multiplied out.
abbrev pub is_early : (now start_at full_refund_hours : ℕ) → Bool
is_early now start_at full_refund_hours = leb (now + full_refund_hours * hour_ms) start_at

unfoldable pub compute_cancellation_outcome :
    Env → RentalView → AuthenticatedUser → Action CancellationOutcome
compute_cancellation_outcome env rental u = do
  penalty ← get_numeric_config ConfigKey.owner_cancel_trust_penalty 10
  full_refund_hours ← get_numeric_config ConfigKey.renter_cancel_full_refund_hours 24
  partial ← get_numeric_config ConfigKey.renter_cancel_partial_refund_percent 50
  pure (
      if is_owner rental.rental u
      then owner_outcome penalty (head? rental.payments)
      else renter_outcome
          (if is_early env.now rental.start_at full_refund_hours then 100 else partial)
          (head? rental.payments))

abbrev pub payment_status_after : (refund_amount : ℕ) → Payment → PaymentStatus
payment_status_after refund_amount p =
    if leb p.amount refund_amount then PaymentStatus.refunded else PaymentStatus.partially_refunded

abbrev pub create_refund_row : Refund → Action (Unit {0})
create_refund_row refund = modify (λ db. record db { refunds = db.refunds ++ refund ∷ [] })

abbrev pub refund_reason : Bool → Option String → String
refund_reason by_owner reason =
    or_else reason
      (if by_owner then "Owner cancellation policy refund" else "Renter cancellation policy refund")

-- The refund of `cancel`, if there is a payment and something to give back.
abbrev pub refund_first :
    Env
    → (by_owner : Bool) → Option String
    → (refund_amount : ℕ) → Option Payment
    → Action (Unit {0})
refund_first env by_owner reason refund_amount none = pure tt
refund_first env by_owner reason refund_amount (some p) = when (ltb 0 refund_amount) (do
  create_refund_row (record {
    id = env.new_id 0;
    payment_id = p.id;
    amount = refund_amount;
    reason = refund_reason by_owner reason;
    status = RefundStatus.completed;
    completed_at = some env.now;
  })
  update_payment p.id (λ q. record q { status = payment_status_after refund_amount p }))

abbrev pub set_payout_status : PayoutStatus → Payout → Payout
set_payout_status s p = record p { status = s }

abbrev pub cancel_contract : RentalContract → RentalContract
cancel_contract c = record c { status = ContractStatus.cancelled }

abbrev pub penalize : ℕ → UserRow → UserRow
penalize penalty user = record user { trust_score = user.trust_score -ℤ pos penalty }

-- The transaction of `cancel`, on the rental that was read before it.
unfoldable pub cancel_rental :
    Env → AuthenticatedUser → RentalView → Option String → CancellationOutcome → Action Rental
cancel_rental env u rental reason outcome = do
  refund_first env (is_owner rental.rental u) reason outcome.refund_amount (head? rental.payments)
  for_some rental.payout
      (λ payout. update_payout payout.id (set_payout_status outcome.payout_status))
  for_some rental.contract (λ contract. update_contract contract.id cancel_contract)
  when (ltb 0 outcome.owner_trust_penalty)
      (update_user rental.owner_id (penalize outcome.owner_trust_penalty))
  update_rental env rental.id (λ r. record r {
    status = RentalStatus.cancelled;
    message = first_some reason rental.message;
  })

-- `[ownerId, renterId].filter((id) => id !== currentUser.id)`
abbrev pub others : Rental → AuthenticatedUser → List ℕ
others r u = filter (λ id. not (id == u.id)) (r.owner_id ∷ r.renter_id ∷ [])

unfoldable pub cancel :
    Env
    → AuthenticatedUser
    → (rental_id : ℕ) → Option String
    → Action (Rental × CancellationOutcome)
cancel env u rental_id reason = do
  rental ← find_accessible_rental rental_id u
  require (is_owner rental.rental u || is_renter rental.rental u || is_staff u)
      (Exception.forbidden "You cannot cancel this rental")
  assert_status rental.status is_cancellable
  outcome ← compute_cancellation_outcome env rental u
  updated ← transaction (cancel_rental env u rental reason outcome)
  emit (Effect.notify (others rental.rental u) NotificationType.system (Reference.rental rental.id))
  emit (Effect.audit (some u.id) "rental.cancel" (Reference.rental rental.id))
  when (is_renter rental.rental u) (emit (Effect.assess_cancellation_pattern rental.id u.id))
  pure (updated, outcome)
