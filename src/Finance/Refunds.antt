-- ===== src/Finance/Refunds.antt =====
-- FinanceService: createRefund and updateRefundStatus.
use borrow_hub.Common.{
  ℕ, ◌+◌, String, Bool, true, false, not, ◌&&◌, Option, none, some, List, [], ◌∷◌, leb, ◌==◌,
  if◌then◌else◌, any, find, filter, update_first,
}
use borrow_hub.Schema.{
  RoleName, PaymentStatus, RefundStatus, PayoutStatus, NotificationType, Payment, Refund, Payout,
  Database, Effect, Reference, AuthenticatedUser, Env,
}
use borrow_hub.Store.{
  Exception, ok, err, Action, ◌>>=◌, ◌>>◌, pure, gets, require, or_raise, for_some, when,
  transaction, emit, find_payment, find_rental, update_payment, update_payout,
}
use borrow_hub.Rentals.Cancellation.{create_refund_row}

abbrev pub is_manager_role : RoleName → Bool
is_manager_role RoleName.dispute_officer = true
is_manager_role RoleName.admin = true
is_manager_role RoleName.super_admin = true
is_manager_role _ = false

-- Shut in the proofs: they only need that it is some test of the user.
unfoldable pub is_finance_manager : AuthenticatedUser → Bool
is_finance_manager u = any is_manager_role u.roles

abbrev pub assert_finance_manager : AuthenticatedUser → Action (Unit {0})
assert_finance_manager u =
    require (is_finance_manager u)
      (Exception.forbidden "Only finance managers can perform this action")

-- REFUNDABLE_PAYMENT_STATUSES
abbrev pub is_refundable : PaymentStatus → Bool
is_refundable PaymentStatus.success = true
is_refundable PaymentStatus.partially_refunded = true
is_refundable _ = false

-- RESERVED_REFUND_STATUSES
abbrev pub is_reserved_refund : RefundStatus → Bool
is_reserved_refund RefundStatus.pending = true
is_reserved_refund RefundStatus.completed = true
is_reserved_refund _ = false

-- `refunds.filter(p).reduce((sum, refund) => sum + refund.amount, 0)`
abbrev pub sum_of : (Refund → Bool) → List Refund → ℕ
sum_of p [] = 0
sum_of p (x ∷ xs) = (if p x then x.amount else 0) + sum_of p xs

-- The refunds of a payment that are pending or completed.
abbrev pub reserved_amount : (payment_id : ℕ) → List Refund → ℕ
reserved_amount payment_id refunds =
    sum_of (λ r. r.payment_id == payment_id && is_reserved_refund r.status) refunds

pub record CreateRefundDto : Type 0 where
  pub amount : ℕ
  pub reason : String

abbrev pub block_payout : Payout → Payout
block_payout p = record p { status = PayoutStatus.blocked }

-- The transaction of `createRefund`, with the payout that was read before it. The test
-- `amount > paid - reserved` has the subtraction on the other side, since it may be negative.
unfoldable pub reserve_refund :
    Env → (payment_id : ℕ) → Option Payout → CreateRefundDto → Action Refund
reserve_refund env payment_id payout dto = do
  found ← gets (find_payment payment_id)
  locked ← or_raise found (Exception.bad_request "Payment is no longer refundable")
  require (is_refundable locked.status) (Exception.bad_request "Payment is no longer refundable")
  reserved ← gets (λ db. reserved_amount payment_id db.refunds)
  require (leb (dto.amount + reserved) locked.amount)
      (Exception.bad_request "Refund amount exceeds refundable balance")
  let refund : Refund = record {
    id = env.new_id 0;
    payment_id = payment_id;
    amount = dto.amount;
    reason = dto.reason;
    status = RefundStatus.pending;
    completed_at = none;
  }
  create_refund_row refund
  for_some payout (λ p. update_payout p.id block_payout)
  pure refund

abbrev pub parties : AuthenticatedUser → (payer_id owner_id : ℕ) → List ℕ
parties u payer_id owner_id = filter (λ id. not (id == u.id)) (payer_id ∷ owner_id ∷ [])

-- `createRefund`: the payment as it is afterwards.
unfoldable pub create_refund :
    Env → AuthenticatedUser → (payment_id : ℕ) → CreateRefundDto → Action Payment
create_refund env u payment_id dto = do
  assert_finance_manager u
  found ← gets (find_payment payment_id)
  payment ← or_raise found (Exception.not_found "Payment not found")
  found_rental ← gets (find_rental payment.rental_id)
  rental ← or_raise found_rental (Exception.not_found "Payment not found")
  payout ← gets (λ db. find (λ p. p.rental_id == rental.id) db.payouts)
  require (is_refundable payment.status)
      (Exception.bad_request "Only settled payments can be refunded")
  reserved ← gets (λ db. reserved_amount payment.id db.refunds)
  require (leb (dto.amount + reserved) payment.amount)
      (Exception.bad_request "Refund amount exceeds refundable balance")
  refund ← transaction (reserve_refund env payment.id payout dto)
  emit (
      Effect.notify (parties u payment.payer_id rental.owner_id) NotificationType.system
        (Reference.payment payment.id))
  emit (Effect.audit (some u.id) "finance.refund.create" (Reference.refund refund.id))
  after ← gets (find_payment payment.id)
  or_raise after Exception.record_missing

abbrev pub has_refund_id : ℕ → Refund → Bool
has_refund_id id r = r.id == id

abbrev pub is_pending_refund : RefundStatus → Bool
is_pending_refund RefundStatus.pending = true
is_pending_refund _ = false

abbrev pub is_completed_refund : RefundStatus → Bool
is_completed_refund RefundStatus.completed = true
is_completed_refund _ = false

abbrev pub resolved : Env → RefundStatus → Refund → Refund
resolved env status r = record r {
  status = status;
  completed_at = if is_completed_refund status then some env.now else none;
}

-- `refund.update({ where: { id } })`
abbrev pub update_refund : ℕ → (Refund → Refund) → Action (Unit {0})
update_refund id f db =
    if any (has_refund_id id) db.refunds
    then (ok tt, record db { refunds = update_first (has_refund_id id) f db.refunds })
    else (err Exception.record_missing, db)

abbrev pub payment_status_of : (completed amount : ℕ) → PaymentStatus
payment_status_of completed amount =
    if leb amount completed then PaymentStatus.refunded else PaymentStatus.partially_refunded

abbrev pub payout_status_of : (completed amount : ℕ) → PayoutStatus
payout_status_of completed amount =
    if leb amount completed then PayoutStatus.cancelled else PayoutStatus.blocked

-- The branch of a completed refund, with the sum of the completed refunds of the payment.
unfoldable pub complete_refund : Payment → Option Payout → (completed : ℕ) → Action (Unit {0})
complete_refund payment payout completed = do
  update_payment payment.id (λ p. record p { status = payment_status_of completed payment.amount })
  for_some payout (λ x.
      update_payout x.id (λ p. record p { status = payout_status_of completed payment.amount }))

-- The branch of a refund that failed or was rejected: without another refund the payout goes on.
unfoldable pub drop_refund : Option Payout → (others : Bool) → Action (Unit {0})
drop_refund payout others =
    for_some payout (λ x.
      when (not others) (update_payout x.id (λ p. record p { status = PayoutStatus.pending })))

-- The completed refunds of the payment, once this refund is one of them.
abbrev pub completed_amount : Payment → Refund → Database → ℕ
completed_amount payment refund db =
    refund.amount
    + sum_of
        (λ r.
          r.payment_id == payment.id && (not (r.id == refund.id) && is_completed_refund r.status))
        db.refunds

-- Whether another refund of the payment is pending or completed.
abbrev pub other_reserved : Payment → Refund → Database → Bool
other_reserved payment refund db =
    any
      (λ r. r.payment_id == payment.id && (not (r.id == refund.id) && is_reserved_refund r.status))
      db.refunds

-- The writes of `updateRefundStatus`, with what was read before them.
unfoldable pub settle_refund :
    Env → Refund → Payment → Option Payout → RefundStatus → Action (Unit {0})
settle_refund env refund payment payout status = do
  completed ← gets (completed_amount payment refund)
  others ← gets (other_reserved payment refund)
  update_refund refund.id (resolved env status)
  if is_completed_refund status
      then complete_refund payment payout completed
      else drop_refund payout others

-- The transaction of `updateRefundStatus`: the refund with its new status, its payment, and the
-- owner of the rental.
unfoldable pub resolve_refund : Env → (refund_id : ℕ) → RefundStatus → Action (Refund × Payment × ℕ)
resolve_refund env refund_id status = do
  found ← gets (λ db. find (has_refund_id refund_id) db.refunds)
  refund ← or_raise found (Exception.not_found "Refund not found")
  found_payment ← gets (find_payment refund.payment_id)
  payment ← or_raise found_payment (Exception.not_found "Refund not found")
  found_rental ← gets (find_rental payment.rental_id)
  rental ← or_raise found_rental (Exception.not_found "Refund not found")
  payout ← gets (λ db. find (λ p. p.rental_id == rental.id) db.payouts)
  require (is_pending_refund refund.status)
      (Exception.bad_request "Only pending refunds can be updated")
  settle_refund env refund payment payout status
  pure (resolved env status refund, payment, rental.owner_id)

-- `updateRefundStatus`: the payment as it is afterwards.
unfoldable pub update_refund_status :
    Env → AuthenticatedUser → (refund_id : ℕ) → RefundStatus → Action Payment
update_refund_status env u refund_id status = do
  assert_finance_manager u
  result ← transaction (resolve_refund env refund_id status)
  emit (Effect.audit (some u.id) "finance.refund.status.update" (Reference.refund result.0.id))
  when (is_completed_refund status) (
      emit (
        Effect.notify (parties u result.1.payer_id result.2) NotificationType.system
          (Reference.payment result.1.id)))
  after ← gets (find_payment result.1.id)
  or_raise after Exception.record_missing
