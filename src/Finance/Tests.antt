-- ===== src/Finance/Tests.antt =====
-- Runs of FinanceService, and the theorems at concrete inputs.
use borrow_hub.Common.{ℕ, ◌≤◌, true, ◌≡◌, refl, none, some, List, [], ◌∷◌, find, arith}
use borrow_hub.Common.Int.{pos}
use borrow_hub.Schema.{
  RoleName, VerificationStatus, RentalStatus, PaymentStatus, RefundStatus, PayoutStatus, Rental,
  Refund, Payout, Database, AuthenticatedUser,
}
use borrow_hub.Store.{find_rental, has_payout_id}
use borrow_hub.Rentals.Tests.Fixture.{env, db, rental, payment}
use borrow_hub.Finance.Refunds.{
  CreateRefundDto, reserved_amount, create_refund, reserve_refund, update_refund_status,
  resolve_refund, settle_refund, complete_refund, is_finance_manager,
}
use borrow_hub.Finance.Payouts.{update_payout_status, with_status, is_payable}
use borrow_hub.Finance.Requests.{FinanceRequest, FinanceCall, process, process_all}
use borrow_hub.Finance.Balance.{paid_amount, process_all-covered}
use borrow_hub.Finance.Results.{update_payout_status-paid, resolve_refund-reopens}

abbrev manager : AuthenticatedUser
manager = record {
  id = 9;
  roles = RoleName.admin ∷ [];
  verification_status = VerificationStatus.verified;
}

abbrev payout : PayoutStatus → Payout
payout status = record {
  id = 60;
  rental_id = 11;
  owner_id = 1;
  gross_amount = 2000;
  commission_amount = 200;
  net_amount = pos 1800;
  status = status;
  paid_at = none;
}

abbrev refund : Refund
refund = record {
  id = 70;
  payment_id = 20;
  amount = 1500;
  reason = "scratches";
  status = RefundStatus.pending;
  completed_at = none;
}

abbrev returned : Rental
returned = rental 11 3000000000 3100000000 RentalStatus.completed

-- A completed rental with its payment, its payout and refunds of the payment.
abbrev books : PayoutStatus → List Refund → Database
books status refunds = record db {
  rentals = returned ∷ [];
  payments = payment PaymentStatus.success ∷ [];
  refunds = refunds;
  payouts = payout status ∷ [];
}

abbrev dto : ℕ → CreateRefundDto
dto amount = record { amount = amount; reason = "scratches" }

abbrev call : FinanceRequest → FinanceCall
call q = record { env = env; user = manager; request = q }

-- The second refund is more than what is left.
abbrev calls : List FinanceCall
calls =
    call (FinanceRequest.create_refund 20 (dto 1500))
    ∷ call (FinanceRequest.create_refund 20 (dto 1000))
    ∷ call (FinanceRequest.update_refund_status 500 RefundStatus.completed)
    ∷ []

calls_run : reserved_amount 20 (process_all calls (books PayoutStatus.pending [])).refunds ≡ 1500
unfolding process_all process create_refund reserve_refund update_refund_status resolve_refund
    settle_refund complete_refund is_finance_manager
calls_run = refl

process_all-covered_example :
    reserved_amount 20 (process_all calls (books PayoutStatus.pending [])).refunds
    ≤ paid_amount 20 (process_all calls (books PayoutStatus.pending [])).payments
process_all-covered_example =
    process_all-covered calls 20 (books PayoutStatus.pending []) (omega arith)

update_payout_status-paid_example :
    (p : Payout) × (q : Rental) × (find (has_payout_id 60) (books PayoutStatus.pending []).payouts
      ≡ some p)
    × (find_rental p.rental_id (books PayoutStatus.pending []) ≡ some q)
    × (is_finance_manager manager ≡ true)
    × (is_payable p.status ≡ true)
    × (with_status env PayoutStatus.paid (payout PayoutStatus.pending)
        ≡ with_status env PayoutStatus.paid p)
    × (q.status ≡ RentalStatus.completed)
unfolding update_payout_status is_finance_manager
update_payout_status-paid_example =
    update_payout_status-paid env manager 60 (books PayoutStatus.pending [])
      (with_status env PayoutStatus.paid (payout PayoutStatus.pending)) refl

-- The payout was blocked by the refund, after it had been paid or not.
abbrev blocked_books : Database
blocked_books = books PayoutStatus.blocked (refund ∷ [])

resolve_refund-reopens_example :
    find (has_payout_id 60) (resolve_refund env 70 RefundStatus.rejected blocked_books).1.payouts
    ≡ some (payout PayoutStatus.pending)
resolve_refund-reopens_example =
    resolve_refund-reopens env 70 RefundStatus.rejected blocked_books refund
      (payment PaymentStatus.success) returned (payout PayoutStatus.blocked) refl refl refl refl
      refl refl refl refl
