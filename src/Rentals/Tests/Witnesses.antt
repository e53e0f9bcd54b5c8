-- ===== src/Rentals/Tests/Witnesses.antt =====
-- The theorems at concrete inputs.
use borrow_hub.Common.{
  ◌+◌, ◌≤◌, true, false, ◌≡◌, refl, none, some, List, [], ◌∷◌, find, any, arith, ◌==◌, ◌||◌,
  if◌then◌else◌,
}
use borrow_hub.Common.Int.{pos, ◌+ℤ◌}
use borrow_hub.Schema.{
  RentalStatus, PaymentStatus, PayoutStatus, RefundStatus, PaymentProvider, SignatureMethod,
  TransactionId, Rental, Payout, Database,
}
use borrow_hub.Store.{ok, err, Exception, transaction}
use borrow_hub.Rentals.Guards.{rental_include, is_staff}
use borrow_hub.Rentals.Booking.{
  create, book, compute_pricing, price, ensure_within_availability, new_rental, round_percent,
}
use borrow_hub.Rentals.Intent.{
  PaymentIntent, get_payment_intent, payable_intent, open_intent, build_payment_intent, amount_due,
  build_payment_code,
}
use borrow_hub.Rentals.Results.Intent.{get_payment_intent-again}
use borrow_hub.Rentals.Settlement.{settle, settle_new, generate_contract_number}
use borrow_hub.Rentals.Cancellation.{
  cancel, cancel_rental, compute_cancellation_outcome, CancellationOutcome, owner_outcome,
  renter_outcome, refund_reason, is_early,
}
use borrow_hub.Rentals.Signing.{
  SignContractDto, sign_contract, apply_signatures, is_signature_of, is_signed_by_both,
}
use borrow_hub.Rentals.Handovers.{confirm_session, finalize_handover_confirmation, claim_and_close}
use borrow_hub.Rentals.Requests.{Request, Call, handle, serve}
use borrow_hub.Rentals.Lifecycle.Defs.{Kind, RowsGrow}
use borrow_hub.Rentals.Lifecycle.Requests.{handle-RowsGrow}
use borrow_hub.Rentals.DoubleBooking.Calm.{IsConsistent}
use borrow_hub.Rentals.DoubleBooking.Approval.{serve-IsConsistent}
use borrow_hub.Rentals.Access.{handle-denied, is_error}
use borrow_hub.Rentals.Once.{settle-once, claim_and_close-once}
use borrow_hub.Rentals.Results.Settlement.{settle_new-balances}
use borrow_hub.Rentals.Results.Signing.{sign_contract_lem}
use borrow_hub.Rentals.Results.Cancellation.{compute_cancellation_outcome_lem, cancel-refunds_first}
use borrow_hub.Rentals.Results.Booking.{create_lem, IsAccepted}
use borrow_hub.Rentals.Results.Sessions.{confirm_session-once}
use borrow_hub.Rentals.Tests.Fixture.{
  db-IsConsistent, env, owner, renter, stranger, db, booking, asset, rental, payment, contract,
  handover, session,
}

-- The owner approves two requests for periods that meet; the renter then wants to pay.
abbrev calls : List Call
calls =
    record { env = env; user = owner; request = Request.approve 10 none }
    ∷ record { env = env; user = owner; request = Request.approve 14 none }
    ∷ record { env = env; user = renter; request = Request.payment_intent 10 }
    ∷ []

serve-IsConsistent_example : IsConsistent (serve calls db).rentals
serve-IsConsistent_example = serve-IsConsistent calls db db-IsConsistent

handle-RowsGrow_example :
    RowsGrow Kind.reserving db.rentals (handle env owner (Request.approve 10 none) db).1.rentals
handle-RowsGrow_example = handle-RowsGrow env owner (Request.approve 10 none) db

handle-denied_example :
    (is_error (handle env stranger (Request.decline 10 none) db).0 ≡ true)
    × ((handle env stranger (Request.decline 10 none) db).1 ≡ db)
unfolding is_staff
handle-denied_example =
    handle-denied env stranger db (Request.decline 10 none) 10
      (rental 10 2000000000 2100000000 RentalStatus.pending_owner) refl refl refl

-- Rental 11, unpaid and paid.
abbrev unpaid : Rental
unpaid = rental 11 3000000000 3100000000 RentalStatus.awaiting_payment

abbrev paid : Rental
paid = rental 11 3000000000 3100000000 RentalStatus.awaiting_signature

settle-once_example :
    settle env 20 (TransactionId.sepay 9) 200 (settle env 20 (TransactionId.sepay 8) 200 db).1
    ≡ (ok (paid, false), (settle env 20 (TransactionId.sepay 8) 200 db).1)
unfolding settle settle_new generate_contract_number
settle-once_example =
    settle-once env env 20 (TransactionId.sepay 8) (TransactionId.sepay 9) 200 200 db paid refl

abbrev settled : Database
settled = (settle_new env (TransactionId.sepay 8) 200 (payment PaymentStatus.pending) unpaid db).1

settle_new-balances_example :
    ((payment PaymentStatus.pending).payer_id ≡ unpaid.renter_id)
    × ((payment PaymentStatus.pending).amount ≡ unpaid.total_amount)
    × (unpaid.status ≡ RentalStatus.awaiting_payment)
    × ((x : Payout) × (find (λ (y : Payout). y.rental_id == 11) settled.payouts ≡ some x)
        × (x.status ≡ PayoutStatus.pending)
        × (x.owner_id ≡ unpaid.owner_id)
        × (x.gross_amount ≡ 2000)
        × (x.net_amount +ℤ pos x.commission_amount ≡ pos x.gross_amount))
unfolding settle_new generate_contract_number
settle_new-balances_example =
    settle_new-balances env (TransactionId.sepay 8) 200 (payment PaymentStatus.pending) unpaid db
      paid true refl

abbrev handed_over : Rental
handed_over = rental 13 5000000000 5100000000 RentalStatus.ongoing

abbrev ready : Rental
ready = rental 13 5000000000 5100000000 RentalStatus.ready_for_handover

abbrev confirmed : Database
confirmed = (claim_and_close env (rental_include db ready) handover none db).1

claim_and_close-once_example :
    transaction (claim_and_close env (rental_include db ready) handover none) confirmed
    ≡ (err (Exception.conflict "Handover session has already been confirmed"), confirmed)
unfolding claim_and_close
claim_and_close-once_example =
    claim_and_close-once env env (rental_include db ready) (rental_include db ready) handover
      handover none none db confirmed handed_over refl refl

confirm_session-once_example :
    is_error
      (confirm_session env renter session handover
        (rental_include db ready)
        none
        (confirm_session env renter session handover (rental_include db ready) none db).1).0
    ≡ true
unfolding confirm_session finalize_handover_confirmation claim_and_close
confirm_session-once_example =
    confirm_session-once env env renter renter session session handover handover
      (rental_include db ready) (rental_include db ready) none none db handed_over (omega arith)
      refl refl

abbrev signature : SignContractDto
signature = record {
  signature_method = SignatureMethod.otp;
  signature_reference = none;
  device_info = none;
}

abbrev unsigned : Rental
unsigned = rental 12 4000000000 4100000000 RentalStatus.awaiting_signature

sign_contract_lem_example :
    (any (is_signature_of 30 2) (sign_contract env renter 12 signature db).1.signatures ≡ true)
    × (RentalStatus.awaiting_signature ≡ (
        if is_signed_by_both 30 unsigned (sign_contract env renter 12 signature db).1.signatures
        then RentalStatus.confirmed
        else RentalStatus.awaiting_signature))
unfolding sign_contract apply_signatures is_staff
sign_contract_lem_example =
    sign_contract_lem env renter 12 signature db unsigned unsigned contract refl refl refl

-- The renter cancels long before the start.
abbrev outcome : CancellationOutcome
outcome = renter_outcome 100 (some (payment PaymentStatus.pending))

compute_cancellation_outcome_lem_example :
    (outcome.refund_amount ≤ 2100)
    × (outcome.refund_amount
        ≡ (if 1 == 2 || is_early 1000000000 3000000000 24 then 2100 else round_percent 2100 50))
    × (outcome.owner_trust_penalty ≡ (if 1 == 2 then 10 else 0))
unfolding compute_cancellation_outcome
compute_cancellation_outcome_lem_example =
    compute_cancellation_outcome_lem env (rental_include db unpaid) renter db
      (payment PaymentStatus.pending) outcome refl (omega arith) refl

create_lem_example :
    IsAccepted env renter booking db
      (new_rental env renter booking asset 6000000000 6172800000 (price 1000 2 5))
unfolding create book compute_pricing price ensure_within_availability is_staff
create_lem_example =
    create_lem env renter booking db
      (new_rental env renter booking asset 6000000000 6172800000 (price 1000 2 5)) refl

-- Rental 11 before its first payment intent.
abbrev unopened : Database
unopened = record db { payments = [] }

abbrev asked : PaymentIntent
asked = record (build_payment_intent (rental_include unopened unpaid) PaymentProvider.sandbox) {
  payment_id = some (env.new_id 0);
  payment_code = build_payment_code (env.id_text 11);
  expires_at = some (unpaid.updated_at + 1800000);
}

get_payment_intent-again_example :
    get_payment_intent
      (record env { now = env.now + 1; new_id = λ n. 900 + n })
      renter
      11
      (get_payment_intent env renter 11 unopened).1
    ≡ (ok asked, (get_payment_intent env renter 11 unopened).1)
unfolding get_payment_intent payable_intent open_intent build_payment_intent amount_due
    build_payment_code is_staff
get_payment_intent-again_example =
    get_payment_intent-again env (env.now + 1) (λ n. 900 + n) renter 11 unopened asked
      (unpaid.updated_at + 1800000) refl refl (omega arith)

abbrev given_up : Rental
given_up = rental 11 3000000000 3100000000 RentalStatus.cancelled

-- The owner cancels a rental that nobody has paid for.
cancel-refunds_first_example :
    (cancel env owner 11 none db).1.refunds
    ≡ record {
      id = 500;
      payment_id = 20;
      amount = 2100;
      reason = refund_reason true none;
      status = RefundStatus.completed;
      completed_at = some 1000000000;
    }
      ∷ []
unfolding cancel cancel_rental compute_cancellation_outcome is_staff
cancel-refunds_first_example =
    cancel-refunds_first env owner 11 none db unpaid (payment PaymentStatus.pending) given_up
      (owner_outcome 10 (some (payment PaymentStatus.pending))) refl refl refl (omega arith) refl
