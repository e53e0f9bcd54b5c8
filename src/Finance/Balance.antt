-- ===== src/Finance/Balance.antt =====
-- The refunds of a payment: never more than was paid.
use borrow_hub.Common.{
  ℕ, ◌+◌, ◌≤◌, Bool, true, ◌≡◌, refl, sym, ◌&&◌, ◌==◌, Option, none, some, List, [], ◌∷◌, ◌++◌,
  arith, find, update_first, if◌then◌else◌, inl, inr, Option-cases,
}
use mathlib.Core.Path.{subst}
use borrow_hub.Schema.{
  PaymentStatus, RefundStatus, PayoutStatus, Payment, Refund, Payout, Database, AuthenticatedUser,
  Env,
}
use borrow_hub.Store.{has_payment_id}
use borrow_hub.Finance.Refunds.{
  CreateRefundDto, reserved_amount, is_reserved_refund, has_refund_id, is_pending_refund, resolved,
  reserve_refund, complete_refund, drop_refund, settle_refund, completed_amount, other_reserved,
  create_refund, resolve_refund, update_refund_status, payment_status_of,
}
use borrow_hub.Finance.Payouts.{update_payout_status}
use borrow_hub.Finance.Requests.{FinanceRequest, FinanceCall, process, process_all}

abbrev pub amount_of : Option Payment → ℕ
amount_of none = 0
amount_of (some p) = p.amount

-- The amount of the payment with this id, 0 if there is none.
abbrev pub paid_amount : (payment_id : ℕ) → List Payment → ℕ
paid_amount payment_id payments = amount_of (find (has_payment_id payment_id) payments)

reserved_amount-append :
    (id : ℕ) (xs : List Refund) (r : Refund)
    → reserved_amount id (xs ++ r ∷ [])
      ≡ reserved_amount id xs
        + (if r.payment_id == id && is_reserved_refund r.status then r.amount else 0)
reserved_amount-append id [] r = ground arith
reserved_amount-append id (x ∷ xs) r = ground (arith, reserved_amount-append id xs r)

paid_amount-set_status :
    (id i : ℕ) (s : PaymentStatus) (ps : List Payment)
    → paid_amount id (update_first (has_payment_id i) (λ p. record p { status = s }) ps)
      ≡ paid_amount id ps
paid_amount-set_status id i s [] = refl
paid_amount-set_status id i s (p ∷ ps) = ground (arith, paid_amount-set_status id i s ps)

-- A pending refund counts already, so no new status makes the sum larger.
reserved_amount-resolved :
    (env : Env) (id refund_id : ℕ) (s : RefundStatus) (xs : List Refund) (r : Refund)
    → find (has_refund_id refund_id) xs ≡ some r
    → is_pending_refund r.status ≡ true
    → reserved_amount id (update_first (has_refund_id refund_id) (resolved env s) xs)
      ≤ reserved_amount id xs
reserved_amount-resolved env id refund_id s [] r found open_ = cc
reserved_amount-resolved env id refund_id s (x ∷ xs) r found open_ =
    ground (arith, reserved_amount-resolved env id refund_id s xs r)

reserve_refund-covered :
    (env : Env) (id payment_id : ℕ) (payout : Option Payout) (dto : CreateRefundDto) (db : Database)
    → reserved_amount id db.refunds ≤ paid_amount id db.payments
    → reserved_amount id (reserve_refund env payment_id payout dto db).1.refunds
      ≤ paid_amount id (reserve_refund env payment_id payout dto db).1.payments
unfolding reserve_refund
reserve_refund-covered env id payment_id payout dto db h = ground (
  arith,
  reserved_amount-append id db.refunds (record {
    id = env.new_id 0;
    payment_id = payment_id;
    amount = dto.amount;
    reason = dto.reason;
    status = RefundStatus.pending;
    completed_at = none;
  }),
)

create_refund-covered :
    (env : Env) (u : AuthenticatedUser) (id payment_id : ℕ) (dto : CreateRefundDto) (db : Database)
    → reserved_amount id db.refunds ≤ paid_amount id db.payments
    → reserved_amount id (create_refund env u payment_id dto db).1.refunds
      ≤ paid_amount id (create_refund env u payment_id dto db).1.payments
unfolding create_refund
create_refund-covered env u id payment_id dto db h = grind (arith, h, reserve_refund-covered)

refund-id :
    (id : ℕ) (xs : List Refund) (r : Refund) → find (has_refund_id id) xs ≡ some r → r.id ≡ id
refund-id id [] r e = cc
refund-id id (x ∷ xs) r e = ground (arith, refund-id id xs r)

find_refund_self :
    (id : ℕ) (xs : List Refund) (r : Refund)
    → find (has_refund_id id) xs ≡ some r
    → find (has_refund_id r.id) xs ≡ some r
find_refund_self id xs r e =
    subst (λ (i : ℕ). find (has_refund_id i) xs ≡ some r) (sym (refund-id id xs r e)) e

-- The rows after `complete_refund` and `drop_refund`.
complete_refund-rows :
    (id : ℕ) (p : Payment) (payout : Option Payout) (c : ℕ) (db : Database)
    → ((complete_refund p payout c db).1.refunds ≡ db.refunds)
      × (paid_amount id (complete_refund p payout c db).1.payments ≡ paid_amount id db.payments)
unfolding complete_refund
complete_refund-rows id p payout c db =
    ground (arith, paid_amount-set_status id p.id (payment_status_of c p.amount) db.payments)

drop_refund-rows :
    (payout : Option Payout) (others : Bool) (db : Database)
    → ((drop_refund payout others db).1.refunds ≡ db.refunds)
      × ((drop_refund payout others db).1.payments ≡ db.payments)
unfolding drop_refund
drop_refund-rows payout others db = ground arith

settle_refund-covered :
    (env : Env) (id : ℕ) (r : Refund) (p : Payment) (payout : Option Payout) (s : RefundStatus)
    (db : Database)
    → find (has_refund_id r.id) db.refunds ≡ some r
    → is_pending_refund r.status ≡ true
    → reserved_amount id db.refunds ≤ paid_amount id db.payments
    → reserved_amount id (settle_refund env r p payout s db).1.refunds
      ≤ paid_amount id (settle_refund env r p payout s db).1.payments
unfolding settle_refund
settle_refund-covered env id r p payout s db found open_ h =
    let written = record db {
      refunds = update_first (has_refund_id r.id) (resolved env s) db.refunds;
    } in
    ground (
      arith,
      found,
      h,
      reserved_amount-resolved env id r.id s db.refunds r found open_,
      complete_refund-rows id p payout (completed_amount p r db) written,
      drop_refund-rows payout (other_reserved p r db) written,
    )

resolve_refund-covered :
    (env : Env) (id refund_id : ℕ) (s : RefundStatus) (db : Database)
    → reserved_amount id db.refunds ≤ paid_amount id db.payments
    → reserved_amount id (resolve_refund env refund_id s db).1.refunds
      ≤ paid_amount id (resolve_refund env refund_id s db).1.payments
unfolding resolve_refund
resolve_refund-covered env id refund_id s db h =
    elim (Option-cases (find (has_refund_id refund_id) db.refunds)) [
      | inl missing ↦ ground (arith, missing)
      | inr (r, found) ↦
          grind (arith, found, find_refund_self refund_id db.refunds r found, settle_refund-covered)
    ]

update_refund_status-covered :
    (env : Env) (u : AuthenticatedUser) (id refund_id : ℕ) (s : RefundStatus) (db : Database)
    → reserved_amount id db.refunds ≤ paid_amount id db.payments
    → reserved_amount id (update_refund_status env u refund_id s db).1.refunds
      ≤ paid_amount id (update_refund_status env u refund_id s db).1.payments
unfolding update_refund_status
update_refund_status-covered env u id refund_id s db h = grind (arith, h, resolve_refund-covered)

update_payout_status-rows :
    (env : Env) (u : AuthenticatedUser) (payout_id : ℕ) (s : PayoutStatus) (db : Database)
    → ((update_payout_status env u payout_id s db).1.refunds ≡ db.refunds)
      × ((update_payout_status env u payout_id s db).1.payments ≡ db.payments)
unfolding update_payout_status
update_payout_status-rows env u payout_id s db = ground arith

process-covered :
    (env : Env) (u : AuthenticatedUser) (q : FinanceRequest) (id : ℕ) (db : Database)
    → reserved_amount id db.refunds ≤ paid_amount id db.payments
    → reserved_amount id (process env u q db).refunds ≤ paid_amount id (process env u q db).payments
unfolding process
process-covered env u (FinanceRequest.create_refund p dto) id db h =
    create_refund-covered env u id p dto db h
process-covered env u (FinanceRequest.update_refund_status r s) id db h =
    update_refund_status-covered env u id r s db h
process-covered env u (FinanceRequest.update_payout_status p s) id db h =
    let (refunds, payments) = update_payout_status-rows env u p s db in rw (refunds, payments) h

-- If the pending and the completed refunds of a payment are covered by what was paid, then they
-- still are after any sequence of requests to FinanceService, successful or not.
pub process_all-covered :
    (cs : List FinanceCall) (id : ℕ) (db : Database)
    → reserved_amount id db.refunds ≤ paid_amount id db.payments
    → reserved_amount id (process_all cs db).refunds ≤ paid_amount id (process_all cs db).payments
unfolding process_all
process_all-covered [] id db h = h
process_all-covered (c ∷ cs) id db h =
    process_all-covered cs id (process c.env c.user c.request db)
      (process-covered c.env c.user c.request id db h)
