-- ===== src/System/Finance.antt =====
-- FinanceService leaves the table of rentals alone.
use borrow_hub.Common.{ℕ, Bool, ◌≡◌, Option, update_first, arith}
use borrow_hub.Schema.{
  Payment, RefundStatus, PayoutStatus, Payout, Refund, Database, AuthenticatedUser, Env,
}
use borrow_hub.Finance.Refunds.{
  CreateRefundDto, reserve_refund, settle_refund, complete_refund, drop_refund, resolve_refund,
  has_refund_id, resolved, completed_amount, other_reserved, create_refund, update_refund_status,
}
use borrow_hub.Finance.Payouts.{update_payout_status}
use borrow_hub.Finance.Requests.{FinanceRequest, process}

reserve_refund-rentals :
    (env : Env) (id : ℕ) (payout : Option Payout) (dto : CreateRefundDto) (db : Database)
    → (reserve_refund env id payout dto db).1.rentals ≡ db.rentals
unfolding reserve_refund
reserve_refund-rentals env id payout dto db = ground arith

create_refund-rentals :
    (env : Env) (u : AuthenticatedUser) (id : ℕ) (dto : CreateRefundDto) (db : Database)
    → (create_refund env u id dto db).1.rentals ≡ db.rentals
unfolding create_refund
create_refund-rentals env u id dto db = grind (arith, reserve_refund-rentals)

update_payout_status-rentals :
    (env : Env) (u : AuthenticatedUser) (id : ℕ) (s : PayoutStatus) (db : Database)
    → (update_payout_status env u id s db).1.rentals ≡ db.rentals
unfolding update_payout_status
update_payout_status-rentals env u id s db = grind arith

complete_refund-rentals :
    (p : Payment) (payout : Option Payout) (c : ℕ) (db : Database)
    → (complete_refund p payout c db).1.rentals ≡ db.rentals
unfolding complete_refund
complete_refund-rentals p payout c db = ground arith

drop_refund-rentals :
    (payout : Option Payout) (others : Bool) (db : Database)
    → (drop_refund payout others db).1.rentals ≡ db.rentals
unfolding drop_refund
drop_refund-rentals payout others db = ground arith

settle_refund-rentals :
    (env : Env) (r : Refund) (p : Payment) (payout : Option Payout) (s : RefundStatus)
    (db : Database)
    → (settle_refund env r p payout s db).1.rentals ≡ db.rentals
unfolding settle_refund
settle_refund-rentals env r p payout s db =
    let written = record db {
      refunds = update_first (has_refund_id r.id) (resolved env s) db.refunds;
    } in
    ground (
      arith,
      complete_refund-rentals p payout (completed_amount p r db) written,
      drop_refund-rentals payout (other_reserved p r db) written,
    )

resolve_refund-rentals :
    (env : Env) (id : ℕ) (s : RefundStatus) (db : Database)
    → (resolve_refund env id s db).1.rentals ≡ db.rentals
unfolding resolve_refund
resolve_refund-rentals env id s db = grind (arith, settle_refund-rentals)

update_refund_status-rentals :
    (env : Env) (u : AuthenticatedUser) (id : ℕ) (s : RefundStatus) (db : Database)
    → (update_refund_status env u id s db).1.rentals ≡ db.rentals
unfolding update_refund_status
update_refund_status-rentals env u id s db = grind (arith, resolve_refund-rentals)

pub process-rentals :
    (env : Env) (u : AuthenticatedUser) (q : FinanceRequest) (db : Database)
    → (process env u q db).rentals ≡ db.rentals
unfolding process
process-rentals env u (FinanceRequest.create_refund p dto) db = create_refund-rentals env u p dto db
process-rentals env u (FinanceRequest.update_refund_status r s) db =
    update_refund_status-rentals env u r s db
process-rentals env u (FinanceRequest.update_payout_status p s) db =
    update_payout_status-rentals env u p s db
