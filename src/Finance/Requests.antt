-- ===== src/Finance/Requests.antt =====
-- The requests of FinanceController that change the database, and their dispatch.
-- apps/api/src/finance/finance.controller.ts
use borrow_hub.Common.{ℕ, List, [], ◌∷◌}
use borrow_hub.Schema.{RefundStatus, PayoutStatus, Database, AuthenticatedUser, Env}
use borrow_hub.Finance.Refunds
use borrow_hub.Finance.Refunds.{CreateRefundDto}
use borrow_hub.Finance.Payouts

pub data FinanceRequest : Type 0 where
  create_refund : (payment_id : ℕ) → CreateRefundDto → FinanceRequest
  update_refund_status : (refund_id : ℕ) → RefundStatus → FinanceRequest
  update_payout_status : (payout_id : ℕ) → PayoutStatus → FinanceRequest

-- A request: its context, its user and what it asks.
pub record FinanceCall : Type 0 where
  pub env : Env
  pub user : AuthenticatedUser
  pub request : FinanceRequest

-- The database after a request; what it answers is dropped.
unfoldable pub process : Env → AuthenticatedUser → FinanceRequest → Database → Database
process env u (FinanceRequest.create_refund id dto) db = (Refunds.create_refund env u id dto db).1
process env u (FinanceRequest.update_refund_status id s) db =
    (Refunds.update_refund_status env u id s db).1
process env u (FinanceRequest.update_payout_status id s) db =
    (Payouts.update_payout_status env u id s db).1

-- The database after a sequence of requests, each run to its end before the next.
unfoldable pub process_all : List FinanceCall → Database → Database
process_all [] db = db
process_all (c ∷ cs) db = process_all cs (process c.env c.user c.request db)
