-- ===== src/Disputes/Requests.antt =====
-- The requests of DisputesController that change a dispute, and their dispatch.
-- apps/api/src/disputes/disputes.controller.ts
use borrow_hub.Common.{ℕ, String, Option, List, [], ◌∷◌}
use borrow_hub.Schema.{Database, AuthenticatedUser, Env}
use borrow_hub.Disputes.Opening
use borrow_hub.Disputes.Opening.{CreateDisputeDto}
use borrow_hub.Disputes.Handling
use borrow_hub.Disputes.Handling.{UpdateDisputeStatusDto}

pub data DisputeRequest : Type 0 where
  create : CreateDisputeDto → DisputeRequest
  respond : (dispute_id : ℕ) → (evidence_ids : List ℕ) → DisputeRequest
  accept_damage_report : (dispute_id : ℕ) → (note : Option String) → DisputeRequest
  assign : (dispute_id : ℕ) → (assigned_to_id : Option ℕ) → DisputeRequest
  update_status : (dispute_id : ℕ) → UpdateDisputeStatusDto → DisputeRequest

-- The database after a request; what it answers is dropped.
unfoldable pub settle_dispute : Env → AuthenticatedUser → DisputeRequest → Database → Database
settle_dispute env u (DisputeRequest.create dto) db = (Opening.create env u dto db).1
settle_dispute env u (DisputeRequest.respond id es) db = (Handling.respond u id es db).1
settle_dispute env u (DisputeRequest.accept_damage_report id note) db =
    (Handling.accept_damage_report env u id note db).1
settle_dispute env u (DisputeRequest.assign id to) db = (Handling.assign u id to db).1
settle_dispute env u (DisputeRequest.update_status id dto) db =
    (Handling.update_status env u id dto db).1

-- A request: its context, its user and what it asks.
pub record DisputeCall : Type 0 where
  pub env : Env
  pub user : AuthenticatedUser
  pub request : DisputeRequest

-- The database after a sequence of requests, each run to its end before the next.
unfoldable pub settle_disputes : List DisputeCall → Database → Database
settle_disputes [] db = db
settle_disputes (c ∷ cs) db = settle_disputes cs (settle_dispute c.env c.user c.request db)
