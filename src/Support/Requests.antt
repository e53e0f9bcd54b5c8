-- ===== src/Support/Requests.antt =====
-- The requests of SupportController that change a ticket, and their dispatch.
-- apps/api/src/support/support.controller.ts
use borrow_hub.Common.{ℕ, Option, List, [], ◌∷◌}
use borrow_hub.Schema.{SupportTicketStatus, SupportTicket, Database, AuthenticatedUser, Env}
use borrow_hub.Store.{Action}
use borrow_hub.Support.Guards.{CreateSupportTicketDto}
use borrow_hub.Support.Service.{create_ticket, assign_ticket, update_ticket_status, add_ticket_note}

pub data TicketRequest : Type 0 where
  create : CreateSupportTicketDto → TicketRequest
  assign : (ticket_id : ℕ) → (assigned_to_id : Option ℕ) → TicketRequest
  update_status : (ticket_id : ℕ) → SupportTicketStatus → TicketRequest
  add_note : (ticket_id : ℕ) → TicketRequest

unfoldable pub serve_ticket : Env → AuthenticatedUser → TicketRequest → Action SupportTicket
serve_ticket env u (TicketRequest.create dto) = create_ticket env u dto
serve_ticket env u (TicketRequest.assign id to) = assign_ticket env u id to
serve_ticket env u (TicketRequest.update_status id status) = update_ticket_status env u id status
serve_ticket env u (TicketRequest.add_note id) = add_ticket_note u id

pub record TicketCall : Type 0 where
  pub env : Env
  pub user : AuthenticatedUser
  pub request : TicketRequest

-- The database after a sequence of requests, each run to its end before the next.
unfoldable pub serve_tickets : List TicketCall → Database → Database
serve_tickets [] db = db
serve_tickets (c ∷ cs) db = serve_tickets cs (serve_ticket c.env c.user c.request db).1
