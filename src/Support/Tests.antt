-- ===== src/Support/Tests.antt =====
-- Runs of SupportService, and its theorems at concrete inputs.
use borrow_hub.Common.{ℕ, ◌≡◌, refl, none, some, List, [], ◌∷◌, map, Option}
use borrow_hub.Common.Rows.{Grown}
use borrow_hub.Schema.{
  RoleName, VerificationStatus, SupportTicketStatus, SupportTicket, AuthenticatedUser,
}
use borrow_hub.Rentals.Tests.Fixture.{env, renter, stranger, db}
use borrow_hub.Support.Guards.{
  CreateSupportTicketDto, is_support_staff, find_accessible_ticket, ensure_assignable_staff,
  resolve_linked_entities,
}
use borrow_hub.Support.Service.{create_ticket, assign_ticket, update_ticket_status, add_ticket_note}
use borrow_hub.Support.Requests.{TicketRequest, TicketCall, serve_ticket, serve_tickets}
use borrow_hub.Support.Fairness.{IsServed, IsNewTicket, serve_ticket-IsServed}

abbrev clerk : AuthenticatedUser
clerk = record {
  id = 9;
  roles = RoleName.customer_support ∷ [];
  verification_status = VerificationStatus.verified;
}

abbrev ticket : CreateSupportTicketDto
ticket = record {
  subject = "Late";
  description = "The drill is late";
  priority = none;
  rental_id = some 13;
  dispute_id = none;
  report_id = none;
}

abbrev call : AuthenticatedUser → TicketRequest → TicketCall
call u q = record { env = env; user = u; request = q }

-- The renter opens a ticket of rental 13, which a stranger may not do; staff takes it up, the renter
-- adds a note, and a stranger may not close it, but the renter may.
abbrev calls : List TicketCall
calls =
    call stranger (TicketRequest.create ticket)
    ∷ call renter (TicketRequest.create ticket)
    ∷ call clerk (TicketRequest.assign 500 none)
    ∷ call renter (TicketRequest.add_note 500)
    ∷ call stranger (TicketRequest.update_status 500 SupportTicketStatus.closed)
    ∷ call renter (TicketRequest.update_status 500 SupportTicketStatus.resolved)
    ∷ []

abbrev summary : SupportTicket → ℕ × SupportTicketStatus × Option ℕ
summary t = (t.requester_id, t.status, t.resolved_at)

calls_run :
    map summary (serve_tickets calls db).tickets
    ≡ (2, SupportTicketStatus.resolved, some 1000000000) ∷ []
unfolding serve_tickets serve_ticket create_ticket assign_ticket update_ticket_status
    add_ticket_note is_support_staff find_accessible_ticket ensure_assignable_staff
    resolve_linked_entities
calls_run = refl

serve_ticket-IsServed_example :
    Grown
      (IsServed renter)
      (IsNewTicket renter db)
      db.tickets
      (serve_ticket env renter (TicketRequest.create ticket) db).1.tickets
serve_ticket-IsServed_example = serve_ticket-IsServed env renter db (TicketRequest.create ticket)
