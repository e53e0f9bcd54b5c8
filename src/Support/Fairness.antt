-- ===== src/Support/Fairness.antt =====
-- Who changes a ticket and how, and the time of its resolution.
use borrow_hub.Common.{
  update_first, ℕ, true, ◌≡◌, refl, ◌⊎◌, inl, inr, Option, none, some, List, [], ◌∷◌, ◌++◌, arith,
  All, find, is_some,
}
use borrow_hub.Common.Rows.{
  Grown-All, Grown, Grown-append, Grown-Rows, Rows-refl, Rows-update_found,
}
use borrow_hub.Schema.{
  SupportTicketStatus, SupportTicketEventType, SupportTicket, Database, AuthenticatedUser, Env,
}
use borrow_hub.Store.{ok}
use borrow_hub.Support.Guards.{
  is_resolved_ticket_status, is_support_staff, has_ticket_id, can_access_ticket,
  CreateSupportTicketDto, resolve_linked_entities,
}
use borrow_hub.Support.Service.{
  ticket_event, new_ticket, assigned_ticket, ticket_with_status, noted_ticket,
}
use borrow_hub.Support.Requests.{TicketRequest, TicketCall, serve_ticket, serve_tickets}
use borrow_hub.Support.Changes.{create-cases, assign-cases, update_status-cases, add_note-cases}

-- The time of the resolution is there just when the ticket is resolved or closed.
abbrev pub IsStamped : SupportTicket → Type 0
IsStamped t = is_some t.resolved_at ≡ is_resolved_ticket_status t.status

-- What a request of the user does to a ticket that it changes.
pub record IsStep (u : AuthenticatedUser) (s t : SupportTicket) : Type 0 where
  pub may : can_access_ticket s u ≡ true
  pub kind : SupportTicketEventType
  pub logged : t.events ≡ s.events ++ ticket_event u.id kind ∷ []
  pub reassigned : (t.assigned_to_id ≡ s.assigned_to_id) ⊎ (is_support_staff u ≡ true)
  pub stamped : IsStamped s → IsStamped t

pub record IsServed (u : AuthenticatedUser) (s t : SupportTicket) : Type 0 where
  pub same_id : t.id ≡ s.id
  pub same_requester : t.requester_id ≡ s.requester_id
  pub same_rental : t.rental_id ≡ s.rental_id
  pub same_dispute : t.dispute_id ≡ s.dispute_id
  pub same_report : t.report_id ≡ s.report_id
  pub change : (t ≡ s) ⊎ IsStep u s t

IsServed-refl : (u : AuthenticatedUser) (t : SupportTicket) → IsServed u t t
IsServed-refl u t = record {
  same_id = refl;
  same_requester = refl;
  same_rental = refl;
  same_dispute = refl;
  same_report = refl;
  change = inl refl;
}

-- A ticket of the user, open and with nobody assigned, whose links the user may make.
pub record IsNewTicket (u : AuthenticatedUser) (db : Database) (t : SupportTicket) : Type 0 where
  pub own : t.requester_id ≡ u.id
  pub open_ : t.status ≡ SupportTicketStatus.opened
  pub free : t.assigned_to_id ≡ none
  pub unresolved : t.resolved_at ≡ none
  pub linked :
      (dto : CreateSupportTicketDto) × (dto.rental_id ≡ t.rental_id)
      × (dto.dispute_id ≡ t.dispute_id)
      × (dto.report_id ≡ t.report_id)
      × ((resolve_linked_entities u dto db).0 ≡ ok tt)

module _ (env : Env) (u : AuthenticatedUser) (db : Database) where
  same-Grown : Grown (IsServed u) (IsNewTicket u db) db.tickets db.tickets
  same-Grown =
      Grown-Rows (IsServed u) (IsNewTicket u db) db.tickets db.tickets
        (Rows-refl (IsServed u) (IsServed-refl u) db.tickets)

  one-Grown :
      (f : SupportTicket → SupportTicket) (t : SupportTicket)
      → find (has_ticket_id t.id) db.tickets ≡ some t
      → IsServed u t (f t)
      → Grown
          (IsServed u)
          (IsNewTicket u db)
          db.tickets
          (update_first (has_ticket_id t.id) f db.tickets)
  one-Grown f t found h =
      Grown-Rows (IsServed u) (IsNewTicket u db) db.tickets
        (update_first (has_ticket_id t.id) f db.tickets)
        (Rows-update_found (IsServed u) (IsServed-refl u) (has_ticket_id t.id) f db.tickets t found
          h)

  step-IsServed :
      (t : SupportTicket) (to : Option ℕ) (s : SupportTicketStatus) (time : ℕ) (resolved : Option ℕ)
      (kind : SupportTicketEventType)
      → can_access_ticket t u ≡ true
      → (to ≡ t.assigned_to_id) ⊎ (is_support_staff u ≡ true)
      → (IsStamped t → is_some resolved ≡ is_resolved_ticket_status s)
      → IsServed u t (record t {
        assigned_to_id = to;
        status = s;
        updated_at = time;
        resolved_at = resolved;
        events = t.events ++ ticket_event u.id kind ∷ [];
      })
  step-IsServed t to s time resolved kind may reassigned stamped = record {
    same_id = refl;
    same_requester = refl;
    same_rental = refl;
    same_dispute = refl;
    same_report = refl;
    change = inr (record {
      may = may;
      kind = kind;
      logged = refl;
      reassigned = reassigned;
      stamped = stamped;
    });
  }

  -- A request changes a ticket only if its user is the requester, the assignee or staff of the
  -- support; it logs one event under the user's name, it reassigns only for staff, and a ticket
  -- whose time of resolution was right keeps it right. A new ticket is the user's, open, unassigned
  -- and unresolved, and its links have passed the checks.
  pub serve_ticket-IsServed :
      (q : TicketRequest)
      → Grown (IsServed u) (IsNewTicket u db) db.tickets (serve_ticket env u q db).1.tickets
  unfolding serve_ticket
  serve_ticket-IsServed (TicketRequest.create dto) =
      create-cases (Grown (IsServed u) (IsNewTicket u db) db.tickets) env u db dto same-Grown
        (λ linked.
          Grown-append (IsServed u) (IsServed-refl u) (IsNewTicket u db) db.tickets
            (new_ticket env u dto)
            (record {
              own = refl;
              open_ = refl;
              free = refl;
              unresolved = refl;
              linked = (dto, refl, refl, refl, linked);
            }))
  serve_ticket-IsServed (TicketRequest.assign id to) =
      assign-cases (Grown (IsServed u) (IsNewTicket u db) db.tickets) env u db id to same-Grown
        (λ t found staff. one-Grown (assigned_ticket env u to t.status) t found (
          step-IsServed t to _ env.now t.resolved_at _ (grind (arith, staff)) (inr staff)
            (λ h. ground (arith, h))))
  serve_ticket-IsServed (TicketRequest.update_status id status) =
      update_status-cases (Grown (IsServed u) (IsNewTicket u db) db.tickets) env u db id status
        same-Grown
        (λ t found may.
          one-Grown (ticket_with_status env u status) t found (
            step-IsServed t t.assigned_to_id status env.now _ _ may (inl refl) (λ h. ground arith)))
  serve_ticket-IsServed (TicketRequest.add_note id) =
      add_note-cases (Grown (IsServed u) (IsNewTicket u db) db.tickets) env u db id same-Grown
        (λ t found may. one-Grown (noted_ticket u) t found (
          step-IsServed t t.assigned_to_id t.status t.updated_at t.resolved_at _ may (inl refl)
            (λ h. h)))

  served-IsStamped : (s t : SupportTicket) → IsStamped s → IsServed u s t → IsStamped t
  served-IsStamped s t h p = elim p.change [ inl same ↦ rw same h | inr step ↦ step.stamped h ]

  new-IsStamped : (t : SupportTicket) → IsNewTicket u db t → IsStamped t
  new-IsStamped t h = rw (h.open_, h.unresolved) refl

-- If every ticket has a time of resolution just when it is resolved or closed, then so it is after
-- any sequence of requests to SupportService.
pub serve_tickets-IsStamped :
    (cs : List TicketCall) (db : Database)
    → All IsStamped db.tickets
    → All IsStamped (serve_tickets cs db).tickets
unfolding serve_tickets
serve_tickets-IsStamped [] db h = h
serve_tickets-IsStamped (c ∷ cs) db h =
    serve_tickets-IsStamped cs (serve_ticket c.env c.user c.request db).1 (
      Grown-All (IsServed c.user) (IsNewTicket c.user db) IsStamped
        (served-IsStamped c.env c.user db) (new-IsStamped c.env c.user db) db.tickets
        (serve_ticket c.env c.user c.request db).1.tickets h
        (serve_ticket-IsServed c.env c.user db c.request))
