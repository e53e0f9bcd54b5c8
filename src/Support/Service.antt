-- ===== src/Support/Service.antt =====
-- SupportService: create, assign, updateStatus and addNote.
use borrow_hub.Common.{
  ℕ, not, Option, none, some, [], ◌∷◌, ◌++◌, ◌==◌, if◌then◌else◌, any, filter, find, update_first,
  or_else,
}
use borrow_hub.Schema.{
  SupportTicketStatus, SupportTicketPriority, SupportTicketEventType, NotificationType,
  SupportTicket, SupportTicketEvent, Reference, Effect, AuthenticatedUser, Env,
}
use borrow_hub.Store.{Exception, ok, err, Action, ◌>>=◌, ◌>>◌, pure, emit}
use borrow_hub.Disputes.Guards.{some_id}
use borrow_hub.Support.Guards.{
  is_resolved_ticket_status, assert_support_manager, has_ticket_id, find_accessible_ticket,
  assert_can_collaborate, ensure_assignable_staff, CreateSupportTicketDto, resolve_linked_entities,
}

abbrev pub ticket_event : (actor_id : ℕ) → SupportTicketEventType → SupportTicketEvent
ticket_event actor_id t = record { actor_id = actor_id; event_type = t }

abbrev pub new_ticket : Env → AuthenticatedUser → CreateSupportTicketDto → SupportTicket
new_ticket env u dto = record {
  id = env.new_id 0;
  requester_id = u.id;
  assigned_to_id = none;
  rental_id = dto.rental_id;
  dispute_id = dto.dispute_id;
  report_id = dto.report_id;
  subject = dto.subject;
  description = dto.description;
  status = SupportTicketStatus.opened;
  priority = or_else dto.priority SupportTicketPriority.medium;
  updated_at = env.now;
  resolved_at = none;
  events = ticket_event u.id SupportTicketEventType.created ∷ [];
}

-- `supportTicket.create`
abbrev pub insert_ticket : SupportTicket → Action SupportTicket
insert_ticket t db =
    if any (has_ticket_id t.id) db.tickets
    then (err Exception.unique_violation, db)
    else (ok t, record db { tickets = db.tickets ++ t ∷ [] })

unfoldable pub create_ticket :
    Env → AuthenticatedUser → CreateSupportTicketDto → Action SupportTicket
create_ticket env u dto = do
  resolve_linked_entities u dto
  t ← insert_ticket (new_ticket env u dto)
  emit (Effect.audit (some u.id) "support.ticket.create" (Reference.support_ticket t.id))
  pure t

-- `supportTicket.update({ where: { id } })`, and `supportTicketEvent.create`, which needs the ticket
abbrev pub change_found_ticket :
    ℕ → (SupportTicket → SupportTicket) → Option SupportTicket → Action SupportTicket
change_found_ticket id f none db = (err Exception.record_missing, db)
change_found_ticket id f (some t) db =
    (ok (f t), record db { tickets = update_first (has_ticket_id id) f db.tickets })

abbrev pub change_ticket : ℕ → (SupportTicket → SupportTicket) → Action SupportTicket
change_ticket id f db = change_found_ticket id f (find (has_ticket_id id) db.tickets) db

-- The notification of the requester and the given assignee, but not of the user who acts.
abbrev pub tell_ticket_users :
    AuthenticatedUser → SupportTicket → (assigned_to_id : Option ℕ) → Action (Unit {0})
tell_ticket_users u t assigned_to_id = emit (
    Effect.notify (filter (λ id. not (id == u.id)) (t.requester_id ∷ some_id assigned_to_id))
      NotificationType.system (Reference.support_ticket t.id))

abbrev pub ensure_assignable_if_given : Option ℕ → Action (Unit {0})
ensure_assignable_if_given none = pure tt
ensure_assignable_if_given (some user_id) = ensure_assignable_staff user_id

abbrev pub ticket_status_after_assignment : SupportTicketStatus → SupportTicketStatus
ticket_status_after_assignment SupportTicketStatus.opened = SupportTicketStatus.in_progress
ticket_status_after_assignment status = status

-- The data of the update in `assign`; `status` is of the row that was read first.
abbrev pub assigned_ticket :
    Env
    → AuthenticatedUser
    → (assigned_to_id : Option ℕ) → SupportTicketStatus
    → SupportTicket
    → SupportTicket
assigned_ticket env u assigned_to_id status t = record t {
  assigned_to_id = assigned_to_id;
  status = ticket_status_after_assignment status;
  updated_at = env.now;
  events = t.events ++ ticket_event u.id SupportTicketEventType.assigned ∷ [];
}

unfoldable pub assign_ticket :
    Env → AuthenticatedUser → (ticket_id : ℕ) → (assigned_to_id : Option ℕ) → Action SupportTicket
assign_ticket env u id assigned_to_id = do
  assert_support_manager u
  t ← find_accessible_ticket id u
  ensure_assignable_if_given assigned_to_id
  updated ← change_ticket t.id (assigned_ticket env u assigned_to_id t.status)
  emit (Effect.audit (some u.id) "support.ticket.assign" (Reference.support_ticket updated.id))
  tell_ticket_users u t updated.assigned_to_id
  pure updated

abbrev pub resolution_time : Env → SupportTicketStatus → Option ℕ
resolution_time env status = if is_resolved_ticket_status status then some env.now else none

-- The data of the update in `updateStatus`.
abbrev pub ticket_with_status :
    Env → AuthenticatedUser → SupportTicketStatus → SupportTicket → SupportTicket
ticket_with_status env u status t = record t {
  status = status;
  updated_at = env.now;
  resolved_at = resolution_time env status;
  events = t.events ++ ticket_event u.id SupportTicketEventType.status_changed ∷ [];
}

unfoldable pub update_ticket_status :
    Env → AuthenticatedUser → (ticket_id : ℕ) → SupportTicketStatus → Action SupportTicket
update_ticket_status env u id status = do
  t ← find_accessible_ticket id u
  assert_can_collaborate t u
  updated ← change_ticket t.id (ticket_with_status env u status)
  emit (
      Effect.audit (some u.id) "support.ticket.status.update" (Reference.support_ticket updated.id))
  tell_ticket_users u t t.assigned_to_id
  pure updated

-- The event of `addNote` leaves `updated_at` as it is.
abbrev pub noted_ticket : AuthenticatedUser → SupportTicket → SupportTicket
noted_ticket u t = record t {
  events = t.events ++ ticket_event u.id SupportTicketEventType.note ∷ [];
}

unfoldable pub add_ticket_note : AuthenticatedUser → (ticket_id : ℕ) → Action SupportTicket
add_ticket_note u id = do
  t ← find_accessible_ticket id u
  assert_can_collaborate t u
  change_ticket t.id (noted_ticket u)
  emit (Effect.audit (some u.id) "support.ticket.note.create" (Reference.support_ticket t.id))
  tell_ticket_users u t t.assigned_to_id
  find_accessible_ticket t.id u
