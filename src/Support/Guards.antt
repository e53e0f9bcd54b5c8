-- ===== src/Support/Guards.antt =====
-- SupportService: who may see and manage a ticket, the lists of tickets, and the entities that a
-- ticket is linked to.
use Prim.Native.Nat.{compare}
use borrow_hub.Common.{
  ℕ, String, Bool, true, false, ◌&&◌, ◌||◌, Option, none, some, List, ◌==◌, any, find, filter,
}
use borrow_hub.Common.Sort.{sort_items}
use borrow_hub.Schema.{
  RoleName, SupportTicketStatus, SupportTicketPriority, SupportTicket, Report, Rental, Dispute,
  Database, AuthenticatedUser,
}
use borrow_hub.Store.{
  Exception, Action, ◌>>=◌, ◌>>◌, pure, raise, gets, require, or_raise, find_rental, has_user_id,
}
use borrow_hub.Rentals.Guards.{is_owner, is_renter}
use borrow_hub.Disputes.Guards.{find_dispute, is_assigned_to}

-- RESOLVED_SUPPORT_STATUSES
abbrev pub is_resolved_ticket_status : SupportTicketStatus → Bool
is_resolved_ticket_status SupportTicketStatus.resolved = true
is_resolved_ticket_status SupportTicketStatus.closed = true
is_resolved_ticket_status _ = false

-- assignableSupportRoles
abbrev pub is_support_role : RoleName → Bool
is_support_role RoleName.customer_support = true
is_support_role RoleName.admin = true
is_support_role RoleName.super_admin = true
is_support_role _ = false

-- isSupportStaff. Shut in the proofs: they only need that it is some test of the user.
unfoldable pub is_support_staff : AuthenticatedUser → Bool
is_support_staff u = any is_support_role u.roles

-- assertSupportManager
abbrev pub assert_support_manager : AuthenticatedUser → Action (Unit {0})
assert_support_manager u =
    require (is_support_staff u) (Exception.forbidden "Only support staff can manage tickets")

abbrev pub has_ticket_id : ℕ → SupportTicket → Bool
has_ticket_id id t = t.id == id

abbrev pub can_access_ticket : SupportTicket → AuthenticatedUser → Bool
can_access_ticket t u =
    t.requester_id == u.id || (is_assigned_to u.id t.assigned_to_id || is_support_staff u)

abbrev pub ticket_if : Bool → SupportTicket → Action SupportTicket
ticket_if true t = pure t
ticket_if false t = raise (Exception.forbidden "You cannot access this support ticket")

-- findAccessibleTicket
unfoldable pub find_accessible_ticket : (ticket_id : ℕ) → AuthenticatedUser → Action SupportTicket
find_accessible_ticket id u = do
  found ← gets (λ db. find (has_ticket_id id) db.tickets)
  t ← or_raise found (Exception.not_found "Support ticket not found")
  ticket_if (can_access_ticket t u) t

-- assertCanCollaborate
abbrev pub assert_can_collaborate : SupportTicket → AuthenticatedUser → Action (Unit {0})
assert_can_collaborate t u =
    require (can_access_ticket t u) (Exception.forbidden "You cannot update this support ticket")

-- ensureAssignableStaff
unfoldable pub ensure_assignable_staff : (user_id : ℕ) → Action (Unit {0})
ensure_assignable_staff user_id = do
  found ← gets (λ db. find (has_user_id user_id) db.users)
  assignee ← or_raise found (Exception.not_found "Assignee not found")
  require (any is_support_role assignee.roles)
      (Exception.bad_request "Assignee must be support staff")

pub data TicketScope : Type 0 where
  requested assigned all : TicketScope

pub record SupportTicketQueryDto : Type 0 where
  pub status : Option SupportTicketStatus
  pub priority : Option SupportTicketPriority
  pub scope : Option TicketScope

-- buildScopeFilter
abbrev pub in_scope : AuthenticatedUser → Option TicketScope → SupportTicket → Bool
in_scope u (some TicketScope.requested) t = t.requester_id == u.id
in_scope u (some TicketScope.assigned) t =
    is_support_staff u && is_assigned_to u.id t.assigned_to_id
in_scope u (some TicketScope.all) t = is_support_staff u || t.requester_id == u.id
in_scope u none t =
    t.requester_id == u.id || (is_support_staff u && is_assigned_to u.id t.assigned_to_id)

abbrev pub ticket_status_index : SupportTicketStatus → ℕ
ticket_status_index SupportTicketStatus.opened = 0
ticket_status_index SupportTicketStatus.in_progress = 1
ticket_status_index SupportTicketStatus.waiting_user = 2
ticket_status_index SupportTicketStatus.resolved = 3
ticket_status_index SupportTicketStatus.closed = 4

abbrev pub priority_index : SupportTicketPriority → ℕ
priority_index SupportTicketPriority.low = 0
priority_index SupportTicketPriority.medium = 1
priority_index SupportTicketPriority.high = 2

abbrev pub has_status : Option SupportTicketStatus → SupportTicket → Bool
has_status none t = true
has_status (some s) t = ticket_status_index t.status == ticket_status_index s

abbrev pub has_priority : Option SupportTicketPriority → SupportTicket → Bool
has_priority none t = true
has_priority (some p) t = priority_index t.priority == priority_index p

-- list
unfoldable pub list_tickets :
    AuthenticatedUser → SupportTicketQueryDto → Database → List SupportTicket
list_tickets u q db =
    sort_items (λ s t. compare t.updated_at s.updated_at)
      (filter (λ t. has_status q.status t && (has_priority q.priority t && in_scope u q.scope t))
        db.tickets)

pub record CreateSupportTicketDto : Type 0 where
  pub subject : String
  pub description : String
  pub priority : Option SupportTicketPriority
  pub rental_id : Option ℕ
  pub dispute_id : Option ℕ
  pub report_id : Option ℕ

abbrev pub has_report_id : ℕ → Report → Bool
has_report_id id r = r.id == id

-- A reference of a new ticket: the row must exist, and a user who is no staff must take part in it.
-- All rows are looked up before any check; the checks of existence come first.
abbrev pub lookup_if_given : {A : Type 0} → Option ℕ → (ℕ → Option A) → Option A
lookup_if_given none look = none
lookup_if_given (some id) look = look id

abbrev pub is_there_if_given : {A : Type 0} → Option ℕ → Option A → Bool
is_there_if_given (some id) none = false
is_there_if_given _ _ = true

abbrev pub if_there : {A : Type 0} → Option A → (A → Bool) → Bool
if_there none p = true
if_there (some a) p = p a

abbrev pub is_party_of_rental : AuthenticatedUser → Rental → Bool
is_party_of_rental u r = is_support_staff u || (is_owner r u || is_renter r u)

abbrev pub is_party_of_dispute : AuthenticatedUser → Dispute → Bool
is_party_of_dispute u d =
    is_support_staff u || (d.opened_by_id == u.id || is_assigned_to u.id d.assigned_to_id)

abbrev pub is_party_of_report : AuthenticatedUser → Report → Bool
is_party_of_report u r =
    is_support_staff u || (r.reporter_id == u.id || is_assigned_to u.id r.assigned_to_id)

-- resolveLinkedEntities; the ids that it returns are the given ones.
unfoldable pub resolve_linked_entities :
    AuthenticatedUser → CreateSupportTicketDto → Action (Unit {0})
resolve_linked_entities u dto = do
  rental ← gets (λ db. lookup_if_given dto.rental_id (λ id. find_rental id db))
  dispute ← gets (λ db. lookup_if_given dto.dispute_id (λ id. find_dispute id db))
  report ← gets (λ db. lookup_if_given dto.report_id (λ id. find (has_report_id id) db.reports))
  require (is_there_if_given dto.rental_id rental) (Exception.not_found "Rental request not found")
  require (is_there_if_given dto.dispute_id dispute) (Exception.not_found "Dispute not found")
  require (is_there_if_given dto.report_id report) (Exception.not_found "Report not found")
  require (if_there rental (is_party_of_rental u))
      (Exception.forbidden "You cannot open a ticket for this rental")
  require (if_there dispute (is_party_of_dispute u))
      (Exception.forbidden "You cannot open a ticket for this dispute")
  require (if_there report (is_party_of_report u))
      (Exception.forbidden "You cannot open a ticket for this report")
