-- ===== src/Disputes/Guards.antt =====
-- DisputesService: the diagram of the statuses, who may act on a dispute, and the database calls on
-- a dispute.
use borrow_hub.Common.{
  ℕ, Bool, true, false, not, ◌||◌, Option, none, some, List, [], ◌∷◌, ◌++◌, ◌==◌, if◌then◌else◌,
  any, find, filter, update_first,
}
use borrow_hub.Schema.{
  RoleName, DisputeStatus, DisputeEventType, Dispute, Rental, Handover, Payout, Database,
  AuthenticatedUser,
}
use borrow_hub.Store.{
  Exception, ok, err, Action, ◌>>=◌, raise, gets, require, or_raise, find_rental,
}
use borrow_hub.Rentals.Guards.{is_owner, is_renter, is_staff}
use borrow_hub.Rentals.Issues.{event_by}

-- TERMINAL_DISPUTE_STATUSES
abbrev pub is_terminal : DisputeStatus → Bool
is_terminal DisputeStatus.resolved = true
is_terminal DisputeStatus.rejected = true
is_terminal DisputeStatus.closed = true
is_terminal _ = false

abbrev pub is_opened : DisputeStatus → Bool
is_opened DisputeStatus.opened = true
is_opened _ = false

abbrev pub is_waiting_response : DisputeStatus → Bool
is_waiting_response DisputeStatus.waiting_response = true
is_waiting_response _ = false

abbrev pub is_under_review : DisputeStatus → Bool
is_under_review DisputeStatus.under_review = true
is_under_review _ = false

-- ALLOWED_DISPUTE_TRANSITIONS
abbrev pub is_allowed : (current next : DisputeStatus) → Bool
is_allowed DisputeStatus.opened next = not (is_opened next)
is_allowed DisputeStatus.waiting_response next = is_under_review next || is_terminal next
is_allowed DisputeStatus.under_review next = is_waiting_response next || is_terminal next
is_allowed _ next = false

-- A dispute with what `disputeInclude` loads of its rental.
pub record DisputeView : Type 0 where
  pub dispute : Dispute
  pub open dispute use *
  pub rental : Rental
  pub handovers : List Handover
  pub payout : Option Payout

abbrev pub dispute_include : Database → Dispute → Rental → DisputeView
dispute_include db d r = record {
  dispute = d;
  rental = r;
  handovers = filter (λ h. h.rental_id == r.id) db.handovers;
  payout = find (λ p. p.rental_id == r.id) db.payouts;
}

abbrev pub has_dispute_id : ℕ → Dispute → Bool
has_dispute_id id d = d.id == id

abbrev pub find_dispute : ℕ → Database → Option Dispute
find_dispute id db = find (has_dispute_id id) db.disputes

abbrev pub is_assigned_to : ℕ → Option ℕ → Bool
is_assigned_to user_id none = false
is_assigned_to user_id (some i) = i == user_id

abbrev pub can_access_dispute : Dispute → Rental → AuthenticatedUser → Bool
can_access_dispute d r u =
    d.opened_by_id == u.id
    || (is_owner r u || (is_renter r u || (is_assigned_to u.id d.assigned_to_id || is_staff u)))

abbrev pub view_dispute_if : Bool → Dispute → Rental → Action DisputeView
view_dispute_if true d r = gets (λ db. dispute_include db d r)
view_dispute_if false d r = raise (Exception.forbidden "You cannot access this dispute")

-- findAccessibleDispute
unfoldable pub find_accessible_dispute : (dispute_id : ℕ) → AuthenticatedUser → Action DisputeView
find_accessible_dispute dispute_id u = do
  found ← gets (find_dispute dispute_id)
  d ← or_raise found (Exception.not_found "Dispute not found")
  found_rental ← gets (find_rental d.rental_id)
  r ← or_raise found_rental (Exception.not_found "Dispute not found")
  view_dispute_if (can_access_dispute d r u) d r

-- ensureMutable
abbrev pub ensure_mutable : DisputeStatus → Action (Unit {0})
ensure_mutable status =
    require (not (is_terminal status)) (Exception.conflict "This dispute has already been closed")

-- ensureStatusTransition
abbrev pub ensure_status_transition : (current next : DisputeStatus) → Action (Unit {0})
ensure_status_transition current next =
    require (is_allowed current next) (Exception.conflict "Cannot change dispute status")

-- disputeManagerRoles
abbrev pub is_dispute_manager_role : RoleName → Bool
is_dispute_manager_role RoleName.dispute_officer = true
is_dispute_manager_role RoleName.customer_support = true
is_dispute_manager_role RoleName.admin = true
is_dispute_manager_role RoleName.super_admin = true
is_dispute_manager_role _ = false

-- Shut in the proofs: they only need that it is some test of the user.
unfoldable pub is_dispute_manager : AuthenticatedUser → Bool
is_dispute_manager u = any is_dispute_manager_role u.roles

-- assertDisputeManager
abbrev pub assert_dispute_manager : AuthenticatedUser → Action (Unit {0})
assert_dispute_manager u =
    require (is_dispute_manager u)
      (Exception.forbidden "Only dispute staff can perform this action")

-- `dispute.update({ where: { id } })`. No update makes a dispute active that was not, so the index
-- of active disputes cannot be violated here.
abbrev pub update_dispute : ℕ → (Dispute → Dispute) → Action (Unit {0})
update_dispute id f db =
    if any (has_dispute_id id) db.disputes
    then (ok tt, record db { disputes = update_first (has_dispute_id id) f db.disputes })
    else (err Exception.record_missing, db)

-- `disputeEvent.create`
abbrev pub add_event : (user_id : ℕ) → DisputeEventType → Dispute → Dispute
add_event user_id t d = record d { events = d.events ++ event_by user_id t ∷ [] }

-- `[...new Set(ids)]`
abbrev pub distinct : List ℕ → List ℕ
distinct [] = []
distinct (x ∷ xs) = x ∷ filter (λ y. not (y == x)) (distinct xs)

abbrev pub some_id : Option ℕ → List ℕ
some_id none = []
some_id (some i) = i ∷ []

-- collectDisputeWatchers
abbrev pub collect_dispute_watchers : Dispute → Rental → (actor_id : ℕ) → List ℕ
collect_dispute_watchers d r actor_id =
    filter (λ id. not (id == actor_id))
      (distinct (d.opened_by_id ∷ r.owner_id ∷ r.renter_id ∷ some_id d.assigned_to_id))
