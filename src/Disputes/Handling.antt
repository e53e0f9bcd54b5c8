-- ===== src/Disputes/Handling.antt =====
-- DisputesService: respond, acceptDamageReport, assign, updateStatus.
use text.Mathlib.Text.{◌==◌ as str_eq}
use borrow_hub.Common.{
  ℕ, String, Bool, true, false, not, ◌&&◌, ◌||◌, Option, none, some, List, [], ◌∷◌, ◌++◌, ◌==◌,
  if◌then◌else◌, any, filter, find, includes, map, first_some,
}
use borrow_hub.Common.Text.{is_empty, or_text}
use borrow_hub.Schema.{
  RentalStatus, DisputeStatus, DisputeEventType, PayoutStatus, HandoverType, HandoverStatus,
  NotificationType, Evidence, Dispute, Payout, Handover, Rental, Reference, Effect,
  AuthenticatedUser, Env,
}
use borrow_hub.Store.{
  Exception, Action, ◌>>=◌, ◌>>◌, pure, gets, require, or_raise, for_some, when, transaction, emit,
  update_rental, update_payout, has_user_id,
}
use borrow_hub.Rentals.Booking.{set_status}
use borrow_hub.Rentals.Cancellation.{set_payout_status}
use borrow_hub.Rentals.Issues.{load_evidence_for_rental, trimmed}
use borrow_hub.Disputes.Guards.{
  DisputeView, is_terminal, is_opened, is_waiting_response, find_dispute, find_accessible_dispute,
  ensure_mutable, ensure_status_transition, is_dispute_manager_role, assert_dispute_manager,
  update_dispute, add_event, collect_dispute_watchers,
}

-- `dispute.findUniqueOrThrow`
abbrev pub dispute_or_throw : ℕ → Action Dispute
dispute_or_throw id = do found ← gets (find_dispute id); or_raise found Exception.record_missing

abbrev pub tell_watchers : AuthenticatedUser → Rental → Dispute → String → Action (Unit {0})
tell_watchers u rental d action = do
  emit (
      Effect.notify (collect_dispute_watchers d rental u.id) NotificationType.system
        (Reference.dispute d.id))
  emit (Effect.audit (some u.id) action (Reference.dispute d.id))

abbrev pub recalculate_participants : Rental → Action (Unit {0})
recalculate_participants rental = do
  emit (Effect.recalculate_user_trust_score rental.owner_id)
  emit (Effect.recalculate_user_trust_score rental.renter_id)

-- `createMany` with `skipDuplicates`, on the unique pairs of a dispute and an evidence.
abbrev pub attach : List Evidence → Dispute → Dispute
attach evidences d = record d {
  evidence_ids =
      d.evidence_ids ++ filter (λ i. not (includes d.evidence_ids i)) (map (λ e. e.id) evidences);
}

unfoldable pub attach_if_any : AuthenticatedUser → (id : ℕ) → List Evidence → Action (Unit {0})
attach_if_any u id [] = pure tt
attach_if_any u id (e ∷ es) = do
  update_dispute id (attach (e ∷ es))
  update_dispute id (add_event u.id DisputeEventType.evidence_attached)

abbrev pub status_after_response : DisputeStatus → DisputeStatus
status_after_response s =
    if is_opened s then DisputeStatus.waiting_response else DisputeStatus.under_review

abbrev pub set_dispute_status : DisputeStatus → Dispute → Dispute
set_dispute_status s d = record d { status = s }

-- The transaction of `respond`.
unfoldable pub add_response : AuthenticatedUser → Dispute → List Evidence → Action Dispute
add_response u dispute evidences = do
  update_dispute dispute.id (add_event u.id DisputeEventType.response_added)
  attach_if_any u dispute.id evidences
  update_dispute dispute.id (set_dispute_status (status_after_response dispute.status))
  dispute_or_throw dispute.id

unfoldable pub respond :
    AuthenticatedUser → (dispute_id : ℕ) → (evidence_ids : List ℕ) → Action Dispute
respond u dispute_id evidence_ids = do
  view ← find_accessible_dispute dispute_id u
  ensure_mutable view.status
  evidences ← load_evidence_for_rental view.rental_id evidence_ids u.id
  updated ← transaction (add_response u view.dispute evidences)
  tell_watchers u view.rental updated "dispute.respond"
  pure updated

abbrev pub is_blocked_payout : PayoutStatus → Bool
is_blocked_payout PayoutStatus.blocked = true
is_blocked_payout _ = false

-- restoreBlockedPayoutIfNeeded
abbrev pub restore_blocked_payout : Option Payout → Action (Unit {0})
restore_blocked_payout payout = for_some payout (λ p.
    when (is_blocked_payout p.status) (update_payout p.id (set_payout_status PayoutStatus.pending)))

abbrev pub accepted : Env → (resolution_summary : String) → Dispute → Dispute
accepted env resolution_summary d = record d {
  status = DisputeStatus.resolved;
  resolution_summary = some resolution_summary;
  resolved_at = some env.now;
}

-- The transaction of `acceptDamageReport`.
unfoldable pub accept_report :
    Env → AuthenticatedUser → DisputeView → (resolution_summary : String) → Action Dispute
accept_report env u view resolution_summary = do
  update_dispute view.id (add_event u.id DisputeEventType.resolved)
  update_dispute view.id (accepted env resolution_summary)
  update_rental env view.rental_id (set_status RentalStatus.completed)
  restore_blocked_payout view.payout
  dispute_or_throw view.id

unfoldable pub accept_damage_report :
    Env → AuthenticatedUser → (dispute_id : ℕ) → (note : Option String) → Action Dispute
accept_damage_report env u dispute_id note = do
  view ← find_accessible_dispute dispute_id u
  ensure_mutable view.status
  require (str_eq view.reason "RETURN_ISSUE")
      (Exception.bad_request "This dispute is not a damage report")
  require (u.id == view.rental.renter_id)
      (Exception.forbidden "Only the renter can accept this damage report")
  require (view.opened_by_id == view.rental.owner_id)
      (Exception.bad_request "Only owner-opened damage reports can be accepted by renter")
  updated ← transaction (
      accept_report env u view
        (or_text (trimmed note) "Người thuê đã chấp nhận báo cáo hư hỏng và chi phí sửa chữa"))
  tell_watchers u view.rental updated "dispute.damage-report.accept"
  recalculate_participants view.rental
  pure updated

abbrev pub status_after_assignment : DisputeStatus → DisputeStatus
status_after_assignment s =
    if is_opened s || is_waiting_response s then DisputeStatus.under_review else s

-- The check of an assignee that is given.
abbrev pub ensure_assignee : Option ℕ → Action (Unit {0})
ensure_assignee none = pure tt
ensure_assignee (some id) = do
  found ← gets (λ db. find (has_user_id id) db.users)
  assignee ← or_raise found (Exception.not_found "Assignee not found")
  require (any is_dispute_manager_role assignee.roles)
      (Exception.bad_request "Assignee must be a staff account")

abbrev pub reassigned : (assigned_to_id : Option ℕ) → DisputeStatus → Dispute → Dispute
reassigned assigned_to_id s d = record d { assigned_to_id = assigned_to_id; status = s }

-- The transaction of `assign`.
unfoldable pub assign_dispute :
    AuthenticatedUser → Dispute → (assigned_to_id : Option ℕ) → Action Dispute
assign_dispute u dispute assigned_to_id = do
  update_dispute dispute.id (add_event u.id DisputeEventType.assigned)
  update_dispute dispute.id (reassigned assigned_to_id (status_after_assignment dispute.status))
  dispute_or_throw dispute.id

unfoldable pub assign :
    AuthenticatedUser → (dispute_id : ℕ) → (assigned_to_id : Option ℕ) → Action Dispute
assign u dispute_id assigned_to_id = do
  assert_dispute_manager u
  view ← find_accessible_dispute dispute_id u
  ensure_assignee assigned_to_id
  updated ← transaction (assign_dispute u view.dispute assigned_to_id)
  tell_watchers u view.rental updated "dispute.assign"
  pure updated

pub record UpdateDisputeStatusDto : Type 0 where
  pub status : DisputeStatus
  pub resolution_summary : Option String

abbrev pub is_confirmed_return : Handover → Bool
is_confirmed_return h = elim h.type [
  | HandoverType.return ↦ elim h.status [ HandoverStatus.confirmed ↦ true | _ ↦ false ]
  | HandoverType.delivery ↦ false
]

abbrev pub event_of : DisputeStatus → DisputeEventType
event_of s = if is_terminal s then DisputeEventType.resolved else DisputeEventType.status_changed

-- The status of the rental after its dispute got a status: completed only if the dispute is over
-- and the return of the asset was confirmed.
abbrev pub rental_status_after : DisputeStatus → (return_confirmed : Bool) → RentalStatus
rental_status_after s return_confirmed =
    if is_terminal s && return_confirmed then RentalStatus.completed else RentalStatus.disputed

abbrev pub decided :
    Env → (resolution_summary : Option String) → UpdateDisputeStatusDto → Dispute → Dispute
decided env resolution_summary dto d = record d {
  status = dto.status;
  resolution_summary = first_some dto.resolution_summary resolution_summary;
  resolved_at = if is_terminal dto.status then some env.now else none;
}

-- The transaction of `updateStatus`.
unfoldable pub decide :
    Env → AuthenticatedUser → DisputeView → UpdateDisputeStatusDto → Action Dispute
decide env u view dto = do
  let return_confirmed = any is_confirmed_return view.handovers
  update_dispute view.id (add_event u.id (event_of dto.status))
  update_dispute view.id (decided env view.resolution_summary dto)
  update_rental env view.rental_id (set_status (rental_status_after dto.status return_confirmed))
  when (is_terminal dto.status && return_confirmed) (restore_blocked_payout view.payout)
  dispute_or_throw view.id

-- `!dto.resolutionSummary`
abbrev pub is_blank : Option String → Bool
is_blank none = true
is_blank (some s) = is_empty s

unfoldable pub update_status :
    Env → AuthenticatedUser → (dispute_id : ℕ) → UpdateDisputeStatusDto → Action Dispute
update_status env u dispute_id dto = do
  assert_dispute_manager u
  view ← find_accessible_dispute dispute_id u
  ensure_status_transition view.status dto.status
  require (not (is_terminal dto.status && is_blank dto.resolution_summary))
      (Exception.bad_request "resolutionSummary is required for terminal dispute statuses")
  updated ← transaction (decide env u view dto)
  tell_watchers u view.rental updated "dispute.status.update"
  recalculate_participants view.rental
  pure updated
