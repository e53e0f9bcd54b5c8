-- ===== src/Disputes/Opening.antt =====
-- DisputesService: create.
use borrow_hub.Common.{
  ℕ, String, not, ◌||◌, Option, none, some, List, [], ◌∷◌, ◌==◌, any, find, filter, map,
}
use borrow_hub.Schema.{
  RentalStatus, DisputeStatus, DisputeEventType, PayoutStatus, NotificationType, AnalyticsEventType,
  Evidence, Dispute, Payout, Rental, Reference, Effect, AuthenticatedUser, Env,
}
use borrow_hub.Store.{
  Exception, Action, ◌>>=◌, ◌>>◌, pure, raise, gets, require, or_raise, for_some, transaction,
  try_catch, emit, find_rental, update_rental, update_payout, create_dispute, is_active_dispute_of,
}
use borrow_hub.Rentals.Guards.{is_owner, is_renter, is_staff}
use borrow_hub.Rentals.Booking.{set_status}
use borrow_hub.Rentals.Cancellation.{set_payout_status}
use borrow_hub.Rentals.Issues.{event_by, load_evidence_for_rental, translate}

pub record CreateDisputeDto : Type 0 where
  pub rental_id : ℕ
  pub reason : String
  pub description : String
  pub evidence_ids : List ℕ

abbrev pub filed_dispute :
    Env → AuthenticatedUser → (rental_id : ℕ) → CreateDisputeDto → List Evidence → Dispute
filed_dispute env u rental_id dto evidences = record {
  id = env.new_id 0;
  rental_id = rental_id;
  opened_by_id = u.id;
  reason = dto.reason;
  description = dto.description;
  status = DisputeStatus.opened;
  events = event_by u.id DisputeEventType.opened ∷ [];
  evidence_ids = map (λ e. e.id) evidences;
  assigned_to_id = none;
  resolution_summary = none;
  resolved_at = none;
}

-- The transaction of `create`, with the payout that was read before it.
unfoldable pub file_dispute : Env → (rental_id : ℕ) → Option Payout → Dispute → Action Dispute
file_dispute env rental_id payout dispute = do
  created ← create_dispute dispute
  update_rental env rental_id (set_status RentalStatus.disputed)
  for_some payout (λ p. update_payout p.id (set_payout_status PayoutStatus.blocked))
  pure created

-- The calls after the transaction of `create`.
abbrev pub announce_dispute : AuthenticatedUser → Rental → Dispute → Action (Unit {0})
announce_dispute u rental dispute = do
  emit (
      Effect.notify (filter (λ id. not (id == u.id)) (rental.owner_id ∷ rental.renter_id ∷ []))
        NotificationType.system (Reference.dispute dispute.id))
  emit (Effect.audit (some u.id) "dispute.create" (Reference.dispute dispute.id))
  emit (Effect.track AnalyticsEventType.dispute_opened u.id (Reference.dispute dispute.id))
  emit (Effect.recalculate_user_trust_score rental.owner_id)
  emit (Effect.recalculate_user_trust_score rental.renter_id)

-- What follows the reads of `create`.
unfoldable pub record_dispute :
    Env
    → AuthenticatedUser
    → Rental
    → Option Payout
    → CreateDisputeDto
    → List Evidence
    → Action Dispute
record_dispute env u rental payout dto evidences = do
  dispute ←
      try_catch
        (transaction
          (file_dispute env rental.id payout (filed_dispute env u rental.id dto evidences)))
        (λ e. raise (translate e))
  announce_dispute u rental dispute
  pure dispute

-- `loadEvidenceForRental` has the same body in RentalsService, and so has `isStaff`.
unfoldable pub create : Env → AuthenticatedUser → CreateDisputeDto → Action Dispute
create env u dto = do
  found ← gets (find_rental dto.rental_id)
  rental ← or_raise found (Exception.not_found "Rental request not found")
  payout ← gets (λ db. find (λ p. p.rental_id == rental.id) db.payouts)
  require (is_owner rental u || (is_renter rental u || is_staff u))
      (Exception.forbidden "You cannot open a dispute for this rental")
  existing ← gets (λ db. any (is_active_dispute_of rental.id) db.disputes)
  require (not existing) (Exception.conflict "This rental already has an active dispute")
  evidences ← load_evidence_for_rental rental.id dto.evidence_ids u.id
  record_dispute env u rental payout dto evidences
