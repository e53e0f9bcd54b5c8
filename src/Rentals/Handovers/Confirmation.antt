-- ===== src/Rentals/Handovers/Confirmation.antt =====
-- RentalsService: startHandover, confirmHandover, finalizeHandoverConfirmation.

use borrow_hub.Common.{
  ℕ, ◌+◌, String, Bool, true, false, ◌&&◌, Option, none, some, List, [], ◌∷◌, ◌++◌, ◌==◌,
  first_some,
}
use borrow_hub.Schema.{
  RentalStatus, HandoverType, HandoverStatus, EvidenceType, PayoutStatus, NotificationType,
  AnalyticsEventType, Rental, Payout, Handover, HandoverItem, Evidence, Reference, Effect,
  AuthenticatedUser, Env,
}
use borrow_hub.Store.{
  Exception, Action, pure, require, modify, when, for_some, transaction, emit, ◌>>=◌, ◌>>◌,
  update_rental, update_payout, claim_handovers,
}
use borrow_hub.Rentals.Guards.{
  RentalView, find_accessible_rental, find_rental_handover, assert_owner, assert_renter,
  assert_status,
}
use borrow_hub.Rentals.Booking.{set_status}
use borrow_hub.Rentals.Cancellation.{others}

abbrev pub is_delivery : HandoverType → Bool
is_delivery HandoverType.delivery = true
is_delivery HandoverType.return = false

abbrev pub is_ready_to_deliver : RentalStatus → Bool
is_ready_to_deliver RentalStatus.confirmed = true
is_ready_to_deliver RentalStatus.ready_for_handover = true
is_ready_to_deliver _ = false

abbrev pub is_ready_for_handover : RentalStatus → Bool
is_ready_for_handover RentalStatus.ready_for_handover = true
is_ready_for_handover _ = false

abbrev pub is_return_pending : RentalStatus → Bool
is_return_pending RentalStatus.return_pending = true
is_return_pending _ = false

pub record EvidenceDto : Type 0 where
  pub type : EvidenceType
  pub file_url : String

pub record StartHandoverDto : Type 0 where
  pub type : HandoverType
  pub notes : Option String
  pub items : List HandoverItem
  pub evidences : List EvidenceDto

abbrev pub new_handover : Env → (rental_id : ℕ) → StartHandoverDto → Handover
new_handover env rental_id dto = record {
  id = env.new_id 0;
  rental_id = rental_id;
  type = dto.type;
  status = HandoverStatus.pending;
  notes = dto.notes;
  items = dto.items;
  confirmed_at = none;
}

-- `evidence.createMany` of a handover; the n-th row takes the next generated id.
abbrev pub new_evidences : Env → (rental_id user_id n : ℕ) → List EvidenceDto → List Evidence
new_evidences env rental_id user_id n [] = []
new_evidences env rental_id user_id n (e ∷ es) =
    record {
      id = env.new_id n;
      rental_id = rental_id;
      handover_id = some (env.new_id 0);
      uploaded_by = user_id;
      type = e.type;
      file_url = e.file_url;
      description = none;
      tag = none;
    }
    ∷ new_evidences env rental_id user_id (n + 1) es

abbrev pub status_of_session : HandoverType → RentalStatus
status_of_session HandoverType.delivery = RentalStatus.ready_for_handover
status_of_session HandoverType.return = RentalStatus.return_pending

-- The transaction of `startHandover`.
unfoldable pub open_handover :
    Env → AuthenticatedUser → RentalView → StartHandoverDto → Action Handover
open_handover env u rental dto = do
  let created = new_handover env rental.id dto
  modify (λ db. record db { handovers = db.handovers ++ created ∷ [] })
  modify (λ db. record db {
    evidences = db.evidences ++ new_evidences env rental.id u.id 1 dto.evidences;
  })
  update_rental env rental.id (set_status (status_of_session dto.type))
  pure created

abbrev pub may_start : HandoverType → RentalStatus → Bool
may_start HandoverType.delivery s = is_ready_to_deliver s
may_start HandoverType.return s = is_return_pending s

unfoldable pub start_handover :
    Env → AuthenticatedUser → (rental_id : ℕ) → StartHandoverDto → Action Handover
start_handover env u rental_id dto = do
  rental ← find_accessible_rental rental_id u
  assert_owner rental.owner_id u
  assert_status rental.status (may_start dto.type)
  handover ← transaction (open_handover env u rental dto)
  when (is_delivery dto.type) (
      emit (
        Effect.notify (rental.renter_id ∷ []) NotificationType.handover_ready
          (Reference.rental rental.id)))
  emit (Effect.chat_message rental.id u.id)
  pure handover

abbrev pub is_pending_handover : HandoverStatus → Bool
is_pending_handover HandoverStatus.pending = true
is_pending_handover _ = false

abbrev pub may_confirm : HandoverType → RentalStatus → Bool
may_confirm HandoverType.delivery s = is_ready_for_handover s
may_confirm HandoverType.return s = is_return_pending s

abbrev pub confirmed_handover : Env → Option String → Handover → Handover → Handover
confirmed_handover env notes read h = record h {
  status = HandoverStatus.confirmed;
  confirmed_at = some env.now;
  notes = first_some notes read.notes;
}

abbrev pub release_payout : Payout → Payout
release_payout p = record p { status = PayoutStatus.pending; paid_at = none }

abbrev pub close_session : Env → RentalView → HandoverType → Action Rental
close_session env rental HandoverType.delivery =
    update_rental env rental.id (set_status RentalStatus.ongoing)
close_session env rental HandoverType.return = do
  for_some rental.payout (λ payout. update_payout payout.id release_payout)
  update_rental env rental.id (set_status RentalStatus.completed)

-- The transaction of `finalizeHandoverConfirmation`, on what was read before it.
unfoldable pub claim_and_close : Env → RentalView → Handover → Option String → Action Rental
claim_and_close env rental handover notes = do
  claimed ←
      claim_handovers (λ h. h.id == handover.id && is_pending_handover h.status)
        (confirmed_handover env notes handover)
  require claimed (Exception.conflict "Handover session has already been confirmed")
  close_session env rental handover.type

unfoldable pub finalize_handover_confirmation :
    Env → RentalView → Handover → AuthenticatedUser → Option String → Action Rental
finalize_handover_confirmation env rental handover u notes = do
  assert_renter rental.renter_id u
  assert_status rental.status (may_confirm handover.type)
  transaction (claim_and_close env rental handover notes)

abbrev pub completion_notice : HandoverType → NotificationType
completion_notice HandoverType.delivery = NotificationType.handover_completed
completion_notice HandoverType.return = NotificationType.return_completed

abbrev pub completion_event : HandoverType → AnalyticsEventType
completion_event HandoverType.delivery = AnalyticsEventType.handover_completed
completion_event HandoverType.return = AnalyticsEventType.return_completed

unfoldable pub confirm_handover :
    Env → AuthenticatedUser → (rental_id handover_id : ℕ) → Option String → Action Rental
confirm_handover env u rental_id handover_id notes = do
  rental ← find_accessible_rental rental_id u
  handover ← find_rental_handover rental.id handover_id
  updated ← finalize_handover_confirmation env rental handover u notes
  emit (
      Effect.notify (others rental.rental u) (completion_notice handover.type)
        (Reference.rental rental.id))
  emit (Effect.chat_message rental.id u.id)
  emit (Effect.track (completion_event handover.type) u.id (Reference.handover handover.id))
  pure updated
