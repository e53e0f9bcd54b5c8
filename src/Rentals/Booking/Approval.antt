-- ===== src/Rentals/Booking/Approval.antt =====
-- RentalsService: listMine, approve, decline, requestReturn.
use borrow_hub.Common.{
  ℕ, ◌+◌, ◌*◌, String, Bool, true, false, not, ◌&&◌, ◌||◌, Option, some, List, [], ◌∷◌, ltb, ◌==◌,
  any, filter, first_some,
}
use borrow_hub.Schema.{
  RentalStatus, NotificationType, AnalyticsEventType, Rental, ConfigKey, Reference, Effect,
  AuthenticatedUser, Env,
}
use borrow_hub.Store.{
  Exception, Action, pure, gets, or_raise, require, modify, transaction, emit, ◌>>=◌, ◌>>◌,
  update_rental, update_rentals, find_rental,
}
use borrow_hub.Rentals.Guards.{
  is_owner, is_renter, find_accessible_rental, assert_owner, assert_renter, assert_status,
  get_numeric_config,
}
use borrow_hub.Rentals.Booking.Terms.{is_overlapping}

-- The minutes of the payment window, in milliseconds.
abbrev pub window_ms : ℕ → ℕ
window_ms minutes = minutes * 60 * 1000

abbrev pub is_awaiting_payment : RentalStatus → Bool
is_awaiting_payment RentalStatus.awaiting_payment = true
is_awaiting_payment _ = false

-- `updatedAt < now - window`; the subtraction is on the other side, since times are not negative.
abbrev pub is_lapsed : Env → (minutes asset_id : ℕ) → Rental → Bool
is_lapsed env minutes asset_id r =
    r.asset_id == asset_id
    && is_awaiting_payment r.status
    && ltb (r.updated_at + window_ms minutes) env.now

abbrev pub set_status : RentalStatus → Rental → Rental
set_status s r = record r { status = s }

abbrev pub is_pending_owner : RentalStatus → Bool
is_pending_owner RentalStatus.pending_owner = true
is_pending_owner _ = false

-- The transaction of `approve`, on the asset that was read before it.
unfoldable pub reserve :
    Env → AuthenticatedUser → (rental_id asset_id minutes : ℕ) → Option String → Action Rental
reserve env u rental_id asset_id minutes owner_message = do
  modify (update_rentals env (is_lapsed env minutes asset_id) (set_status RentalStatus.expired))
  found ← gets (find_rental rental_id)
  locked ← or_raise found (Exception.not_found "Rental request not found")
  assert_owner locked.owner_id u
  assert_status locked.status is_pending_owner
  overlap ← gets (λ db.
      any
        (λ r.
          not (r.id == locked.id) && is_overlapping locked.asset_id locked.start_at locked.end_at r)
        db.rentals)
  require (not overlap)
      (Exception.conflict "Another booking already reserves this asset for the selected period")
  update_rental env locked.id (λ r. record r {
    status = RentalStatus.awaiting_payment;
    message = first_some owner_message locked.message;
  })

abbrev pub announce_approval : AuthenticatedUser → Rental → Action (Unit {0})
announce_approval u rental = do
  emit (
      Effect.notify (rental.renter_id ∷ []) NotificationType.rental_request_approved
        (Reference.rental rental.id))
  emit (Effect.audit (some u.id) "rental.approve" (Reference.rental rental.id))
  emit (Effect.chat_message rental.id u.id)
  emit (Effect.track AnalyticsEventType.rental_approved u.id (Reference.rental rental.id))

unfoldable pub approve : Env → AuthenticatedUser → (rental_id : ℕ) → Option String → Action Rental
approve env u rental_id owner_message = do
  rental ← find_accessible_rental rental_id u
  assert_owner rental.owner_id u
  minutes ← get_numeric_config ConfigKey.payment_window_minutes 30
  updated ← transaction (reserve env u rental_id rental.asset_id minutes owner_message)
  announce_approval u rental.rental
  pure updated

unfoldable pub decline : Env → AuthenticatedUser → (rental_id : ℕ) → Option String → Action Rental
decline env u rental_id reason = do
  rental ← find_accessible_rental rental_id u
  assert_owner rental.owner_id u
  assert_status rental.status is_pending_owner
  updated ←
      update_rental env rental_id (λ r. record r {
        status = RentalStatus.declined;
        message = first_some reason rental.message;
      })
  emit (
      Effect.notify (rental.renter_id ∷ []) NotificationType.rental_request_declined
        (Reference.rental rental.id))
  pure updated

abbrev pub is_with_renter : RentalStatus → Bool
is_with_renter RentalStatus.ongoing = true
is_with_renter RentalStatus.overdue = true
is_with_renter _ = false

unfoldable pub request_return : Env → AuthenticatedUser → (rental_id : ℕ) → Action Rental
request_return env u rental_id = do
  rental ← find_accessible_rental rental_id u
  assert_renter rental.renter_id u
  assert_status rental.status is_with_renter
  updated ← update_rental env rental.id (set_status RentalStatus.return_pending)
  emit (
      Effect.notify (rental.owner_id ∷ []) NotificationType.return_requested
        (Reference.rental rental.id))
  pure updated

pub data ListRole : Type 0 where
  owner renter either : ListRole

abbrev pub is_listed : AuthenticatedUser → ListRole → Rental → Bool
is_listed u ListRole.owner r = is_owner r u
is_listed u ListRole.renter r = is_renter r u
is_listed u ListRole.either r = is_owner r u || is_renter r u

-- `listMine`; the status filter of the query is a test, true everywhere if it is not given.
unfoldable pub list_mine :
    AuthenticatedUser → (RentalStatus → Bool) → ListRole → Action (List Rental)
list_mine u with_status role =
    gets (λ db. filter (λ r. with_status r.status && is_listed u role r) db.rentals)
