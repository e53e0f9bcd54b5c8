-- ===== src/Rentals/Booking/Creation.antt =====
-- RentalsService: create.
use borrow_hub.Common.{
  ℕ, ◌+◌, ◌-◌, ◌/◌, String, not, ◌&&◌, Option, none, some, [], ◌∷◌, ltb, leb, ◌==◌, any, find,
}
use borrow_hub.Schema.{
  RentalStatus, NotificationType, AnalyticsEventType, Asset, Rental, Reference, Effect,
  AuthenticatedUser, Env,
}
use borrow_hub.Store.{
  Exception, Action, pure, raise, gets, require, transaction, emit, ◌>>=◌, ◌>>◌, create_rental,
}
use borrow_hub.Rentals.Guards.{assert_verified_user, assert_marketplace_user}
use borrow_hub.Rentals.Booking.Terms.{
  is_overlapping, is_active, ensure_within_availability, Pricing, compute_pricing,
}

-- CreateRentalRequestDto; a time is `none` if `new Date(text)` is invalid.
pub record CreateRentalRequestDto : Type 0 where
  pub asset_id : ℕ
  pub start_at : Option ℕ
  pub end_at : Option ℕ
  pub delivery_method : Option String
  pub message : Option String

abbrev pub day_ms : ℕ
day_ms = 86400000

-- `Math.ceil((end - start) / day)`
abbrev pub duration_in_days : (start_at end_at : ℕ) → ℕ
duration_in_days start_at end_at = (end_at - start_at + 86399999) / 86400000

abbrev pub bookable : Option Asset → Action Asset
bookable none = raise (Exception.not_found "Asset is not available for rental")
bookable (some a) =
    require (is_active a.status) (Exception.not_found "Asset is not available for rental") >> pure a

abbrev pub both_times : Option ℕ → Option ℕ → Action (ℕ × ℕ)
both_times (some s) (some e) = pure (s, e)
both_times _ _ = raise (Exception.bad_request "Invalid rental time range")

-- The row that `create` inserts.
abbrev pub new_rental :
    Env
    → AuthenticatedUser
    → CreateRentalRequestDto
    → Asset
    → (start_at end_at : ℕ) → Pricing
    → Rental
new_rental env u dto asset start_at end_at pricing = record {
  id = env.new_id 0;
  asset_id = asset.id;
  owner_id = asset.owner_id;
  renter_id = u.id;
  start_at = start_at;
  end_at = end_at;
  delivery_method = dto.delivery_method;
  message = dto.message;
  currency = "VND";
  rental_fee = pricing.rental_fee;
  service_fee = pricing.service_fee;
  delivery_fee = pricing.delivery_fee;
  late_fee = 0;
  total_amount = pricing.total_amount;
  status = RentalStatus.pending_owner;
  updated_at = env.now;
}

-- The transaction of `create`.
unfoldable pub book :
    Env
    → AuthenticatedUser
    → CreateRentalRequestDto
    → Asset
    → (start_at end_at : ℕ) → Pricing
    → Action Rental
book env u dto asset start_at end_at pricing = do
  overlapping ← gets (λ db. any (is_overlapping asset.id start_at end_at) db.rentals)
  require (not overlapping) (Exception.conflict "This asset already has an overlapping booking")
  ensure_within_availability asset.id start_at end_at
  create_rental (new_rental env u dto asset start_at end_at pricing)

-- The calls after the transaction of `create`.
abbrev pub announce_creation : AuthenticatedUser → Rental → Action (Unit {0})
announce_creation u rental = do
  emit (
      Effect.notify (rental.owner_id ∷ []) NotificationType.rental_request_created
        (Reference.rental rental.id))
  emit (Effect.audit (some u.id) "rental.create" (Reference.rental rental.id))
  emit (Effect.assess_rental_creation rental.id)
  emit (Effect.chat_message rental.id u.id)
  emit (Effect.track AnalyticsEventType.rental_request_created u.id (Reference.rental rental.id))

unfoldable pub create : Env → AuthenticatedUser → CreateRentalRequestDto → Action Rental
create env u dto = do
  assert_verified_user u
  assert_marketplace_user u
  found ← gets (λ db. find (λ a. a.id == dto.asset_id) db.assets)
  asset ← bookable found
  require (not (asset.owner_id == u.id)) (Exception.conflict "You cannot rent your own asset")
  times ← both_times dto.start_at dto.end_at
  require (ltb times.0 times.1) (Exception.conflict "Start time must be before end time")
  let days = duration_in_days times.0 times.1
  require (leb asset.minimum_duration_days days && leb days asset.maximum_duration_days)
      (Exception.conflict "Rental duration is outside the allowed range for this asset")
  pricing ← compute_pricing asset.price_per_day days
  rental ← transaction (book env u dto asset times.0 times.1 pricing)
  announce_creation u rental
  pure rental
