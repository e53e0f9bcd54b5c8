-- ===== src/Rentals/Booking/Terms.antt =====
-- RentalsService: the checks of the requested period, and the price.
use borrow_hub.Common.{ℕ, ◌+◌, ◌*◌, ◌/◌, Bool, true, false, not, ◌&&◌, ◌||◌, ltb, leb, ◌==◌, any}
use borrow_hub.Schema.{
  AssetStatus, AvailabilityType, RentalStatus, AssetAvailability, Rental, ConfigKey,
}
use borrow_hub.Store.{Exception, Action, pure, gets, require, ◌>>=◌, ◌>>◌}
use borrow_hub.Rentals.Guards.{get_numeric_config}

-- RESERVED_RENTAL_STATUSES
abbrev pub is_reserved : RentalStatus → Bool
is_reserved RentalStatus.awaiting_payment = true
is_reserved RentalStatus.awaiting_signature = true
is_reserved RentalStatus.confirmed = true
is_reserved RentalStatus.ready_for_handover = true
is_reserved RentalStatus.ongoing = true
is_reserved RentalStatus.return_pending = true
is_reserved RentalStatus.overdue = true
is_reserved _ = false

-- The `where` of the overlap queries: a reserved booking of the asset that meets [start, end).
abbrev pub is_overlapping : (asset_id start_at end_at : ℕ) → Rental → Bool
is_overlapping asset_id start_at end_at r =
    r.asset_id == asset_id && is_reserved r.status && ltb r.start_at end_at && ltb start_at r.end_at

abbrev pub is_active : AssetStatus → Bool
is_active AssetStatus.active = true
is_active _ = false

abbrev pub is_blocked : AvailabilityType → Bool
is_blocked AvailabilityType.blocked = true
is_blocked AvailabilityType.available = false

abbrev pub blocks : (asset_id start_at end_at : ℕ) → AssetAvailability → Bool
blocks asset_id start_at end_at w =
    w.asset_id == asset_id
    && is_blocked w.availability_type
    && ltb w.start_at end_at
    && ltb start_at w.end_at

abbrev pub is_available_window : ℕ → AssetAvailability → Bool
is_available_window asset_id w = w.asset_id == asset_id && not (is_blocked w.availability_type)

abbrev pub covers : (asset_id start_at end_at : ℕ) → AssetAvailability → Bool
covers asset_id start_at end_at w =
    is_available_window asset_id w && leb w.start_at start_at && leb end_at w.end_at

-- ensureWithinAvailability
unfoldable pub ensure_within_availability : (asset_id start_at end_at : ℕ) → Action (Unit {0})
ensure_within_availability asset_id start_at end_at = do
  blocked_window ← gets (λ db. any (blocks asset_id start_at end_at) db.availability)
  require (not blocked_window)
      (Exception.conflict "This asset is blocked for the selected time range")
  has_windows ← gets (λ db. any (is_available_window asset_id) db.availability)
  covering ← gets (λ db. any (covers asset_id start_at end_at) db.availability)
  require (not has_windows || covering)
      (Exception.conflict "This asset is not open for the selected time range")

pub record Pricing : Type 0 where
  pub rental_fee : ℕ
  pub service_fee : ℕ
  pub delivery_fee : ℕ
  pub total_amount : ℕ

-- `Math.round(amount * percent / 100)`, halves up.
abbrev pub round_percent : (amount percent : ℕ) → ℕ
round_percent amount percent = (amount * percent + 50) / 100

-- What `computePricing` answers for a platform fee in percent.
unfoldable pub price : (price_per_day days platform_fee_percent : ℕ) → Pricing
price price_per_day days platform_fee_percent =
    let rental_fee = price_per_day * days in
    let service_fee = round_percent rental_fee platform_fee_percent in
    record {
      rental_fee = rental_fee;
      service_fee = service_fee;
      delivery_fee = 0;
      total_amount = rental_fee + service_fee;
    }

-- computePricing
unfoldable pub compute_pricing : (price_per_day duration_in_days : ℕ) → Action Pricing
compute_pricing price_per_day duration_in_days = do
  platform_fee_percent ← get_numeric_config ConfigKey.platform_fee_percent 5
  pure (price price_per_day duration_in_days platform_fee_percent)
