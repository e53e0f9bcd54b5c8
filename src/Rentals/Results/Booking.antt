-- ===== src/Rentals/Results/Booking.antt =====
-- A request that `create` accepts, and one that `approve` accepts.
use borrow_hub.Common.{
  ℕ, ◌+◌, ◌<◌, true, false, ◌≡◌, ◌≢◌, none, some, [], ◌∷◌, ◌++◌, arith, ◌==◌, any, find, inl, inr,
  Option-cases,
}
use borrow_hub.Schema.{RentalStatus, Rental, Asset, ConfigKey, Database, AuthenticatedUser, Env}
use borrow_hub.Store.{ok}
use borrow_hub.Rentals.Guards.{numeric_config, is_staff, is_verified}
use borrow_hub.Rentals.Booking.{
  CreateRentalRequestDto, Pricing, is_overlapping, blocks, ensure_within_availability,
  compute_pricing, book, create, new_rental, price, duration_in_days,
}

book_lem :
    (env : Env) (u : AuthenticatedUser) (dto : CreateRentalRequestDto) (a : Asset) (s e : ℕ)
    (p : Pricing) (db : Database) (r : Rental)
    → (book env u dto a s e p db).0 ≡ ok r
    → (r ≡ new_rental env u dto a s e p)
      × ((book env u dto a s e p db).1.rentals ≡ db.rentals ++ r ∷ [])
      × (any (is_overlapping a.id s e) db.rentals ≡ false)
      × (any (blocks a.id s e) db.availability ≡ false)
unfolding book ensure_within_availability
book_lem env u dto a s e p db r done = ground arith

abbrev pub IsAccepted :
    Env → AuthenticatedUser → CreateRentalRequestDto → Database → Rental → Type 0
IsAccepted env u dto db r =
    (is_verified u.verification_status ≡ true)
    × (is_staff u ≡ false)
    × ((create env u dto db).1.rentals ≡ db.rentals ++ r ∷ [])
    × (r.status ≡ RentalStatus.pending_owner)
    × (r.renter_id ≡ u.id)
    × ((r.owner_id == u.id) ≡ false)
    × (r.start_at < r.end_at)
    × (any (is_overlapping r.asset_id r.start_at r.end_at) db.rentals ≡ false)
    × (any (blocks r.asset_id r.start_at r.end_at) db.availability ≡ false)
    × (r.total_amount ≡ r.rental_fee + r.service_fee)

pub create-no_asset :
    (env : Env) (u : AuthenticatedUser) (dto : CreateRentalRequestDto) (db : Database) (r : Rental)
    → find (λ (x : Asset). x.id == dto.asset_id) db.assets ≡ none
    → (create env u dto db).0 ≢ ok r
unfolding create
create-no_asset env u dto db r missing = ground (arith, missing)

pub create-no_start :
    (env : Env) (u : AuthenticatedUser) (dto : CreateRentalRequestDto) (db : Database) (r : Rental)
    → dto.start_at ≡ none
    → (create env u dto db).0 ≢ ok r
unfolding create
create-no_start env u dto db r missing = ground (arith, missing)

pub create-no_end :
    (env : Env) (u : AuthenticatedUser) (dto : CreateRentalRequestDto) (db : Database) (r : Rental)
    → dto.end_at ≡ none
    → (create env u dto db).0 ≢ ok r
unfolding create
create-no_end env u dto db r missing = ground (arith, missing)

-- `create` with its lookup and its dates given.
create-at :
    (env : Env) (u : AuthenticatedUser) (dto : CreateRentalRequestDto) (db : Database) (r : Rental)
    (a : Asset) (s e : ℕ)
    → find (λ (x : Asset). x.id == dto.asset_id) db.assets ≡ some a
    → dto.start_at ≡ some s
    → dto.end_at ≡ some e
    → (create env u dto db).0 ≡ ok r
    → IsAccepted env u dto db r
unfolding create compute_pricing price
create-at env u dto db r a s e found from to done = ground (
  arith,
  found,
  from,
  to,
  book_lem env u dto a s e
      (price a.price_per_day (duration_in_days s e)
        (numeric_config db ConfigKey.platform_fee_percent 5))
      db r,
)

-- A request that `create` accepts comes from a verified user who is not staff and does not own the
-- asset. One row is added for it, which waits for the owner; its period is not empty, meets no
-- reserved booking and no blocked window of the asset, and its total is the fee of the rental and
-- the service fee.
pub create_lem :
    (env : Env) (u : AuthenticatedUser) (dto : CreateRentalRequestDto) (db : Database) (r : Rental)
    → (create env u dto db).0 ≡ ok r
    → IsAccepted env u dto db r
create_lem env u dto db r done =
    elim (Option-cases (find (λ (x : Asset). x.id == dto.asset_id) db.assets)) [
      | inl missing ↦ absurd (create-no_asset env u dto db r missing done)
      | inr (a, found) ↦ elim (Option-cases dto.start_at) [
        | inl missing ↦ absurd (create-no_start env u dto db r missing done)
        | inr (s, from) ↦ elim (Option-cases dto.end_at) [
          | inl missing ↦ absurd (create-no_end env u dto db r missing done)
          | inr (e, to) ↦ create-at env u dto db r a s e found from to done
        ]
      ]
    ]
