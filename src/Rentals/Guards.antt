-- ===== src/Rentals/Guards.antt =====
-- Lookups and assertions that the methods of RentalsService share.
use borrow_hub.Common.{
  ℕ, Bool, true, false, Option, none, some, List, ◌||◌, ◌==◌, find, any, filter, or_else,
}
use borrow_hub.Schema.{
  RoleName, VerificationStatus, RentalStatus, UserRow, Asset, Rental, Payment, Payout,
  RentalContract, Handover, ConfigKey, Database, AuthenticatedUser,
}
use borrow_hub.Store.{Exception, Action, pure, raise, gets, require, ◌>>◌, find_rental, has_user_id}

-- A rental with the relations that `rentalInclude` loads.
pub record RentalView : Type 0 where
  pub rental : Rental
  pub open rental use *
  pub asset : Option Asset
  pub owner : Option UserRow
  pub renter : Option UserRow
  pub contract : Option RentalContract
  pub payments : List Payment
  pub payout : Option Payout

abbrev pub rental_include : Database → Rental → RentalView
rental_include db r = record {
  rental = r;
  asset = find (λ a. a.id == r.asset_id) db.assets;
  owner = find (has_user_id r.owner_id) db.users;
  renter = find (has_user_id r.renter_id) db.users;
  contract = find (λ c. c.rental_id == r.id) db.contracts;
  payments = filter (λ p. p.rental_id == r.id) db.payments;
  payout = find (λ p. p.rental_id == r.id) db.payouts;
}

abbrev pub is_staff_role : RoleName → Bool
is_staff_role RoleName.user = false
is_staff_role RoleName.partner = false
is_staff_role _ = true

-- Shut in the proofs: they only need that it is some test of the user.
unfoldable pub is_staff : AuthenticatedUser → Bool
is_staff u = any is_staff_role u.roles

abbrev pub is_owner : Rental → AuthenticatedUser → Bool
is_owner r u = r.owner_id == u.id

abbrev pub is_renter : Rental → AuthenticatedUser → Bool
is_renter r u = r.renter_id == u.id

abbrev pub can_access : Rental → AuthenticatedUser → Bool
can_access r u = is_owner r u || is_renter r u || is_staff u

abbrev pub view_if : Bool → Rental → Action RentalView
view_if true r = gets (λ db. rental_include db r)
view_if false r = raise (Exception.forbidden "You cannot access this rental")

abbrev pub found_accessible : AuthenticatedUser → Option Rental → Action RentalView
found_accessible u none = raise (Exception.not_found "Rental request not found")
found_accessible u (some r) = view_if (can_access r u) r

abbrev pub find_accessible_rental : ℕ → AuthenticatedUser → Action RentalView
find_accessible_rental rental_id u db = found_accessible u (find_rental rental_id db) db

abbrev pub assert_owner : ℕ → AuthenticatedUser → Action (Unit {0})
assert_owner owner_id u =
    require (owner_id == u.id) (Exception.forbidden "Only the owner can perform this action")

abbrev pub assert_renter : ℕ → AuthenticatedUser → Action (Unit {0})
assert_renter renter_id u =
    require (renter_id == u.id) (Exception.forbidden "Only the renter can perform this action")

abbrev pub is_verified : VerificationStatus → Bool
is_verified VerificationStatus.verified = true
is_verified _ = false

abbrev pub assert_verified_user : AuthenticatedUser → Action (Unit {0})
assert_verified_user u =
    require (is_verified u.verification_status)
      (Exception.forbidden "Only verified users can create rental requests")

abbrev pub assert_marketplace_user : AuthenticatedUser → Action (Unit {0})
assert_marketplace_user u = elim (is_staff u) [
  | true ↦ raise (Exception.forbidden "Staff users cannot create rental requests")
  | false ↦ pure tt
]

-- The list of allowed statuses is given as its membership test.
abbrev pub assert_status : RentalStatus → (RentalStatus → Bool) → Action (Unit {0})
assert_status current allowed = require (allowed current) (Exception.wrong_status current)

-- The value of a configuration key, on values that are natural numbers.
abbrev pub numeric_config : Database → ConfigKey → ℕ → ℕ
numeric_config db key fallback = or_else (db.config key) fallback

-- `getNumericConfig`
abbrev pub get_numeric_config : ConfigKey → ℕ → Action ℕ
get_numeric_config key fallback = gets (λ db. numeric_config db key fallback)

abbrev pub found_handover : ℕ → Option Handover → Action Handover
found_handover rental_id none = raise (Exception.not_found "Handover session not found")
found_handover rental_id (some h) =
    require (h.rental_id == rental_id) (Exception.not_found "Handover session not found") >> pure h

abbrev pub find_rental_handover : ℕ → ℕ → Action Handover
find_rental_handover rental_id handover_id db =
    found_handover rental_id (find (λ h. h.id == handover_id) db.handovers) db
