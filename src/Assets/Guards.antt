-- ===== src/Assets/Guards.antt =====
-- AssetsService: who may do what with a listing, and the checks of what a listing says.
use borrow_hub.Common.{
  ℕ, Bool, true, false, not, ◌&&◌, ◌||◌, Option, none, some, List, [], ◌∷◌, ltb, leb, ◌==◌, any,
  find,
}
use borrow_hub.Schema.{
  RoleName, AssetStatus, AvailabilityType, CategoryStatus, Asset, Category, Database,
  AuthenticatedUser,
}
use borrow_hub.Store.{Exception, Action, ◌>>=◌, ◌>>◌, pure, gets, require, or_raise}
use borrow_hub.Rentals.Guards.{is_verified}

abbrev pub is_listing_staff_role : RoleName → Bool
is_listing_staff_role RoleName.moderator = true
is_listing_staff_role RoleName.admin = true
is_listing_staff_role RoleName.super_admin = true
is_listing_staff_role _ = false

-- isStaff. Shut in the proofs: they only need that it is some test of the user.
unfoldable pub is_listing_staff : AuthenticatedUser → Bool
is_listing_staff u = any is_listing_staff_role u.roles

abbrev pub is_admin_role : RoleName → Bool
is_admin_role RoleName.admin = true
is_admin_role RoleName.super_admin = true
is_admin_role _ = false

unfoldable pub is_admin : AuthenticatedUser → Bool
is_admin u = any is_admin_role u.roles

abbrev pub is_owner_of : Asset → AuthenticatedUser → Bool
is_owner_of a u = a.owner_id == u.id

abbrev pub is_archived : AssetStatus → Bool
is_archived AssetStatus.archived = true
is_archived _ = false

-- `lockedStatuses`
abbrev pub is_locked : AssetStatus → Bool
is_locked AssetStatus.suspended = true
is_locked AssetStatus.archived = true
is_locked _ = false

-- assertVerifiedUser
abbrev pub assert_verified_lister : AuthenticatedUser → Action (Unit {0})
assert_verified_lister u =
    require (is_verified u.verification_status)
      (Exception.forbidden "Only verified users can create asset listings")

-- assertNonAdminListingUser
abbrev pub assert_non_admin_listing_user : AuthenticatedUser → Action (Unit {0})
assert_non_admin_listing_user u =
    require (not (is_admin u)) (Exception.forbidden "Admin users cannot create asset listings")

-- assertDuration
abbrev pub assert_duration : (minimum_duration_days maximum_duration_days : ℕ) → Action (Unit {0})
assert_duration minimum maximum =
    require (leb minimum maximum)
      (Exception.conflict "Minimum duration cannot exceed maximum duration")

-- A window that a request asks for. Its dates have passed `@IsDateString()`.
pub record AssetAvailabilityDto : Type 0 where
  pub start_at : ℕ
  pub end_at : ℕ
  pub availability_type : Option AvailabilityType

abbrev pub are_windows : List AssetAvailabilityDto → Bool
are_windows [] = true
are_windows (w ∷ ws) = ltb w.start_at w.end_at && are_windows ws

abbrev pub are_windows_if_given : Option (List AssetAvailabilityDto) → Bool
are_windows_if_given none = true
are_windows_if_given (some ws) = are_windows ws

-- assertAvailabilityWindows
abbrev pub assert_availability_windows : Option (List AssetAvailabilityDto) → Action (Unit {0})
assert_availability_windows ws =
    require (are_windows_if_given ws)
      (Exception.conflict "Availability start time must be before end time")

abbrev pub has_category_id : ℕ → Category → Bool
has_category_id id c = c.id == id

-- ensureCategoryExists
abbrev pub ensure_category_exists : ℕ → Action Category
ensure_category_exists id = do
  found ← gets (λ db. find (has_category_id id) db.categories)
  or_raise found (Exception.not_found "Category not found")

abbrev pub ensure_category_if_given : Option ℕ → Action (Unit {0})
ensure_category_if_given none = pure tt
ensure_category_if_given (some id) = ensure_category_exists id >> pure tt

abbrev pub is_active_category : CategoryStatus → Bool
is_active_category CategoryStatus.active = true
is_active_category CategoryStatus.inactive = false

abbrev pub is_root : Option ℕ → Bool
is_root none = true
is_root (some id) = false

-- getDefaultCategoryId. The categories stand in the order of their creation.
abbrev pub get_default_category_id : Action ℕ
get_default_category_id = do
  found ← gets (λ db. find (λ c. is_active_category c.status && is_root c.parent_id) db.categories)
  category ← or_raise found (Exception.not_found "No active asset category is configured")
  pure category.id

-- `dto.categoryId ?? (await this.getDefaultCategoryId())`
abbrev pub category_or_default : Option ℕ → Action ℕ
category_or_default none = get_default_category_id
category_or_default (some id) = pure id

abbrev pub has_asset_id : ℕ → Asset → Bool
has_asset_id id a = a.id == id

abbrev pub find_asset : ℕ → Database → Option Asset
find_asset id db = find (has_asset_id id) db.assets

-- ensureAssetExists
abbrev pub ensure_asset_exists : ℕ → Action Asset
ensure_asset_exists id = do
  found ← gets (find_asset id)
  or_raise found (Exception.not_found "Asset not found")

-- assertAssetEditable
abbrev pub assert_asset_editable : Asset → AuthenticatedUser → Action (Unit {0})
assert_asset_editable a u = do
  require (is_owner_of a u || is_listing_staff u) (Exception.forbidden "You cannot edit this asset")
  require (not (is_archived a.status)) (Exception.conflict "A removed listing cannot be edited")
  require (not (is_locked a.status) || is_listing_staff u)
      (Exception.conflict "Archived or suspended assets cannot be edited")
