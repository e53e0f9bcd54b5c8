-- ===== src/Assets/Listing.antt =====
-- AssetsService: create, update, remove and moderate.
use borrow_hub.Common.{
  ℕ, String, Bool, true, false, not, ◌||◌, Option, none, some, List, [], ◌∷◌, ◌++◌, if◌then◌else◌,
  any, update_first, or_else, is_some,
}
use borrow_hub.Common.Text.{trim, non_empty}
use borrow_hub.Schema.{
  AssetStatus, NotificationType, Asset, AssetAvailability, Reference, Effect, AuthenticatedUser,
  Env,
}
use borrow_hub.Store.{
  Exception, ok, err, Action, ◌>>=◌, ◌>>◌, pure, modify, when, require, transaction, emit,
}
use borrow_hub.Assets.Forms.{
  CreateAssetDto, UpdateAssetDto, new_asset, new_windows, windows_after, edited_asset,
}
use borrow_hub.Assets.Guards.{
  is_listing_staff, is_owner_of, is_archived, assert_verified_lister, assert_non_admin_listing_user,
  assert_duration, assert_availability_windows, ensure_category_exists, ensure_category_if_given,
  category_or_default, has_asset_id, ensure_asset_exists, assert_asset_editable, find_asset,
}

-- `asset.create`, with the windows that come with it
abbrev pub insert_asset : Asset → List AssetAvailability → Action Asset
insert_asset a ws db =
    if any (has_asset_id a.id) db.assets
    then (err Exception.unique_violation, db)
    else (ok a, record db { assets = db.assets ++ a ∷ []; availability = db.availability ++ ws })

unfoldable pub create_asset : Env → AuthenticatedUser → CreateAssetDto → Action Asset
create_asset env u dto = do
  assert_non_admin_listing_user u
  assert_verified_lister u
  category_id ← category_or_default dto.category_id
  ensure_category_exists category_id
  assert_duration dto.minimum_duration_days dto.maximum_duration_days
  assert_availability_windows dto.availability
  a ←
      insert_asset (new_asset env u category_id dto)
        (new_windows (env.new_id 0) (or_else dto.availability []))
  emit (Effect.audit (some u.id) "asset.create" (Reference.asset a.id))
  emit (Effect.assess_asset_submission a.id)
  pure a

-- `asset.update` where the row is the given one and, if asked, not archived
abbrev pub change_found : (Asset → Asset) → ℕ → Option Asset → Action Asset
change_found f id none db = (err Exception.record_missing, db)
change_found f id (some a) db =
    (ok (f a), record db { assets = update_first (has_asset_id id) f db.assets })

abbrev pub change_asset : ℕ → (Asset → Asset) → Action Asset
change_asset id f db = change_found f id (find_asset id db) db

abbrev pub unless_archived : Option Asset → Option Asset
unless_archived none = none
unless_archived (some a) = if is_archived a.status then none else some a

abbrev pub change_live_asset : ℕ → (Asset → Asset) → Action Asset
change_live_asset id f db = change_found f id (unless_archived (find_asset id db)) db

-- The transaction of `update`: the windows go with the row, which is changed unless it is archived.
unfoldable pub save_asset : (asset_id : ℕ) → UpdateAssetDto → AssetStatus → Action Asset
save_asset id dto status = do
  modify (λ db. record db { availability = windows_after id dto.availability db.availability })
  change_live_asset id (edited_asset dto status)

-- What follows the check of the durations in `update`.
unfoldable pub finish_update : AuthenticatedUser → ℕ → UpdateAssetDto → Asset → Action Asset
finish_update u id dto a = do
  assert_availability_windows dto.availability
  updated ← transaction (save_asset id dto a.status)
  emit (Effect.audit (some u.id) "asset.update" (Reference.asset id))
  emit (Effect.assess_asset_submission updated.id)
  pure updated

unfoldable pub update_asset : AuthenticatedUser → ℕ → UpdateAssetDto → Action Asset
update_asset u id dto = do
  a ← ensure_asset_exists id
  assert_asset_editable a u
  ensure_category_if_given dto.category_id
  when (is_some dto.minimum_duration_days || is_some dto.maximum_duration_days) (
      assert_duration (or_else dto.minimum_duration_days a.minimum_duration_days)
        (or_else dto.maximum_duration_days a.maximum_duration_days))
  finish_update u id dto a

abbrev pub set_asset_status : AssetStatus → Asset → Asset
set_asset_status status a = record a { status = status }

-- `dto.reason?.trim()`, with an empty text as none
abbrev pub trimmed_reason : Option String → Option String
trimmed_reason none = none
trimmed_reason (some s) = non_empty (trim s)

-- What `remove` does to a listing that is not removed yet.
unfoldable pub archive_asset : AuthenticatedUser → Asset → Action Asset
archive_asset u a = do
  updated ← change_asset a.id (set_asset_status AssetStatus.archived)
  emit (Effect.audit (some u.id) "asset.remove" (Reference.asset a.id))
  when (not (is_owner_of a u)) (
      emit
        (Effect.notify (a.owner_id ∷ []) NotificationType.asset_moderated (Reference.asset a.id)))
  pure updated

unfoldable pub remove_asset : AuthenticatedUser → ℕ → (reason : Option String) → Action Asset
remove_asset u id reason = do
  a ← ensure_asset_exists id
  require (is_owner_of a u || is_listing_staff u)
      (Exception.forbidden "You may not remove this listing")
  if is_archived a.status
      then pure a
      else require (is_owner_of a u || is_some (trimmed_reason reason))
          (Exception.bad_request "Give a reason for the owner")
        >> archive_asset u a

-- `allowedStatuses`
abbrev pub is_moderation_status : AssetStatus → Bool
is_moderation_status AssetStatus.draft = false
is_moderation_status AssetStatus.pending_review = false
is_moderation_status _ = true

unfoldable pub moderate_asset : AuthenticatedUser → ℕ → AssetStatus → Action Asset
moderate_asset u id status = do
  require (is_listing_staff u) (Exception.forbidden "You may not moderate listings")
  a ← ensure_asset_exists id
  require (not (is_archived a.status))
      (Exception.conflict "A removed listing cannot be approved again")
  require (is_moderation_status status) (Exception.conflict "Unsupported moderation status")
  updated ← change_live_asset id (set_asset_status status)
  emit (Effect.notify (a.owner_id ∷ []) NotificationType.asset_moderated (Reference.asset a.id))
  emit (Effect.audit (some u.id) "asset.moderate" (Reference.asset a.id))
  pure updated
