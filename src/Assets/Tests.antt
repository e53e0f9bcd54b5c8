-- ===== src/Assets/Tests.antt =====
-- Runs of AssetsService, and its theorems at concrete inputs.
use mathlib.Core.List.{Perm}
use mathlib.Core.List.Perm
use borrow_hub.Common.{ℕ, true, false, ◌≡◌, refl, none, some, List, [], ◌∷◌, map, Option, find}
use borrow_hub.Common.Int.{ℤ, pos}
use borrow_hub.Common.Rows.{Grown}
use borrow_hub.Schema.{AuthenticatedUser, AssetStatus, AssetCondition, Asset}
use borrow_hub.Store.{Exception, ok, err}
use borrow_hub.Rentals.Guards.{is_staff}
use borrow_hub.Rentals.Booking.{
  create, book, compute_pricing, price, ensure_within_availability, new_rental, is_active,
}
use borrow_hub.Rentals.Tests.Fixture.{env, owner, renter, stranger, moderator, asset, booking, db}
use borrow_hub.Assets.Guards.{is_listing_staff, is_admin, has_asset_id}
use borrow_hub.Assets.Forms.{CreateAssetDto, UpdateAssetDto}
use borrow_hub.Assets.Listing.{
  create_asset, update_asset, finish_update, save_asset, remove_asset, archive_asset,
  moderate_asset,
}
use borrow_hub.Assets.Requests.{AssetRequest, AssetCall, serve_listing, serve_listings}
use borrow_hub.Assets.Invariant.{IsWellFormed, serve_listings-IsWellFormed}
use borrow_hub.Assets.Control.{
  IsControlled, IsUnpublished, staff_acts, user_acts, serve_listings-IsControlled,
}
use borrow_hub.Assets.Query.{
  SearchTools, SearchAssetsQueryDto, QueryDate, AssetSort, is_match, is_open_for,
}
use borrow_hub.Assets.Search.{get_by_id}
use borrow_hub.Assets.Availability.{at_any_time, create-is_match}

abbrev call : AuthenticatedUser → AssetRequest → AssetCall
call u q = record { env = env; user = u; request = q }

abbrev edit : UpdateAssetDto
edit = record {
  category_id = none;
  title = some "Hammer drill";
  description = none;
  brand = none;
  model = none;
  serial_number = none;
  condition = none;
  estimated_value = none;
  price_per_day = some 2000;
  minimum_duration_days = some 2;
  maximum_duration_days = none;
  city = none;
  district = none;
  ward = none;
  latitude = none;
  longitude = none;
  meeting_point = none;
  delivery_options = none;
  usage_instructions = none;
  cancellation_policy = none;
  images = none;
  accessories = none;
  availability = some (record { start_at = 100; end_at = 200; availability_type = none } ∷ []);
}

abbrev form : CreateAssetDto
form = record {
  category_id = none;
  title = "Saw";
  description = "A saw";
  brand = none;
  model = none;
  serial_number = none;
  condition = AssetCondition.new;
  estimated_value = 30000;
  price_per_day = 500;
  minimum_duration_days = 1;
  maximum_duration_days = 9;
  city = "Hue";
  district = "Center";
  ward = none;
  latitude = none;
  longitude = none;
  meeting_point = none;
  delivery_options = none;
  usage_instructions = none;
  cancellation_policy = none;
  images = none;
  accessories = none;
  availability = none;
}

-- The owner edits the listing, and a stranger fails to; the renter lists another, which a moderator
-- publishes; the owner removes the first, and can edit it no more.
abbrev calls : List AssetCall
calls =
    call owner (AssetRequest.update 7 edit)
    ∷ call stranger (AssetRequest.update 7 edit)
    ∷ call renter (AssetRequest.create form)
    ∷ call moderator (AssetRequest.moderate 500 AssetStatus.active)
    ∷ call owner (AssetRequest.remove 7 none)
    ∷ call owner (AssetRequest.update 7 edit)
    ∷ []

abbrev summary : Asset → ℕ × ℕ × AssetStatus
summary a = (a.id, a.price_per_day, a.status)

calls_run :
    map summary (serve_listings calls db).assets
    ≡ (7, 2000, AssetStatus.archived) ∷ (500, 500, AssetStatus.active) ∷ []
unfolding serve_listings serve_listing create_asset update_asset finish_update save_asset
    remove_asset archive_asset moderate_asset is_listing_staff is_admin
calls_run = refl

serve_listings-IsWellFormed_example :
    IsWellFormed (serve_listings calls db).assets (serve_listings calls db).availability
serve_listings-IsWellFormed_example =
    serve_listings-IsWellFormed calls db (record { durations = (refl, tt); nonempty = tt })

serve_listings-IsControlled_example :
    Grown
      (IsControlled (staff_acts calls) (user_acts calls))
      (IsUnpublished (staff_acts calls))
      db.assets
      (serve_listings calls db).assets
serve_listings-IsControlled_example = serve_listings-IsControlled calls db

abbrev tools : SearchTools
tools = record {
  contains_insensitive = λ text keyword. true;
  lower_case = λ text. text;
  average = λ ratings. 0;
  distance = λ a b c d. 150;
  read_order = λ page rows. rows;
}

abbrev query : SearchAssetsQueryDto
query = record {
  keyword = some "drill";
  category_id = some 3;
  city = none;
  district = none;
  min_price = none;
  max_price = some 5000;
  condition = none;
  delivery_method = none;
  min_rating = none;
  latitude = some (pos 164);
  longitude = some (pos 1075);
  radius_km = some 200;
  status = none;
  include_all_statuses = false;
  hide_removed = false;
  start_at = QueryDate.at 6000000000;
  end_at = QueryDate.at 6172800000;
  sort = some AssetSort.nearest;
  page = none;
  limit = none;
}

query_match : is_match tools none query db asset ≡ true
unfolding is_match is_open_for
query_match = refl

create-is_match_example :
    (a : Asset) × (find (has_asset_id 7) db.assets ≡ some a)
    × (is_active a.status ≡ true)
    × (is_match tools none query db a ≡ is_match tools none (at_any_time query) db a)
unfolding create book compute_pricing price ensure_within_availability is_staff
create-is_match_example =
    create-is_match env renter booking db
      (new_rental env renter booking asset 6000000000 6172800000 (price 1000 2 5)) tools none query
      refl refl refl

-- The same booking is refused while another request waits for its payment, but the search still
-- lists the asset for its dates.
abbrev held : SearchAssetsQueryDto
held = record query { start_at = QueryDate.at 3000000000; end_at = QueryDate.at 3100000000 }

held_match : is_match tools none held db asset ≡ true
unfolding is_match is_open_for
held_match = refl

held_booking :
    (create env renter
      (record booking { start_at = some 3000000000; end_at = some 3100000000 })
      db).0
    ≡ err (Exception.conflict "This asset already has an overlapping booking")
unfolding create book compute_pricing price ensure_within_availability is_staff
held_booking = refl

-- A visitor who is neither the owner nor staff sees no exact place.
abbrev place : Asset → Option ℤ × Option ℤ
place a = (a.latitude, a.longitude)

renter_view :
    (get_by_id 7 (some renter) db).0
    ≡ ok (record asset { ward = none; latitude = none; longitude = none; meeting_point = none })
unfolding get_by_id is_listing_staff
renter_view = refl

owner_view : (get_by_id 7 (some owner) db).0 ≡ ok asset
unfolding get_by_id is_listing_staff
owner_view = refl
