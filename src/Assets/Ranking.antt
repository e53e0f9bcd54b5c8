-- ===== src/Assets/Ranking.antt =====
-- AssetsService.search: what a found listing shows, the filters and the order of the results, and
-- the cut into pages.
use Prim.Native.Nat.{compare, Ordering}
use text.Mathlib.Text.{◌==◌ as same_text}
use borrow_hub.Common.{
  ℕ, zero, suc, String, Bool, true, false, ◌&&◌, ◌||◌, Option, none, some, List, [], ◌∷◌, leb, ◌==◌,
  if◌then◌else◌, any, filter, map, is_some,
}
use borrow_hub.Common.Int.{ℤ}
use borrow_hub.Common.Text.{trim, non_empty}
use borrow_hub.Schema.{Asset, Review, Database, AuthenticatedUser}
use borrow_hub.TrustScore.Score.{is_published, is_completed, count}
use borrow_hub.Assets.Guards.{is_listing_staff, is_owner_of}
use borrow_hub.Assets.Query.{SearchTools, AssetSort, SearchAssetsQueryDto, if_given}

-- `canViewPreciseLocation`, `canViewPrivateAsset`
abbrev pub sees_private : Asset → Option AuthenticatedUser → Bool
sees_private a none = false
sees_private a (some u) = is_owner_of a u || is_listing_staff u

-- sanitizeLocationFields
abbrev pub sanitize_location_fields : Asset → Option AuthenticatedUser → Asset
sanitize_location_fields a visitor =
    if sees_private a visitor
    then a
    else record a { ward = none; latitude = none; longitude = none; meeting_point = none }

pub record EnrichedSearchAsset : Type 0 where
  pub asset : Asset
  pub open asset use *
  pub owner_average_rating : ℕ
  pub completed_rental_count : ℕ
  pub distance_km : Option ℕ

-- calculateDistanceKm
abbrev pub calculate_distance_km :
    SearchTools
    → (user_latitude user_longitude asset_latitude asset_longitude : Option ℤ) → Option ℕ
calculate_distance_km tools (some a) (some b) (some c) (some d) = some (tools.distance a b c d)
calculate_distance_km tools _ _ _ _ = none

-- An entry of `ratingMap`: an owner without a published review has none, and 0 stands for it.
abbrev pub owner_rating : SearchTools → List Review → (owner_id : ℕ) → ℕ
owner_rating tools reviews owner_id =
    elim (filter (λ r. r.reviewee_id == owner_id && is_published r.status) reviews) [
      | [] ↦ 0
      | r ∷ rs ↦ tools.average (map (λ s. s.rating) (r ∷ rs))
    ]

-- The body of the `map` of `enrichSearchAssets`; the groups are read for one item at a time.
abbrev pub enrich :
    SearchTools
    → Database
    → Option AuthenticatedUser
    → SearchAssetsQueryDto
    → Asset
    → EnrichedSearchAsset
enrich tools db visitor q a = record {
  asset = sanitize_location_fields a visitor;
  owner_average_rating = owner_rating tools db.reviews a.owner_id;
  completed_rental_count = count (λ r. r.asset_id == a.id && is_completed r.status) db.rentals;
  distance_km = calculate_distance_km tools q.latitude q.longitude a.latitude a.longitude;
}

-- normalizeDeliveryOptions
abbrev pub texts_of : List (Option String) → List String
texts_of [] = []
texts_of (none ∷ os) = texts_of os
texts_of (some s ∷ os) = s ∷ texts_of os

abbrev pub normalize_delivery_options : Option (List (Option String)) → List String
normalize_delivery_options none = []
normalize_delivery_options (some os) = texts_of os

abbrev pub offers_delivery : SearchTools → Option String → Asset → Bool
offers_delivery tools none a = true
offers_delivery tools (some method) a = if_given (non_empty method) (λ m.
    any (λ o. same_text (tools.lower_case o) (tools.lower_case (trim m)))
      (normalize_delivery_options a.delivery_options))

abbrev pub is_within : ℕ → Option ℕ → Bool
is_within radius none = false
is_within radius (some d) = leb d radius

-- The test of `filterSearchAssets`.
unfoldable pub is_kept : SearchTools → SearchAssetsQueryDto → EnrichedSearchAsset → Bool
is_kept tools q x =
    offers_delivery tools q.delivery_method x.asset
    && (if_given q.min_rating (λ m. leb m x.owner_average_rating)
        && if_given q.radius_km (λ radius. is_within radius x.distance_km))

-- The sign of a comparison; `a || b` of two numbers is `b` if `a` is 0.
abbrev pub or_then : Ordering → Ordering → Ordering
or_then Ordering.eq o = o
or_then o _ = o

-- compareNewest
abbrev pub compare_newest : EnrichedSearchAsset → EnrichedSearchAsset → Ordering
compare_newest x y = compare y.created_at x.created_at

-- compareNearest
abbrev pub compare_nearest : EnrichedSearchAsset → EnrichedSearchAsset → Ordering
compare_nearest x y = elim x.distance_km [
  | none ↦ elim y.distance_km [ none ↦ compare_newest x y | some d ↦ Ordering.gt ]
  | some c ↦ elim y.distance_km [
    | none ↦ Ordering.lt
    | some d ↦ or_then (compare c d) (compare_newest x y)
  ]
]

-- The callback of `sortSearchAssets`.
unfoldable pub compare_by : Option AssetSort → EnrichedSearchAsset → EnrichedSearchAsset → Ordering
compare_by (some AssetSort.lowest_price) x y =
    or_then (compare x.price_per_day y.price_per_day) (compare_newest x y)
compare_by (some AssetSort.highest_price) x y =
    or_then (compare y.price_per_day x.price_per_day) (compare_newest x y)
compare_by (some AssetSort.highest_rating) x y =
    or_then (compare y.owner_average_rating x.owner_average_rating) (compare_newest x y)
compare_by (some AssetSort.most_rented) x y =
    or_then (compare y.completed_rental_count x.completed_rental_count) (compare_newest x y)
compare_by (some AssetSort.nearest) x y = compare_nearest x y
compare_by _ x y = compare_newest x y

module _ {A : Type 0} where
  -- `items.slice(skip, skip + limit)`, `skip` and `take`
  abbrev pub take : ℕ → List A → List A
  take zero xs = []
  take (suc n) [] = []
  take (suc n) (x ∷ xs) = x ∷ take n xs

  abbrev pub drop : ℕ → List A → List A
  drop zero xs = xs
  drop (suc n) [] = []
  drop (suc n) (x ∷ xs) = drop n xs

-- buildDatabaseSearchOrder
unfoldable pub compare_rows : Option AssetSort → Asset → Asset → Ordering
compare_rows (some AssetSort.lowest_price) a b =
    or_then (compare a.price_per_day b.price_per_day) (compare b.created_at a.created_at)
compare_rows (some AssetSort.highest_price) a b =
    or_then (compare b.price_per_day a.price_per_day) (compare b.created_at a.created_at)
compare_rows _ a b = compare b.created_at a.created_at

abbrev pub is_advanced_sort : Option AssetSort → Bool
is_advanced_sort (some AssetSort.nearest) = true
is_advanced_sort (some AssetSort.highest_rating) = true
is_advanced_sort (some AssetSort.most_rented) = true
is_advanced_sort _ = false

abbrev pub is_text_given : Option String → Bool
is_text_given none = false
is_text_given (some s) = is_some (non_empty s)

-- requiresAdvancedRanking
abbrev pub requires_advanced_ranking : SearchAssetsQueryDto → Bool
requires_advanced_ranking q =
    is_text_given q.delivery_method
    || (is_some q.min_rating || (is_some q.radius_km || is_advanced_sort q.sort))
