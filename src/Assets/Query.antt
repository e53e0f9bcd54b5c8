-- ===== src/Assets/Query.antt =====
-- AssetsService.search: the query, its checks, and the `where` clause. Prices are whole units,
-- ratings and distances are counts of some fixed fraction. What the code asks of the database's text
-- search, of `_avg`, of `Math` and of the texts of the language is in `SearchTools`.
use text.Mathlib.Text.{◌==◌ as same_text}
use borrow_hub.Common.{
  ℕ, String, Bool, true, false, not, ◌&&◌, ◌||◌, Option, none, some, List, ltb, leb, ◌==◌, any,
  filter, is_some,
}
use borrow_hub.Common.Int.{ℤ}
use borrow_hub.Common.Text.{non_empty}
use borrow_hub.Schema.{
  AssetStatus, AssetCondition, RentalStatus, Asset, AssetAvailability, Rental, Database,
  AuthenticatedUser,
}
use borrow_hub.Store.{Exception, Action, ◌>>◌, require}
use borrow_hub.Rentals.Booking.{is_active, is_blocked}
use borrow_hub.Assets.Guards.{is_listing_staff, is_archived, is_locked}

pub record SearchTools : Type 0 where
  -- `contains` with `mode: 'insensitive'`, of a text and a keyword
  pub contains_insensitive : String → String → Bool
  pub lower_case : String → String
  -- `_avg` of ratings, with two decimals
  pub average : List ℕ → ℕ
  -- the formula of `calculateDistanceKm` on two places
  pub distance : (from_latitude from_longitude to_latitude to_longitude : ℤ) → ℕ
  -- the order in which the database takes up the rows of the query for a page: where `orderBy` makes
  -- two rows equal, they come in this order
  pub read_order : (page : ℕ) → List Asset → List Asset

-- ASSET_SORT_OPTIONS
pub data AssetSort : Type 0 where
  newest lowest_price highest_price nearest highest_rating most_rented : AssetSort

-- A date of the query: missing, a text that is no date, or a time.
pub data QueryDate : Type 0 where
  missing invalid : QueryDate
  at : ℕ → QueryDate

pub record SearchAssetsQueryDto : Type 0 where
  pub keyword : Option String
  pub category_id : Option ℕ
  pub city : Option String
  pub district : Option String
  pub min_price : Option ℕ
  pub max_price : Option ℕ
  pub condition : Option AssetCondition
  pub delivery_method : Option String
  pub min_rating : Option ℕ
  pub latitude : Option ℤ
  pub longitude : Option ℤ
  pub radius_km : Option ℕ
  pub status : Option AssetStatus
  pub include_all_statuses : Bool
  pub hide_removed : Bool
  pub start_at : QueryDate
  pub end_at : QueryDate
  pub sort : Option AssetSort
  pub page : Option ℕ
  pub limit : Option ℕ

abbrev pub is_date_given : QueryDate → Bool
is_date_given QueryDate.missing = false
is_date_given _ = true

abbrev pub is_invalid : QueryDate → Bool
is_invalid QueryDate.invalid = true
is_invalid _ = false

abbrev pub is_ordered : (start_at end_at : QueryDate) → Bool
is_ordered (QueryDate.at s) (QueryDate.at e) = ltb s e
is_ordered _ _ = true

abbrev pub is_nearest : Option AssetSort → Bool
is_nearest (some AssetSort.nearest) = true
is_nearest _ = false

abbrev pub iff : Bool → Bool → Bool
iff true b = b
iff false b = not b

-- assertSearchQuery
unfoldable pub assert_search_query : SearchAssetsQueryDto → Action (Unit {0})
assert_search_query q = do
  require (iff (is_date_given q.start_at) (is_date_given q.end_at))
      (Exception.bad_request "startAt and endAt must be provided together")
  require (not (is_invalid q.start_at || is_invalid q.end_at))
      (Exception.bad_request "Invalid search date range")
  require (is_ordered q.start_at q.end_at)
      (Exception.bad_request "Search start time must be before end time")
  require (iff (is_some q.latitude) (is_some q.longitude))
      (Exception.bad_request "latitude and longitude must be provided together")
  require (not (is_some q.radius_km || is_nearest q.sort) || is_some q.latitude)
      (Exception.bad_request "latitude and longitude are required for distance-based search")

abbrev pub status_index : AssetStatus → ℕ
status_index AssetStatus.draft = 0
status_index AssetStatus.pending_review = 1
status_index AssetStatus.active = 2
status_index AssetStatus.paused = 3
status_index AssetStatus.rejected = 4
status_index AssetStatus.suspended = 5
status_index AssetStatus.archived = 6

abbrev pub condition_index : AssetCondition → ℕ
condition_index AssetCondition.new = 0
condition_index AssetCondition.like_new = 1
condition_index AssetCondition.good = 2
condition_index AssetCondition.fair = 3
condition_index AssetCondition.worn = 4

-- A field of a `where` clause that is `undefined` asks for nothing.
abbrev pub if_given {ℓ} : {A : Type ℓ} → Option A → (A → Bool) → Bool
if_given none p = true
if_given (some a) p = p a

-- `staffUser`
abbrev pub is_staff_visitor : Option AuthenticatedUser → Bool
is_staff_visitor none = false
is_staff_visitor (some u) = is_listing_staff u

-- The statuses that staff asks for.
abbrev pub matches_staff_status : SearchAssetsQueryDto → AssetStatus → Bool
matches_staff_status q s = elim q.status [
  | some t ↦ status_index s == status_index t
  | none ↦ elim (q.hide_removed || q.include_all_statuses) [
    | true ↦ not (is_locked s)
    | false ↦ is_active s
  ]
]

abbrev pub matches_status : Option AuthenticatedUser → SearchAssetsQueryDto → AssetStatus → Bool
matches_status visitor q s = elim (is_staff_visitor visitor) [
  | true ↦ matches_staff_status q s
  | false ↦ is_active s
]

abbrev pub mentions : SearchTools → String → Option String → Bool
mentions tools keyword none = false
mentions tools keyword (some text) = tools.contains_insensitive text keyword

abbrev pub matches_keyword : SearchTools → Option String → Asset → Bool
matches_keyword tools none a = true
matches_keyword tools (some keyword) a = if_given (non_empty keyword) (λ k.
    tools.contains_insensitive a.title k
    || (tools.contains_insensitive a.description k
        || (mentions tools k a.brand || mentions tools k a.model)))

-- The statuses of the bookings that hide a listing from a search for dates.
abbrev pub hides_listing : RentalStatus → Bool
hides_listing RentalStatus.confirmed = true
hides_listing RentalStatus.ready_for_handover = true
hides_listing RentalStatus.ongoing = true
hides_listing RentalStatus.return_pending = true
hides_listing RentalStatus.overdue = true
hides_listing _ = false

abbrev pub is_booked_in : (asset_id start_at end_at : ℕ) → Rental → Bool
is_booked_in asset_id start_at end_at r =
    r.asset_id == asset_id
    && (hides_listing r.status && (ltb r.start_at end_at && ltb start_at r.end_at))

-- The windows of the asset, for its relation `availability`.
abbrev pub windows_of : (asset_id : ℕ) → Database → List AssetAvailability
windows_of asset_id db = filter (λ w. w.asset_id == asset_id) db.availability

-- buildAvailabilityDateRangeFilter
unfoldable pub is_open_for : (start_at end_at : ℕ) → List AssetAvailability → Bool
is_open_for s e ws =
    not (any (λ w. is_blocked w.availability_type && (ltb w.start_at e && ltb s w.end_at)) ws)
    && (not (any (λ w. not (is_blocked w.availability_type)) ws)
        || any (λ w. not (is_blocked w.availability_type) && (leb w.start_at s && leb e w.end_at))
            ws)

abbrev pub matches_dates : QueryDate → QueryDate → Database → Asset → Bool
matches_dates (QueryDate.at s) (QueryDate.at e) db a =
    not (any (is_booked_in a.id s e) db.rentals) && is_open_for s e (windows_of a.id db)
matches_dates _ _ db a = true

-- `where`
unfoldable pub is_match :
    SearchTools → Option AuthenticatedUser → SearchAssetsQueryDto → Database → Asset → Bool
is_match tools visitor q db a =
    not (is_archived a.status)
    && (matches_status visitor q a.status
        && (if_given q.category_id (λ c. a.category_id == c)
            && (if_given q.city (same_text a.city)
                && (if_given q.district (same_text a.district)
                    && (if_given q.condition (λ c. condition_index a.condition == condition_index c)
                        && (if_given q.min_price (λ p. leb p a.price_per_day)
                            && (if_given q.max_price (λ p. leb a.price_per_day p)
                                && (matches_keyword tools q.keyword a
                                    && matches_dates q.start_at q.end_at db a))))))))
