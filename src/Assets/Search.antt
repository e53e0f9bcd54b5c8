-- ===== src/Assets/Search.antt =====
-- AssetsService: search, getById and listMine. The mark of a favourite asset is left out.
use borrow_hub.Common.{
  ℕ, Bool, true, false, not, ◌||◌, ◌&&◌, ◌+◌, ◌-◌, ◌*◌, ◌/◌, Option, none, some, List, ◌==◌, filter,
  map, length, or_else,
}
use borrow_hub.Common.Sort.{sort_items}
use borrow_hub.Schema.{AnalyticsEventType, Asset, Database, Reference, Effect, AuthenticatedUser}
use borrow_hub.Store.{Exception, Action, ◌>>=◌, ◌>>◌, pure, gets, require, or_raise, emit}
use borrow_hub.Rentals.Booking.{is_active}
use borrow_hub.Assets.Guards.{is_locked, find_asset}
use borrow_hub.Assets.Query.{SearchTools, SearchAssetsQueryDto, assert_search_query, is_match}
use borrow_hub.Assets.Ranking.{
  EnrichedSearchAsset, sanitize_location_fields, sees_private, enrich, is_kept, compare_by,
  compare_rows, take, drop, requires_advanced_ranking,
}

-- MAX_ADVANCED_SEARCH_CANDIDATES
abbrev pub max_advanced_search_candidates : ℕ
max_advanced_search_candidates = 2000

-- The rows that pass the `where` clause.
abbrev pub matching :
    SearchTools → Option AuthenticatedUser → SearchAssetsQueryDto → Database → List Asset
matching tools visitor q db = filter (is_match tools visitor q db) db.assets

-- All results of a search for a page, in order, before the cut into pages: those that are ranked in
-- memory, and those that the database ranks.
unfoldable pub ranked_results :
    SearchTools
    → Option AuthenticatedUser
    → SearchAssetsQueryDto
    → (page : ℕ) → Database
    → List EnrichedSearchAsset
ranked_results tools visitor q page db = sort_items (compare_by q.sort) (
    filter (is_kept tools q) (
      map (enrich tools db visitor q) (
        take max_advanced_search_candidates
          (sort_items (compare_rows none) (tools.read_order page (matching tools visitor q db))))))

unfoldable pub database_results :
    SearchTools
    → Option AuthenticatedUser
    → SearchAssetsQueryDto
    → (page : ℕ) → Database
    → List Asset
database_results tools visitor q page db =
    sort_items (compare_rows q.sort) (tools.read_order page (matching tools visitor q db))

pub record SearchPage : Type 0 where
  pub items : List EnrichedSearchAsset
  pub page : ℕ
  pub limit : ℕ
  pub total : ℕ
  pub total_pages : ℕ

abbrev pub page_of : {A : Type 0} → (page limit : ℕ) → List A → List A
page_of page limit xs = take limit (drop ((page - 1) * limit) xs)

-- `Math.ceil(total / limit)`, for a limit from 1
abbrev pub ceil_pages : (total limit : ℕ) → ℕ
ceil_pages total limit = (total + (limit - 1)) / limit

-- The two ways to get the items of a page and the number of all results.
abbrev pub results_if :
    (requires_advanced_ranking : Bool)
    → SearchTools
    → Option AuthenticatedUser
    → SearchAssetsQueryDto
    → (page limit : ℕ) → Database
    → List EnrichedSearchAsset × ℕ
results_if true tools visitor q page limit db =
    let results = ranked_results tools visitor q page db in
    (page_of page limit results, length results)
results_if false tools visitor q page limit db =
    let rows = database_results tools visitor q page db in
    (
      map (enrich tools db visitor q) (page_of page limit rows),
      length (matching tools visitor q db),
    )

-- `@Min(1)` holds of the page and the limit.
unfoldable pub search_results :
    SearchTools
    → Option AuthenticatedUser
    → SearchAssetsQueryDto
    → (page limit : ℕ) → Database
    → List EnrichedSearchAsset × ℕ
search_results tools visitor q page limit db =
    results_if (requires_advanced_ranking q) tools visitor q page limit db

abbrev pub visitor_id : Option AuthenticatedUser → Option ℕ
visitor_id none = none
visitor_id (some u) = some u.id

unfoldable pub search :
    SearchTools → Option AuthenticatedUser → SearchAssetsQueryDto → Action SearchPage
search tools visitor q = do
  let page = or_else q.page 1
  let limit = or_else q.limit 20
  assert_search_query q
  found ← gets (search_results tools visitor q page limit)
  emit (Effect.track_visit AnalyticsEventType.search_performed (visitor_id visitor) none)
  pure (record {
    items = found.0;
    page = page;
    limit = limit;
    total = found.1;
    total_pages = ceil_pages found.1 limit;
  })

unfoldable pub get_by_id : (asset_id : ℕ) → Option AuthenticatedUser → Action Asset
get_by_id id visitor = do
  found ← gets (find_asset id)
  a ← or_raise found (Exception.not_found "Asset not found")
  require (is_active a.status || sees_private a visitor) (Exception.not_found "Asset not found")
  emit (
      Effect.track_visit AnalyticsEventType.listing_viewed (visitor_id visitor)
        (some (Reference.asset a.id)))
  pure (sanitize_location_fields a visitor)

unfoldable pub list_my_assets : AuthenticatedUser → Action (List Asset)
list_my_assets u = gets (λ db.
    sort_items (compare_rows none)
      (filter (λ a. a.owner_id == u.id && not (is_locked a.status)) db.assets))
