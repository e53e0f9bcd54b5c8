-- ===== src/Assets/Pages.antt =====
-- The pages of a search are its results, each once and in order.
use mathlib.Core.List.{Perm}
use mathlib.Core.List.Perm
use borrow_hub.Common.{ℕ, zero, suc, Bool, true, false, Option, List, [], ◌++◌, map, filter}
use borrow_hub.Schema.{Database, AuthenticatedUser}
use borrow_hub.Assets.Query.{SearchTools, SearchAssetsQueryDto, is_match}
use borrow_hub.Assets.Ranking.{EnrichedSearchAsset, enrich, is_kept}
use borrow_hub.Assets.Search.{ranked_results, database_results}

module _ {A : Type 0} where
  -- The pages 1 to `n`, one after the other.
  abbrev pub pages_to : (ℕ → List A) → ℕ → List A
  pages_to page zero = []
  pages_to page (suc n) = pages_to page n ++ page (suc n)

module _ (tools : SearchTools) (visitor : Option AuthenticatedUser) (q : SearchAssetsQueryDto)
    (db : Database) where
  -- The listings that pass the `where` clause and, if the results are ranked in memory, the filters.
  abbrev pub found_items : Bool → List EnrichedSearchAsset
  found_items true =
      filter (is_kept tools q)
        (map (enrich tools db visitor q) (filter (is_match tools visitor q db) db.assets))
  found_items false =
      map (enrich tools db visitor q) (filter (is_match tools visitor q db) db.assets)

  -- All results of the query for the first page.
  abbrev pub all_items : Bool → List EnrichedSearchAsset
  all_items true = ranked_results tools visitor q 1 db
  all_items false = map (enrich tools db visitor q) (database_results tools visitor q 1 db)
