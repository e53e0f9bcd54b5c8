-- ===== src/Assets/Requests.antt =====
-- The requests of AssetsController that change a listing, and their dispatch; the guard of roles of
-- `moderate` asks what the service asks again. apps/api/src/assets/assets.controller.ts
use borrow_hub.Common.{ℕ, String, Option, List, [], ◌∷◌}
use borrow_hub.Schema.{AssetStatus, Asset, Database, AuthenticatedUser, Env}
use borrow_hub.Store.{Action}
use borrow_hub.Assets.Forms.{CreateAssetDto, UpdateAssetDto}
use borrow_hub.Assets.Listing.{create_asset, update_asset, remove_asset, moderate_asset}

pub data AssetRequest : Type 0 where
  create : CreateAssetDto → AssetRequest
  update : (asset_id : ℕ) → UpdateAssetDto → AssetRequest
  remove : (asset_id : ℕ) → (reason : Option String) → AssetRequest
  moderate : (asset_id : ℕ) → AssetStatus → AssetRequest

unfoldable pub serve_listing : Env → AuthenticatedUser → AssetRequest → Action Asset
serve_listing env u (AssetRequest.create dto) = create_asset env u dto
serve_listing env u (AssetRequest.update id dto) = update_asset u id dto
serve_listing env u (AssetRequest.remove id reason) = remove_asset u id reason
serve_listing env u (AssetRequest.moderate id status) = moderate_asset u id status

pub record AssetCall : Type 0 where
  pub env : Env
  pub user : AuthenticatedUser
  pub request : AssetRequest

-- The database after a sequence of requests, each run to its end before the next.
unfoldable pub serve_listings : List AssetCall → Database → Database
serve_listings [] db = db
serve_listings (c ∷ cs) db = serve_listings cs (serve_listing c.env c.user c.request db).1
