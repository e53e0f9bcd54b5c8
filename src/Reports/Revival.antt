-- ===== src/Reports/Revival.antt =====
-- A report brings a removed listing back.
use borrow_hub.Common.{
  ℕ, String, true, ◌≡◌, refl, Option, some, List, [], ◌∷◌, arith, find, update_first,
}
use borrow_hub.Common.Rows.{find-own_key}
use borrow_hub.Schema.{
  AssetStatus, ReportStatus, ReportTargetType, Asset, Report, Database, AuthenticatedUser, Env,
}
use borrow_hub.Store.{ok}
use borrow_hub.Assets.Guards.{has_asset_id, is_listing_staff}
use borrow_hub.Assets.Listing.{moderate_asset, set_asset_status}
use borrow_hub.Support.Guards.{has_report_id}
use borrow_hub.Reports.Guards.{can_access_report, is_report_manager, find_accessible_report}
use borrow_hub.Reports.Moderation.{
  ReportModerationAction, hide_reported_asset, apply_moderation_action,
}
use borrow_hub.Reports.Service.{
  UpdateReportStatusDto, update_report_status, decide_report, has_text,
}

find-set_status :
    (id : ℕ) (status : AssetStatus) (xs : List Asset) (a : Asset)
    → find (has_asset_id id) xs ≡ some a
    → find (has_asset_id id) (update_first (has_asset_id id) (set_asset_status status) xs)
      ≡ some (set_asset_status status a)
find-set_status id status [] a e = cc
find-set_status id status (x ∷ xs) a e = ground (arith, find-set_status id status xs a)

module _ (env : Env) (u : AuthenticatedUser) (r : Report) (a : Asset) (db : Database) where
  -- The answer of the action on a listing that is archived, and the listing after it.
  hide_archived :
      r.target_type ≡ ReportTargetType.asset
      → find (has_asset_id r.target_id) db.assets ≡ some a
      → a.status ≡ AssetStatus.archived
      → (text : String) × ((hide_reported_asset env u r db).0 ≡ ok text)
        × (find (has_asset_id a.id) (hide_reported_asset env u r db).1.assets
            ≡ some (set_asset_status AssetStatus.suspended a))
        × ((hide_reported_asset env u r db).1.reports ≡ db.reports)
  unfolding hide_reported_asset
  hide_archived asset found archived =
      let self = find-own_key (λ (x : Asset). x.id) r.target_id db.assets a found in
      rw (asset, found, archived, self)
        ((_, refl, find-set_status a.id AssetStatus.suspended db.assets a self, refl))

decide-assets :
    (env : Env) (u : AuthenticatedUser) (dto : UpdateReportStatusDto) (r : Report)
    (summary : Option String) (db : Database)
    → (decide_report env u dto r summary db).1.assets ≡ db.assets
unfolding decide_report
decide-assets env u dto r summary db = ground arith

-- A moderator may set a suspended listing active.
moderate-suspended :
    (m : AuthenticatedUser) (a : Asset) (db : Database)
    → is_listing_staff m ≡ true
    → find (has_asset_id a.id) db.assets ≡ some (set_asset_status AssetStatus.suspended a)
    → find (has_asset_id a.id) (moderate_asset m a.id AssetStatus.active db).1.assets
      ≡ some (set_asset_status AssetStatus.active a)
unfolding moderate_asset
moderate-suspended m a db staff found =
    rw (staff, found, found)
      (find-set_status a.id AssetStatus.active db.assets (set_asset_status AssetStatus.suspended a)
        found)

manager_finds :
    (id : ℕ) (u : AuthenticatedUser) (r : Report) (db : Database)
    → is_report_manager u ≡ true
    → find (has_report_id id) db.reports ≡ some r
    → find_accessible_report id u db ≡ (ok r, db)
unfolding find_accessible_report
manager_finds id u r db manager found =
    let may : can_access_report r u ≡ true = grind (arith, manager) in rw (found, may) refl

module _ (env : Env) (u : AuthenticatedUser) (id : ℕ) (dto : UpdateReportStatusDto) (r : Report)
    (a : Asset) (db : Database) where
  hide-suspends :
      is_report_manager u ≡ true
      → find (has_report_id id) db.reports ≡ some r
      → r.target_type ≡ ReportTargetType.asset
      → find (has_asset_id r.target_id) db.assets ≡ some a
      → a.status ≡ AssetStatus.archived
      → dto.status ≡ ReportStatus.resolved
      → dto.action ≡ some ReportModerationAction.hide_asset
      → has_text dto.resolution_summary ≡ true
      → find (has_asset_id a.id) (update_report_status env u id dto db).1.assets
        ≡ some (set_asset_status AssetStatus.suspended a)
  unfolding update_report_status apply_moderation_action
  hide-suspends manager reported asset found archived resolved action told =
      let (text, fine, suspended, reports) = hide_archived env u r a db asset found archived in
      let next = (hide_reported_asset env u r db).1 in
      rw (manager, manager_finds id u r db manager reported, resolved, told, action, fine)
        (rw (decide-assets env u _ r (some text) next) suspended)

  -- A listing that is archived, which AssetsService never changes again, becomes suspended when a
  -- report of it is resolved with HIDE_ASSET, and a moderator can then publish it.
  pub hide_then_moderate :
      (m : AuthenticatedUser)
      → is_report_manager u ≡ true
      → find (has_report_id id) db.reports ≡ some r
      → r.target_type ≡ ReportTargetType.asset
      → find (has_asset_id r.target_id) db.assets ≡ some a
      → a.status ≡ AssetStatus.archived
      → dto.status ≡ ReportStatus.resolved
      → dto.action ≡ some ReportModerationAction.hide_asset
      → has_text dto.resolution_summary ≡ true
      → is_listing_staff m ≡ true
      → let after = (update_report_status env u id dto db).1 in
        (find (has_asset_id a.id) after.assets ≡ some (set_asset_status AssetStatus.suspended a))
        × (find (has_asset_id a.id) (moderate_asset m a.id AssetStatus.active after).1.assets
            ≡ some (set_asset_status AssetStatus.active a))
  hide_then_moderate m manager reported asset found archived resolved action told staff =
      let suspended = hide-suspends manager reported asset found archived resolved action told in
      (suspended, moderate-suspended m a (update_report_status env u id dto db).1 staff suspended)
