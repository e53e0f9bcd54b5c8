-- ===== src/Reports/Tests.antt =====
-- Runs of ReportsService, and its theorems at concrete inputs.
use borrow_hub.Common.{String, ◌≡◌, refl, none, some, [], ◌∷◌, map, Option, find}
use borrow_hub.Common.Text.{trim}
use borrow_hub.Schema.{AssetStatus, ReportStatus, ReportTargetType, Asset, Report, Database}
use borrow_hub.Rentals.Tests.Fixture.{env, moderator, asset, db}
use borrow_hub.Assets.Guards.{has_asset_id, is_listing_staff}
use borrow_hub.Assets.Listing.{moderate_asset, set_asset_status}
use borrow_hub.Reports.Guards.{is_report_manager, find_accessible_report}
use borrow_hub.Reports.Moderation.{
  ReportModerationAction, apply_moderation_action, hide_reported_asset,
}
use borrow_hub.Reports.Service.{UpdateReportStatusDto, update_report_status, decide_report}
use borrow_hub.Reports.Revival.{hide_then_moderate}

abbrev report : Report
report = record {
  id = 60;
  reporter_id = 2;
  target_type = ReportTargetType.asset;
  target_id = 7;
  reason = "Fake";
  description = "It is no drill";
  status = ReportStatus.opened;
  assigned_to_id = none;
  resolution_summary = none;
  resolved_at = none;
}

-- The asset has been removed by its owner.
abbrev removed : Asset
removed = record asset { status = AssetStatus.archived }

abbrev reported : Database
reported = record db { assets = removed ∷ []; reports = report ∷ [] }

abbrev verdict : UpdateReportStatusDto
verdict = record {
  status = ReportStatus.resolved;
  action = some ReportModerationAction.hide_asset;
  resolution_summary = some "Confirmed";
}

abbrev summary : Report → ReportStatus × Option String
summary r = (r.status, r.resolution_summary)

verdict_run :
    map summary (update_report_status env moderator 60 verdict reported).1.reports
    ≡ (ReportStatus.resolved, some "Confirmed\nBiện pháp xử lý: Ẩn bài đăng: c-7") ∷ []
unfolding update_report_status find_accessible_report is_report_manager apply_moderation_action
    hide_reported_asset decide_report trim
verdict_run = refl

hide_then_moderate_example :
    let after = (update_report_status env moderator 60 verdict reported).1 in
    (find (has_asset_id 7) after.assets ≡ some (set_asset_status AssetStatus.suspended removed))
    × (find (has_asset_id 7) (moderate_asset moderator 7 AssetStatus.active after).1.assets
        ≡ some (set_asset_status AssetStatus.active removed))
unfolding is_report_manager is_listing_staff
hide_then_moderate_example =
    hide_then_moderate env moderator 60 verdict report removed reported moderator refl refl refl
      refl refl refl refl refl refl
