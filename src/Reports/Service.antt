-- ===== src/Reports/Service.antt =====
-- ReportsService: create, assign and updateStatus.
use Prim.Native.String.{◌++◌ as append}
use borrow_hub.Common.{
  ℕ, String, Bool, true, false, not, ◌||◌, Option, none, some, [], ◌∷◌, ◌++◌, ◌==◌, if◌then◌else◌,
  any, filter, find, update_first, is_some, first_some, or_else,
}
use borrow_hub.Common.Text.{trim, non_empty}
use borrow_hub.Schema.{
  ReportStatus, ReportTargetType, NotificationType, Report, Reference, Effect, AuthenticatedUser,
  Env,
}
use borrow_hub.Store.{
  Exception, ok, err, Action, ◌>>=◌, ◌>>◌, pure, gets, require, or_raise, emit, has_user_id,
}
use borrow_hub.Disputes.Guards.{some_id}
use borrow_hub.Support.Guards.{has_report_id}
use borrow_hub.Reports.Guards.{
  is_terminal_report_status, is_report_manager_role, assert_report_manager, find_accessible_report,
  ensure_target_exists,
}
use borrow_hub.Reports.Moderation.{ReportModerationAction, other_than, apply_moderation_action}

pub record CreateReportDto : Type 0 where
  pub target_type : ReportTargetType
  pub target_id : ℕ
  pub reason : String
  pub description : String

pub record UpdateReportStatusDto : Type 0 where
  pub status : ReportStatus
  pub action : Option ReportModerationAction
  pub resolution_summary : Option String

abbrev pub new_report : Env → AuthenticatedUser → CreateReportDto → Report
new_report env u dto = record {
  id = env.new_id 0;
  reporter_id = u.id;
  target_type = dto.target_type;
  target_id = dto.target_id;
  reason = dto.reason;
  description = dto.description;
  status = ReportStatus.opened;
  assigned_to_id = none;
  resolution_summary = none;
  resolved_at = none;
}

-- `report.create`
abbrev pub insert_report : Report → Action Report
insert_report r db =
    if any (has_report_id r.id) db.reports
    then (err Exception.unique_violation, db)
    else (ok r, record db { reports = db.reports ++ r ∷ [] })

unfoldable pub create_report : Env → AuthenticatedUser → CreateReportDto → Action Report
create_report env u dto = do
  ensure_target_exists dto.target_type dto.target_id
  r ← insert_report (new_report env u dto)
  emit (Effect.audit (some u.id) "report.create" (Reference.report r.id))
  pure r

-- `report.update({ where: { id } })`
abbrev pub change_found_report : ℕ → (Report → Report) → Option Report → Action Report
change_found_report id f none db = (err Exception.record_missing, db)
change_found_report id f (some r) db =
    (ok (f r), record db { reports = update_first (has_report_id id) f db.reports })

abbrev pub change_report : ℕ → (Report → Report) → Action Report
change_report id f db = change_found_report id f (find (has_report_id id) db.reports) db

-- The check of the assignee in `assign`.
unfoldable pub ensure_report_assignee : Option ℕ → Action (Unit {0})
ensure_report_assignee none = pure tt
ensure_report_assignee (some user_id) = do
  found ← gets (λ db. find (has_user_id user_id) db.users)
  assignee ← or_raise found (Exception.not_found "Assignee not found")
  require (any is_report_manager_role assignee.roles)
      (Exception.bad_request "Assignee must be a staff account")

abbrev pub report_status_after_assignment : ReportStatus → ReportStatus
report_status_after_assignment ReportStatus.opened = ReportStatus.under_review
report_status_after_assignment status = status

-- The data of the update in `assign`; `status` is of the row that was read first.
abbrev pub assigned_report : (assigned_to_id : Option ℕ) → ReportStatus → Report → Report
assigned_report assigned_to_id status r = record r {
  assigned_to_id = assigned_to_id;
  status = report_status_after_assignment status;
}

unfoldable pub assign_report :
    AuthenticatedUser → (report_id : ℕ) → (assigned_to_id : Option ℕ) → Action Report
assign_report u id assigned_to_id = do
  assert_report_manager u
  r ← find_accessible_report id u
  ensure_report_assignee assigned_to_id
  updated ← change_report r.id (assigned_report assigned_to_id r.status)
  emit (Effect.audit (some u.id) "report.assign" (Reference.report updated.id))
  emit (
      Effect.notify (filter (λ i. not (i == u.id)) (r.reporter_id ∷ some_id updated.assigned_to_id))
        NotificationType.system (Reference.report updated.id))
  pure updated

-- A text that is there and not empty.
abbrev pub has_text : Option String → Bool
has_text none = false
has_text (some s) = is_some (non_empty s)

abbrev pub is_resolved_report : ReportStatus → Bool
is_resolved_report ReportStatus.resolved = true
is_resolved_report _ = false

-- `dto.action && dto.action !== 'NONE'`
abbrev pub is_action : Option ReportModerationAction → Bool
is_action none = false
is_action (some ReportModerationAction.no_action) = false
is_action (some _) = true

-- mergeResolutionSummary. A moderation summary is never empty.
abbrev pub with_moderation : Option String → String → String
with_moderation none moderation = moderation
with_moderation (some summary) moderation = elim (non_empty (trim summary)) [
  | none ↦ moderation
  | some text ↦ append text (append "\nBiện pháp xử lý: " moderation)
]

abbrev pub merge_resolution_summary : Option String → Option String → Option String
merge_resolution_summary summary none = summary
merge_resolution_summary summary (some moderation) = some (with_moderation summary moderation)

abbrev pub report_resolution_time : Env → ReportStatus → Option ℕ
report_resolution_time env status = if is_terminal_report_status status then some env.now else none

-- The data of the update in `updateStatus`; `previous` is of the row that was read first.
abbrev pub decided_report :
    Env → UpdateReportStatusDto → (previous moderation_summary : Option String) → Report → Report
decided_report env dto previous moderation_summary r = record r {
  status = dto.status;
  resolution_summary =
      merge_resolution_summary (first_some dto.resolution_summary previous) moderation_summary;
  resolved_at = report_resolution_time env dto.status;
}

-- The calls after the moderation action of `updateStatus`.
unfoldable pub decide_report :
    Env
    → AuthenticatedUser
    → UpdateReportStatusDto
    → Report
    → (moderation_summary : Option String) → Action Report
decide_report env u dto r moderation_summary = do
  updated ← change_report r.id (decided_report env dto r.resolution_summary moderation_summary)
  emit (Effect.audit (some u.id) "report.status.update" (Reference.report updated.id))
  emit (
      Effect.notify (other_than u r.reporter_id) NotificationType.system
        (Reference.report updated.id))
  pure updated

unfoldable pub update_report_status :
    Env → AuthenticatedUser → (report_id : ℕ) → UpdateReportStatusDto → Action Report
update_report_status env u id dto = do
  assert_report_manager u
  r ← find_accessible_report id u
  require (not (is_terminal_report_status dto.status) || has_text dto.resolution_summary)
      (Exception.bad_request "resolutionSummary is required for terminal report statuses")
  require (not (is_action dto.action) || is_resolved_report dto.status)
      (Exception.bad_request "Moderation action can only be applied when resolving a report")
  moderation_summary ←
      apply_moderation_action env u r (or_else dto.action ReportModerationAction.no_action)
  decide_report env u dto r moderation_summary

pub data ReportRequest : Type 0 where
  create : CreateReportDto → ReportRequest
  assign : (report_id : ℕ) → (assigned_to_id : Option ℕ) → ReportRequest
  update_status : (report_id : ℕ) → UpdateReportStatusDto → ReportRequest

-- The dispatch of ReportsController.
unfoldable pub serve_report : Env → AuthenticatedUser → ReportRequest → Action Report
serve_report env u (ReportRequest.create dto) = create_report env u dto
serve_report env u (ReportRequest.assign id to) = assign_report u id to
serve_report env u (ReportRequest.update_status id dto) = update_report_status env u id dto
