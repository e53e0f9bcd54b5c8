-- ===== src/Reports/Guards.antt =====
-- ReportsService: who may see and manage a report, and what a report is about.
use borrow_hub.Common.{ℕ, Bool, true, false, ◌||◌, Option, none, some, ◌==◌, any, find}
use borrow_hub.Schema.{
  RoleName, ReportStatus, ReportTargetType, UserRow, Review, Message, Report, Database,
  AuthenticatedUser,
}
use borrow_hub.Store.{
  Exception, Action, ◌>>=◌, ◌>>◌, pure, raise, gets, require, or_raise, has_user_id,
}
use borrow_hub.Disputes.Guards.{is_assigned_to}
use borrow_hub.Reviews.Service.{has_review_id}
use borrow_hub.Assets.Guards.{find_asset}
use borrow_hub.Support.Guards.{has_report_id}

-- TERMINAL_REPORT_STATUSES
abbrev pub is_terminal_report_status : ReportStatus → Bool
is_terminal_report_status ReportStatus.resolved = true
is_terminal_report_status ReportStatus.rejected = true
is_terminal_report_status ReportStatus.closed = true
is_terminal_report_status _ = false

-- reportManagerRoles
abbrev pub is_report_manager_role : RoleName → Bool
is_report_manager_role RoleName.moderator = true
is_report_manager_role RoleName.customer_support = true
is_report_manager_role RoleName.admin = true
is_report_manager_role RoleName.super_admin = true
is_report_manager_role _ = false

-- isStaff and the test of assertReportManager. Shut in the proofs: they only need that it is some
-- test of the user.
unfoldable pub is_report_manager : AuthenticatedUser → Bool
is_report_manager u = any is_report_manager_role u.roles

-- assertReportManager
abbrev pub assert_report_manager : AuthenticatedUser → Action (Unit {0})
assert_report_manager u =
    require (is_report_manager u) (Exception.forbidden "Only staff can manage reports")

abbrev pub can_access_report : Report → AuthenticatedUser → Bool
can_access_report r u =
    r.reporter_id == u.id || (is_assigned_to u.id r.assigned_to_id || is_report_manager u)

abbrev pub report_if : Bool → Report → Action Report
report_if true r = pure r
report_if false r = raise (Exception.forbidden "You cannot access this report")

-- findAccessibleReport
unfoldable pub find_accessible_report : (report_id : ℕ) → AuthenticatedUser → Action Report
find_accessible_report id u = do
  found ← gets (λ db. find (has_report_id id) db.reports)
  r ← or_raise found (Exception.not_found "Report not found")
  report_if (can_access_report r u) r

abbrev pub has_message_id : ℕ → Message → Bool
has_message_id id m = m.id == id

abbrev pub find_user : ℕ → Database → Option UserRow
find_user id db = find (has_user_id id) db.users

abbrev pub find_review : ℕ → Database → Option Review
find_review id db = find (has_review_id id) db.reviews

abbrev pub find_message : ℕ → Database → Option Message
find_message id db = find (has_message_id id) db.messages

-- ensureTargetExists
unfoldable pub ensure_target_exists : ReportTargetType → (target_id : ℕ) → Action (Unit {0})
ensure_target_exists ReportTargetType.user id = do
  found ← gets (find_user id)
  or_raise found (Exception.not_found "Target user not found")
  pure tt
ensure_target_exists ReportTargetType.asset id = do
  found ← gets (find_asset id)
  or_raise found (Exception.not_found "Target asset not found")
  pure tt
ensure_target_exists ReportTargetType.review id = do
  found ← gets (find_review id)
  or_raise found (Exception.not_found "Target review not found")
  pure tt
ensure_target_exists ReportTargetType.chat_message id = do
  found ← gets (find_message id)
  or_raise found (Exception.not_found "Target chat message not found")
  pure tt

-- A relation of a row that may be missing.
abbrev pub related_user : {A : Type 0} → (A → ℕ) → Option A → Database → Option UserRow
related_user user_id none db = none
related_user user_id (some a) db = find_user (user_id a) db

-- The user that a target belongs to.
abbrev pub reported_user : ReportTargetType → (target_id : ℕ) → Database → Option UserRow
reported_user ReportTargetType.user id db = find_user id db
reported_user ReportTargetType.asset id db = related_user (λ a. a.owner_id) (find_asset id db) db
reported_user ReportTargetType.review id db =
    related_user (λ v. v.reviewer_id) (find_review id db) db
reported_user ReportTargetType.chat_message id db =
    related_user (λ m. m.sender_id) (find_message id db) db

abbrev pub missing_user : ReportTargetType → Exception
missing_user ReportTargetType.user = Exception.not_found "Target user not found"
missing_user ReportTargetType.asset = Exception.not_found "Target asset owner not found"
missing_user ReportTargetType.review = Exception.not_found "Target review author not found"
missing_user ReportTargetType.chat_message = Exception.not_found "Target message sender not found"

-- resolveReportedUser
unfoldable pub resolve_reported_user : Report → Action UserRow
resolve_reported_user r = do
  found ← gets (reported_user r.target_type r.target_id)
  or_raise found (missing_user r.target_type)
