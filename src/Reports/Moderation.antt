-- ===== src/Reports/Moderation.antt =====
-- ReportsService: applyModerationAction. The texts of the notifications, with the note of the staff,
-- are left out.
use Prim.Native.String.{◌++◌ as append}
use borrow_hub.Common.{
  ℕ, String, Bool, true, false, not, ◌||◌, Option, none, some, List, [], ◌∷◌, ◌==◌, if◌then◌else◌,
  any, update_first,
}
use borrow_hub.Schema.{
  UserStatus, AssetStatus, ReviewStatus, ReportTargetType, NotificationType, UserRow, Review,
  Message, Report, Reference, Effect, AuthenticatedUser, Env,
}
use borrow_hub.Store.{
  Exception, ok, err, Action, ◌>>=◌, ◌>>◌, pure, when, gets, require, or_raise, emit, update_user,
}
use borrow_hub.TrustScore.Score.{recalculate_user_trust_score}
use borrow_hub.Reviews.Service.{update_review, moderated}
use borrow_hub.Assets.Guards.{find_asset}
use borrow_hub.Assets.Listing.{change_asset, set_asset_status}
use borrow_hub.Reports.Guards.{has_message_id, find_message, find_review, resolve_reported_user}

-- REPORT_MODERATION_ACTIONS
pub data ReportModerationAction : Type 0 where
  no_action warn_reported_user suspend_reported_user hide_asset : ReportModerationAction
  hide_review hide_chat_message : ReportModerationAction

-- `[userId].filter((userId) => userId !== currentUser.id)`
abbrev pub other_than : AuthenticatedUser → (user_id : ℕ) → List ℕ
other_than u user_id = if user_id == u.id then [] else user_id ∷ []

-- warnReportedUser
unfoldable pub warn_user : Env → AuthenticatedUser → Report → Action String
warn_user env u r = do
  target ← resolve_reported_user r
  emit (Effect.notify (other_than u target.id) NotificationType.system (Reference.report r.id))
  emit (Effect.audit (some u.id) "report.target.user.warn" (Reference.user target.id))
  pure (append "Cảnh báo người dùng: " (env.id_string target.id))

abbrev pub is_gone : UserStatus → Bool
is_gone UserStatus.banned = true
is_gone UserStatus.deleted = true
is_gone _ = false

abbrev pub is_suspended_user : UserStatus → Bool
is_suspended_user UserStatus.suspended = true
is_suspended_user _ = false

abbrev pub set_user_status : UserStatus → UserRow → UserRow
set_user_status status x = record x { status = status }

-- suspendReportedUser: a banned or deleted user keeps the status.
unfoldable pub suspend_user : Env → AuthenticatedUser → Report → Action String
suspend_user env u r = do
  target ← resolve_reported_user r
  when (not (is_gone target.status || is_suspended_user target.status))
      (update_user target.id (set_user_status UserStatus.suspended))
  emit (Effect.notify (other_than u target.id) NotificationType.system (Reference.report r.id))
  emit (Effect.audit (some u.id) "report.target.user.suspend" (Reference.user target.id))
  pure (append "Đình chỉ người dùng: " (env.id_string target.id))

abbrev pub is_asset_report : ReportTargetType → Bool
is_asset_report ReportTargetType.asset = true
is_asset_report _ = false

abbrev pub is_review_report : ReportTargetType → Bool
is_review_report ReportTargetType.review = true
is_review_report _ = false

abbrev pub is_message_report : ReportTargetType → Bool
is_message_report ReportTargetType.chat_message = true
is_message_report _ = false

abbrev pub is_suspended_asset : AssetStatus → Bool
is_suspended_asset AssetStatus.suspended = true
is_suspended_asset _ = false

-- hideReportedAsset
unfoldable pub hide_reported_asset : Env → AuthenticatedUser → Report → Action String
hide_reported_asset env u r = do
  require (is_asset_report r.target_type)
      (Exception.bad_request "HIDE_ASSET only supports asset reports")
  found ← gets (find_asset r.target_id)
  a ← or_raise found (Exception.not_found "Target asset not found")
  when (not (is_suspended_asset a.status))
      (change_asset a.id (set_asset_status AssetStatus.suspended) >> pure tt)
  emit (
      Effect.notify (other_than u a.owner_id) NotificationType.asset_moderated
        (Reference.asset a.id))
  emit (Effect.audit (some u.id) "report.target.asset.hide" (Reference.asset a.id))
  pure (append "Ẩn bài đăng: " (env.id_string a.id))

abbrev pub is_hidden : ReviewStatus → Bool
is_hidden ReviewStatus.hidden = true
is_hidden ReviewStatus.published = false

-- The `if` of hideReportedReview.
unfoldable pub hide_published_review : Env → Review → Action (Unit {0})
hide_published_review env v = do
  update_review v.id (moderated ReviewStatus.hidden)
  recalculate_user_trust_score env v.reviewee_id
  pure tt

-- hideReportedReview
unfoldable pub hide_reported_review : Env → AuthenticatedUser → Report → Action String
hide_reported_review env u r = do
  require (is_review_report r.target_type)
      (Exception.bad_request "HIDE_REVIEW only supports review reports")
  found ← gets (find_review r.target_id)
  v ← or_raise found (Exception.not_found "Target review not found")
  when (not (is_hidden v.status)) (hide_published_review env v)
  emit (Effect.notify (other_than u v.reviewer_id) NotificationType.system (Reference.report r.id))
  emit (Effect.audit (some u.id) "report.target.review.hide" (Reference.review v.id))
  pure (append "Ẩn đánh giá: " (env.id_string v.id))

abbrev pub hidden_message : Message → Message
hidden_message m = record m {
  content = "Nội dung đã bị ẩn bởi nhân viên kiểm duyệt do vi phạm chính sách.";
  attachment_url = none;
}

-- `message.update({ where: { id } })`
abbrev pub update_message : ℕ → (Message → Message) → Action (Unit {0})
update_message id f db =
    if any (has_message_id id) db.messages
    then (ok tt, record db { messages = update_first (has_message_id id) f db.messages })
    else (err Exception.record_missing, db)

-- hideReportedChatMessage
unfoldable pub hide_reported_chat_message : Env → AuthenticatedUser → Report → Action String
hide_reported_chat_message env u r = do
  require (is_message_report r.target_type)
      (Exception.bad_request "HIDE_CHAT_MESSAGE only supports chat message reports")
  found ← gets (find_message r.target_id)
  m ← or_raise found (Exception.not_found "Target chat message not found")
  update_message m.id hidden_message
  emit (Effect.notify (other_than u m.sender_id) NotificationType.system (Reference.report r.id))
  emit (Effect.audit (some u.id) "report.target.chat-message.hide" (Reference.message m.id))
  pure (append "Ẩn tin nhắn: " (env.id_string m.id))

abbrev pub summarize : Action String → Action (Option String)
summarize m = m >>= λ text. pure (some text)

-- applyModerationAction
unfoldable pub apply_moderation_action :
    Env → AuthenticatedUser → Report → ReportModerationAction → Action (Option String)
apply_moderation_action env u r ReportModerationAction.no_action = pure none
apply_moderation_action env u r ReportModerationAction.warn_reported_user =
    summarize (warn_user env u r)
apply_moderation_action env u r ReportModerationAction.suspend_reported_user =
    summarize (suspend_user env u r)
apply_moderation_action env u r ReportModerationAction.hide_asset =
    summarize (hide_reported_asset env u r)
apply_moderation_action env u r ReportModerationAction.hide_review =
    summarize (hide_reported_review env u r)
apply_moderation_action env u r ReportModerationAction.hide_chat_message =
    summarize (hide_reported_chat_message env u r)
