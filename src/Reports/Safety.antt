-- ===== src/Reports/Safety.antt =====
-- What a request to ReportsService may change, by who makes it.
use borrow_hub.Common.{
  ℕ, String, Bool, true, false, not, ◌||◌, ◌≡◌, refl, Option, arith, any, find, or_else, inl, inr,
  Bool-cases, Option-cases,
}
use borrow_hub.Schema.{ReportTargetType, Report, Database, AuthenticatedUser, Env}
use borrow_hub.Store.{Action, Result-cases}
use borrow_hub.Support.Guards.{has_report_id}
use borrow_hub.Reports.Guards.{
  is_report_manager, find_accessible_report, ensure_target_exists, is_terminal_report_status,
}
use borrow_hub.Reports.Moderation.{ReportModerationAction, summarize, apply_moderation_action}
use borrow_hub.Reports.Service.{
  UpdateReportStatusDto, create_report, assign_report, ensure_report_assignee, decide_report,
  update_report_status, ReportRequest, serve_report, has_text, is_action, is_resolved_report,
}
use borrow_hub.Reports.Confined.{IsConfined, IsConfined-trans, left}
use borrow_hub.Reports.Actions.{
  warn-IsConfined, suspend-IsConfined, hide_asset-IsConfined, hide_review-IsConfined,
  hide_message-IsConfined,
}

summarize-database : (m : Action String) (db : Database) → (summarize m db).1 ≡ (m db).1
summarize-database m db = elim (Result-cases (m db).0) [
  | inl (x, fine) ↦ rw fine refl
  | inr (e, failed) ↦ rw failed refl
]

find_report-keeps :
    (id : ℕ) (u : AuthenticatedUser) (db : Database) → (find_accessible_report id u db).1 ≡ db
unfolding find_accessible_report
find_report-keeps id u db = ground arith

ensure_target-keeps :
    (t : ReportTargetType) (id : ℕ) (db : Database) → (ensure_target_exists t id db).1 ≡ db
unfolding ensure_target_exists
ensure_target-keeps t id db = ground arith

ensure_assignee-keeps : (to : Option ℕ) (db : Database) → (ensure_report_assignee to db).1 ≡ db
unfolding ensure_report_assignee
ensure_assignee-keeps to db = ground arith

module _ (env : Env) (u : AuthenticatedUser) (staff : Bool) where
  apply-IsConfined :
      (r : Report) (a : ReportModerationAction) (db : Database)
      → staff ≡ true
      → IsConfined staff db (apply_moderation_action env u r a db).1
  unfolding apply_moderation_action
  apply-IsConfined r ReportModerationAction.no_action db acting =
      left staff db db.reports db.effects
  apply-IsConfined r ReportModerationAction.warn_reported_user db acting =
      rw (summarize-database _ db) (warn-IsConfined staff u env r db)
  apply-IsConfined r ReportModerationAction.suspend_reported_user db acting =
      rw (summarize-database _ db) (suspend-IsConfined staff u env r db acting)
  apply-IsConfined r ReportModerationAction.hide_asset db acting =
      rw (summarize-database _ db) (hide_asset-IsConfined staff u env r db acting)
  apply-IsConfined r ReportModerationAction.hide_review db acting =
      rw (summarize-database _ db) (hide_review-IsConfined staff u env r db acting)
  apply-IsConfined r ReportModerationAction.hide_chat_message db acting =
      rw (summarize-database _ db) (hide_message-IsConfined staff u env r db acting)

  decide-IsConfined :
      (dto : UpdateReportStatusDto) (r : Report) (summary : Option String) (db : Database)
      → IsConfined staff db (decide_report env u dto r summary db).1
  unfolding decide_report
  decide-IsConfined dto r summary db = elim (Option-cases (find (has_report_id r.id) db.reports)) [
    | inl missing ↦ rw missing (left staff db db.reports db.effects)
    | inr (x, found) ↦ rw found (left staff db _ _)
  ]

module _ (env : Env) (u : AuthenticatedUser) (db : Database) where
  update_status-IsConfined :
      (id : ℕ) (dto : UpdateReportStatusDto)
      → IsConfined (is_report_manager u) db (update_report_status env u id dto db).1
  unfolding update_report_status
  update_status-IsConfined id dto = elim (Bool-cases (is_report_manager u)) [
    | inr other ↦ rw other (left false db db.reports db.effects)
    | inl manager ↦
        let kept = find_report-keeps id u db in
        rw manager (elim (Result-cases (find_accessible_report id u db).0) [
          | inr (e, failed) ↦ rw (failed, kept) (left true db db.reports db.effects)
          | inl (r, found) ↦
              elim (Bool-cases
                (not (is_terminal_report_status dto.status) || has_text dto.resolution_summary)) [
                  | inr silent ↦ rw (found, kept, silent) (left true db db.reports db.effects)
                  | inl told ↦
                      elim (Bool-cases
                        (not (is_action dto.action) || is_resolved_report dto.status)) [
                          | inr early ↦
                              rw (found, kept, told, early) (left true db db.reports db.effects)
                          | inl right ↦
                              let a = or_else dto.action ReportModerationAction.no_action in
                              let next = (apply_moderation_action env u r a db).1 in
                              let applied = apply-IsConfined env u true r a db refl in
                              elim (Result-cases (apply_moderation_action env u r a db).0) [
                                | inr (e, failed) ↦ rw (found, kept, told, right, failed) applied
                                | inl (summary, fine) ↦
                                    rw (found, kept, told, right, fine)
                                      (IsConfined-trans true db next _ applied
                                        (decide-IsConfined env u true dto r summary next))
                              ]
                        ]
                ]
        ])
  ]

  pub serve_report-IsConfined :
      (q : ReportRequest) → IsConfined (is_report_manager u) db (serve_report env u q db).1
  unfolding serve_report create_report assign_report
  serve_report-IsConfined (ReportRequest.create dto) =
      let kept = ensure_target-keeps dto.target_type dto.target_id db in
      elim (Result-cases (ensure_target_exists dto.target_type dto.target_id db).0) [
        | inr (e, failed) ↦ rw (failed, kept) (left (is_report_manager u) db db.reports db.effects)
        | inl (x, there) ↦ elim (Bool-cases (any (has_report_id (env.new_id 0)) db.reports)) [
          | inl twice ↦
              rw (there, kept, twice) (left (is_report_manager u) db db.reports db.effects)
          | inr fresh ↦ rw (there, kept, fresh) (left (is_report_manager u) db _ _)
        ]
      ]
  serve_report-IsConfined (ReportRequest.update_status id dto) = update_status-IsConfined id dto
  serve_report-IsConfined (ReportRequest.assign id to) = elim (Bool-cases (is_report_manager u)) [
    | inr other ↦ rw other (left false db db.reports db.effects)
    | inl manager ↦
        let found_kept = find_report-keeps id u db in
        let kept = ensure_assignee-keeps to db in
        rw manager (elim (Result-cases (find_accessible_report id u db).0) [
          | inr (e, failed) ↦ rw (failed, found_kept) (left true db db.reports db.effects)
          | inl (r, found) ↦ elim (Result-cases (ensure_report_assignee to db).0) [
            | inr (e, failed) ↦
                rw (found, found_kept, failed, kept) (left true db db.reports db.effects)
            | inl (x, fine) ↦ elim (Option-cases (find (has_report_id r.id) db.reports)) [
              | inl missing ↦
                  rw (found, found_kept, fine, kept, missing) (left true db db.reports db.effects)
              | inr (y, there) ↦ rw (found, found_kept, fine, kept, there) (left true db _ _)
            ]
          ]
        ])
  ]
