-- ===== src/Rentals/Issues.antt =====
-- RentalsService: uploadEvidence, reportIssue, markAssetNotReturned, createRentalDispute,
-- loadEvidenceForRental.
use Prim.Native.String.{◌++◌ as ◌++ₛ◌}
use borrow_hub.Common.{
  ℕ, String, Bool, true, false, not, ◌&&◌, ◌||◌, Option, none, some, List, [], ◌∷◌, ◌++◌, map, ltb,
  ◌==◌, if◌then◌else◌, any, filter, length, includes, is_some, or_else,
}
use borrow_hub.Common.Text.{trim, is_empty, or_text, non_empty, join, show}
use borrow_hub.Schema.{
  RentalStatus, EvidenceType, DisputeStatus, DisputeEventType, PayoutStatus, NotificationType,
  AnalyticsEventType, Evidence, Dispute, DisputeEvent, Reference, Effect, AuthenticatedUser, Env,
}
use borrow_hub.Store.{
  Exception, Action, pure, raise, gets, require, modify, for_some, transaction, try_catch, emit,
  ◌>>=◌, ◌>>◌, update_rental, update_payout, create_dispute, is_active_dispute_of,
}
use borrow_hub.Rentals.Guards.{
  RentalView, is_owner, is_renter, is_staff, find_accessible_rental, assert_owner, assert_status,
}
use borrow_hub.Rentals.Cancellation.{set_payout_status}
use borrow_hub.Rentals.Handovers.{is_return_pending}

pub record UploadRentalEvidenceDto : Type 0 where
  pub type : EvidenceType
  pub file_url : String
  pub description : Option String
  pub tag : Option String

-- `text?.trim() || null`
abbrev pub trimmed : Option String → Option String
trimmed none = none
trimmed (some s) = non_empty (trim s)

unfoldable pub upload_evidence :
    Env → AuthenticatedUser → (rental_id : ℕ) → UploadRentalEvidenceDto → Action Evidence
upload_evidence env u rental_id dto = do
  rental ← find_accessible_rental rental_id u
  require (is_owner rental.rental u || is_renter rental.rental u || is_staff u)
      (Exception.forbidden "You cannot upload evidence for this rental")
  let evidence : Evidence = record {
    id = env.new_id 0;
    rental_id = rental.id;
    handover_id = none;
    uploaded_by = u.id;
    type = dto.type;
    file_url = dto.file_url;
    description = trimmed dto.description;
    tag = trimmed dto.tag;
  }
  modify (λ db. record db { evidences = db.evidences ++ evidence ∷ [] })
  emit (Effect.audit (some u.id) "rental.evidence.create" (Reference.evidence evidence.id))
  pure evidence

abbrev pub is_foreign : (user_id : ℕ) → Evidence → Bool
is_foreign user_id e = not (e.uploaded_by == user_id) && not (is_some e.handover_id)

unfoldable pub load_evidence_for_rental :
    (rental_id : ℕ) → List ℕ → (user_id : ℕ) → Action (List Evidence)
load_evidence_for_rental rental_id [] user_id = pure []
load_evidence_for_rental rental_id (i ∷ ids) user_id = do
  evidences ←
      gets (λ db. filter (λ e. includes (i ∷ ids) e.id && e.rental_id == rental_id) db.evidences)
  require (length evidences == length (i ∷ ids))
      (Exception.bad_request "Some evidence items were not found for this rental")
  require (not (any (is_foreign user_id) evidences))
      (Exception.forbidden "You can only attach your own standalone evidence records")
  pure evidences

-- The options of `createRentalDispute` that change the database; an empty list stands for none.
pub record DisputeOptions : Type 0 where
  pub reason : String
  pub description : String
  pub audit_action : String
  pub initial_status : Option DisputeStatus
  pub evidence_records : List Evidence
  pub extra_events : List DisputeEventType

abbrev pub event_by : ℕ → DisputeEventType → DisputeEvent
event_by user_id t = record { actor_id = user_id; event_type = t }

abbrev pub new_dispute : Env → AuthenticatedUser → (rental_id : ℕ) → DisputeOptions → Dispute
new_dispute env u rental_id options = record {
  id = env.new_id 0;
  rental_id = rental_id;
  opened_by_id = u.id;
  reason = options.reason;
  description = options.description;
  status = or_else options.initial_status DisputeStatus.opened;
  events = map (event_by u.id) (DisputeEventType.opened ∷ options.extra_events);
  evidence_ids = map (λ e. e.id) options.evidence_records;
  assigned_to_id = none;
  resolution_summary = none;
  resolved_at = none;
}

-- The transaction of `createRentalDispute`.
unfoldable pub open_dispute : Env → AuthenticatedUser → RentalView → DisputeOptions → Action Dispute
open_dispute env u rental options = do
  update_rental env rental.id
      (λ r. record r { status = RentalStatus.disputed; message = some options.description })
  for_some rental.payout
      (λ payout. update_payout payout.id (set_payout_status PayoutStatus.blocked))
  create_dispute (new_dispute env u rental.id options)

abbrev pub translate : Exception → Exception
translate Exception.unique_violation =
    Exception.conflict "This rental already has an active dispute"
translate e = e

unfoldable pub create_rental_dispute :
    Env → AuthenticatedUser → RentalView → DisputeOptions → Action Dispute
create_rental_dispute env u rental options = do
  existing ← gets (λ db. any (is_active_dispute_of rental.id) db.disputes)
  require (not existing) (Exception.conflict "This rental already has an active dispute")
  dispute ← try_catch (transaction (open_dispute env u rental options)) (λ e. raise (translate e))
  emit
      (Effect.notify (rental.renter_id ∷ []) NotificationType.system (Reference.dispute dispute.id))
  emit (Effect.audit (some u.id) options.audit_action (Reference.dispute dispute.id))
  emit (Effect.track AnalyticsEventType.dispute_opened u.id (Reference.dispute dispute.id))
  emit (Effect.recalculate_user_trust_score rental.owner_id)
  emit (Effect.recalculate_user_trust_score rental.renter_id)
  pure dispute

pub record ReportIssueDto : Type 0 where
  pub description : String
  pub repair_estimate : Option ℕ
  pub repair_currency : Option String
  pub evidence_ids : List ℕ
  pub damage_items : List String

-- The description of a reported issue: the text, the damaged items and the estimate, those that
-- are not empty, with a blank between them.
unfoldable pub issue_description : ReportIssueDto → (rental_currency : String) → String
issue_description dto rental_currency =
    let items = filter (λ s. not (is_empty s)) (map trim dto.damage_items) in
    let currency = or_text (trimmed dto.repair_currency) rental_currency in
    let damage =
      if ltb 0 (length items)
      then "Hạng mục bị ảnh hưởng: " ++ₛ (join ", " items ++ₛ ".")
      else "" in
    let estimate : String = elim dto.repair_estimate [
      | none ↦ ""
      | some n ↦ "Ước tính sửa chữa: " ++ₛ (show n ++ₛ (" " ++ₛ (currency ++ₛ ".")))
    ] in
    join " " (filter (λ s. not (is_empty s)) (trim dto.description ∷ damage ∷ estimate ∷ []))

unfoldable pub report_issue :
    Env → AuthenticatedUser → (rental_id : ℕ) → ReportIssueDto → Action Dispute
report_issue env u rental_id dto = do
  rental ← find_accessible_rental rental_id u
  assert_owner rental.owner_id u
  assert_status rental.status is_return_pending
  evidences ← load_evidence_for_rental rental.id dto.evidence_ids u.id
  create_rental_dispute env u rental (record {
    reason = "RETURN_ISSUE";
    description = issue_description dto rental.currency;
    audit_action = "dispute.create.from-rental";
    initial_status = some DisputeStatus.waiting_response;
    evidence_records = evidences;
    extra_events =
        (if ltb 0 (length evidences) then DisputeEventType.evidence_attached ∷ [] else [])
        ++ (if is_some dto.repair_estimate then DisputeEventType.note ∷ [] else []);
  })

abbrev pub is_out : RentalStatus → Bool
is_out RentalStatus.overdue = true
is_out RentalStatus.return_pending = true
is_out _ = false

abbrev pub asset_title : RentalView → String
asset_title rental = elim rental.asset [ none ↦ "" | some a ↦ a.title ]

unfoldable pub mark_asset_not_returned :
    Env
    → AuthenticatedUser
    → (rental_id : ℕ) → Option String
    → (evidence_ids : List ℕ) → Action Dispute
mark_asset_not_returned env u rental_id description evidence_ids = do
  rental ← find_accessible_rental rental_id u
  assert_owner rental.owner_id u
  assert_status rental.status is_out
  evidences ← load_evidence_for_rental rental.id evidence_ids u.id
  create_rental_dispute env u rental (record {
    reason = "LOST_ASSET";
    description =
        or_text (trimmed description)
          ("Chủ tài sản báo chưa nhận lại \"" ++ₛ (asset_title rental ++ₛ "\"."));
    audit_action = "dispute.create.asset-not-returned";
    initial_status = none;
    evidence_records = evidences;
    extra_events = [];
  })
