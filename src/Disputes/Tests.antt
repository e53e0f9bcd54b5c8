-- ===== src/Disputes/Tests.antt =====
-- Runs of DisputesService, and its theorems at concrete inputs.
use borrow_hub.Common.{true, ◌≡◌, refl, none, some, List, [], ◌∷◌, map}
use borrow_hub.Schema.{
  RoleName, VerificationStatus, DisputeStatus, HandoverType, HandoverStatus, Dispute, Handover,
  Database, AuthenticatedUser,
}
use borrow_hub.Rentals.Guards.{is_staff}
use borrow_hub.Rentals.Issues.{load_evidence_for_rental}
use borrow_hub.Rentals.Tests.Fixture.{env, owner, renter, db, handover}
use borrow_hub.Disputes.Guards.{is_dispute_manager, find_accessible_dispute, add_event}
use borrow_hub.Disputes.Opening.{
  CreateDisputeDto, create, record_dispute, file_dispute, filed_dispute,
}
use borrow_hub.Disputes.Handling.{
  UpdateDisputeStatusDto, respond, add_response, attach_if_any, update_status, decide, decided,
  event_of,
}
use borrow_hub.Disputes.Requests.{DisputeRequest, DisputeCall, settle_dispute, settle_disputes}
use borrow_hub.Disputes.Sequences.{
  DisputesGrow, IsOneActive, settle_dispute-DisputesGrow, settle_disputes-IsOneActive,
}
use borrow_hub.Disputes.Results.{IsDecision, update_status_lem}

abbrev officer : AuthenticatedUser
officer = record {
  id = 9;
  roles = RoleName.dispute_officer ∷ [];
  verification_status = VerificationStatus.verified;
}

abbrev complaint : CreateDisputeDto
complaint = record { rental_id = 13; reason = "OTHER"; description = "broken"; evidence_ids = [] }

abbrev verdict : DisputeStatus → UpdateDisputeStatusDto
verdict s = record { status = s; resolution_summary = some "settled" }

abbrev call : AuthenticatedUser → DisputeRequest → DisputeCall
call u q = record { env = env; user = u; request = q }

-- The renter complains, and complains again in vain; the owner responds; the officer decides, and
-- then cannot decide again.
abbrev calls : List DisputeCall
calls =
    call renter (DisputeRequest.create complaint)
    ∷ call renter (DisputeRequest.create complaint)
    ∷ call owner (DisputeRequest.respond 500 [])
    ∷ call officer (DisputeRequest.update_status 500 (verdict DisputeStatus.resolved))
    ∷ call officer (DisputeRequest.update_status 500 (verdict DisputeStatus.under_review))
    ∷ []

calls_run :
    map (λ (d : Dispute). d.status) (settle_disputes calls db).disputes
    ≡ DisputeStatus.resolved ∷ []
unfolding settle_disputes settle_dispute create record_dispute file_dispute respond add_response
    attach_if_any update_status decide find_accessible_dispute is_dispute_manager
    load_evidence_for_rental is_staff
calls_run = refl

-- A dispute of rental 13, whose asset came back.
abbrev dispute : DisputeStatus → Dispute
dispute s = record (filed_dispute env renter 13 complaint []) { status = s }

abbrev returned : Handover
returned = record handover { type = HandoverType.return; status = HandoverStatus.confirmed }

abbrev disputed : DisputeStatus → Database
disputed s = record db { disputes = dispute s ∷ []; handovers = returned ∷ [] }

settle_dispute-DisputesGrow_example :
    DisputesGrow renter
      (disputed DisputeStatus.opened).disputes
      (settle_dispute env renter
        (DisputeRequest.respond 500 [])
        (disputed DisputeStatus.opened)).disputes
settle_dispute-DisputesGrow_example =
    settle_dispute-DisputesGrow env renter (DisputeRequest.respond 500 [])
      (disputed DisputeStatus.opened)

settle_disputes-IsOneActive_example :
    IsOneActive (settle_disputes calls (disputed DisputeStatus.opened))
settle_disputes-IsOneActive_example =
    settle_disputes-IsOneActive calls (disputed DisputeStatus.opened) (tt, tt)

abbrev closed : Dispute
closed =
    decided env none (verdict DisputeStatus.resolved)
      (add_event 9 (event_of DisputeStatus.resolved) (dispute DisputeStatus.opened))

update_status_lem_example :
    (is_dispute_manager officer ≡ true)
    × IsDecision env 500
        (verdict DisputeStatus.resolved)
        (disputed DisputeStatus.opened)
        (update_status env officer 500
          (verdict DisputeStatus.resolved)
          (disputed DisputeStatus.opened)).1
        closed
unfolding update_status decide find_accessible_dispute is_dispute_manager is_staff
update_status_lem_example =
    update_status_lem env officer 500 (verdict DisputeStatus.resolved)
      (disputed DisputeStatus.opened) closed refl
