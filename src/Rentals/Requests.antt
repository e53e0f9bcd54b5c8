-- ===== src/Rentals/Requests.antt =====
-- The requests that RentalsController and PaymentService make of RentalsService, and their dispatch.
-- apps/api/src/rentals/rentals.controller.ts
use borrow_hub.Common.{ℕ, String, Option, List, [], ◌∷◌}
use borrow_hub.Schema.{TransactionId, Database, AuthenticatedUser, Env}
use borrow_hub.Store.{Action, Result, ok, err}
use borrow_hub.Rentals.Booking
use borrow_hub.Rentals.Booking.{CreateRentalRequestDto}
use borrow_hub.Rentals.Intent
use borrow_hub.Rentals.Settlement
use borrow_hub.Rentals.Cancellation
use borrow_hub.Rentals.Signing
use borrow_hub.Rentals.Signing.{SignContractDto}
use borrow_hub.Rentals.Handovers
use borrow_hub.Rentals.Handovers.{StartHandoverDto}
use borrow_hub.Rentals.Issues
use borrow_hub.Rentals.Issues.{UploadRentalEvidenceDto, ReportIssueDto}

pub data Request : Type 0 where
  create : CreateRentalRequestDto → Request
  payment_intent : (rental_id : ℕ) → Request
  approve : (rental_id : ℕ) → Option String → Request
  decline : (rental_id : ℕ) → Option String → Request
  cancel : (rental_id : ℕ) → Option String → Request
  record_payment : (rental_id : ℕ) → Option String → Request
  confirm_demo_payment : (rental_id : ℕ) → Request
  sign_contract : (rental_id : ℕ) → SignContractDto → Request
  start_handover : (rental_id : ℕ) → StartHandoverDto → Request
  confirm_handover : (rental_id handover_id : ℕ) → Option String → Request
  generate_handover_qr : (rental_id handover_id : ℕ) → Request
  confirm_handover_by_qr : (token : String) → Option String → Request
  request_return : (rental_id : ℕ) → Request
  upload_evidence : (rental_id : ℕ) → UploadRentalEvidenceDto → Request
  report_issue : (rental_id : ℕ) → ReportIssueDto → Request
  mark_asset_not_returned : (rental_id : ℕ) → Option String → List ℕ → Request
  -- the call of `handleSepayWebhook`, with no signed-in user
  settle_verified_payment : (payment_id : ℕ) → TransactionId → Request

-- A request is run for its effect on the database; what it answers is dropped.
abbrev pub forget : {A : Type 0} → Result A → Result (Unit {0})
forget (ok a) = ok tt
forget (err e) = err e

abbrev pub done : {A : Type 0} → Result A × Database → Result (Unit {0}) × Database
done p = (forget p.0, p.1)

unfoldable pub handle : Env → AuthenticatedUser → Request → Action (Unit {0})
handle env u (Request.create dto) db = done (Booking.create env u dto db)
handle env u (Request.payment_intent id) db = done (Intent.get_payment_intent env u id db)
handle env u (Request.approve id m) db = done (Booking.approve env u id m db)
handle env u (Request.decline id m) db = done (Booking.decline env u id m db)
handle env u (Request.cancel id m) db = done (Cancellation.cancel env u id m db)
handle env u (Request.record_payment id t) db = done (Settlement.record_payment env u id t db)
handle env u (Request.confirm_demo_payment id) db =
    done (Settlement.confirm_demo_payment env u id db)
handle env u (Request.sign_contract id dto) db = done (Signing.sign_contract env u id dto db)
handle env u (Request.start_handover id dto) db = done (Handovers.start_handover env u id dto db)
handle env u (Request.confirm_handover id h n) db =
    done (Handovers.confirm_handover env u id h n db)
handle env u (Request.generate_handover_qr id h) db =
    done (Handovers.generate_handover_qr env u id h db)
handle env u (Request.confirm_handover_by_qr t n) db =
    done (Handovers.confirm_handover_by_qr env u t n db)
handle env u (Request.request_return id) db = done (Booking.request_return env u id db)
handle env u (Request.upload_evidence id dto) db = done (Issues.upload_evidence env u id dto db)
handle env u (Request.report_issue id dto) db = done (Issues.report_issue env u id dto db)
handle env u (Request.mark_asset_not_returned id d e) db =
    done (Issues.mark_asset_not_returned env u id d e db)
handle env u (Request.settle_verified_payment p t) db =
    done (Settlement.settle_verified_payment env p t db)

-- One request: its context, its user and what it asks.
pub record Call : Type 0 where
  pub env : Env
  pub user : AuthenticatedUser
  pub request : Request

-- The database after a sequence of requests, each run to its end before the next.
unfoldable pub serve : List Call → Database → Database
serve [] db = db
serve (c ∷ cs) db = serve cs (handle c.env c.user c.request db).1
