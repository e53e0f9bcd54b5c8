-- ===== src/Rentals/Access.antt =====
-- Who may act on a rental: `findAccessibleRental` and the assertions of the methods.
use borrow_hub.Common.{ℕ, Bool, true, false, ◌≡◌, Option, none, some, arith}
use borrow_hub.Schema.{Rental, Database, AuthenticatedUser, Env}
use borrow_hub.Store.{Result, ok, err, find_rental}
use borrow_hub.Rentals.Guards.{can_access}
use borrow_hub.Rentals.Booking.{approve, decline, request_return}
use borrow_hub.Rentals.Intent.{get_payment_intent}
use borrow_hub.Rentals.Settlement.{record_payment, confirm_demo_payment}
use borrow_hub.Rentals.Cancellation.{cancel}
use borrow_hub.Rentals.Signing.{sign_contract}
use borrow_hub.Rentals.Handovers.{start_handover, confirm_handover, generate_handover_qr}
use borrow_hub.Rentals.Issues.{upload_evidence, report_issue, mark_asset_not_returned}
use borrow_hub.Rentals.Requests.{Request, handle}

-- The rental that a request names in its path.
abbrev pub target : Request → Option ℕ
target (Request.create dto) = none
target (Request.confirm_handover_by_qr token notes) = none
target (Request.settle_verified_payment payment_id t) = none
target (Request.payment_intent id) = some id
target (Request.approve id m) = some id
target (Request.decline id m) = some id
target (Request.cancel id m) = some id
target (Request.record_payment id t) = some id
target (Request.confirm_demo_payment id) = some id
target (Request.sign_contract id dto) = some id
target (Request.start_handover id dto) = some id
target (Request.confirm_handover id h n) = some id
target (Request.generate_handover_qr id h) = some id
target (Request.request_return id) = some id
target (Request.upload_evidence id dto) = some id
target (Request.report_issue id dto) = some id
target (Request.mark_asset_not_returned id d e) = some id

abbrev pub is_error : {A : Type 0} → Result A → Bool
is_error (ok a) = false
is_error (err e) = true

-- A request that names a rental fails and changes nothing, if its user is neither the owner nor the
-- renter of that rental nor staff.
pub handle-denied :
    (env : Env) (u : AuthenticatedUser) (db : Database) (q : Request) (id : ℕ) (r : Rental)
    → target q ≡ some id
    → find_rental id db ≡ some r
    → can_access r u ≡ false
    → (is_error (handle env u q db).0 ≡ true) × ((handle env u q db).1 ≡ db)
unfolding handle get_payment_intent approve decline cancel record_payment confirm_demo_payment
    sign_contract start_handover confirm_handover generate_handover_qr request_return
    upload_evidence report_issue mark_asset_not_returned
handle-denied env u db (Request.create dto) id r t found denied = cc
handle-denied env u db q id r t found denied = ground arith
