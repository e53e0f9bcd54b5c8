-- ===== src/Rentals/Tests/Runs.antt =====
-- Runs of the methods.
use borrow_hub.Common.{◌≡◌, refl, none, List, [], ◌∷◌, map}
use borrow_hub.Schema.{RentalStatus, TransactionId, Rental, Database}
use borrow_hub.Store.{Result, ok, err, Exception}
use borrow_hub.Rentals.Guards.{is_staff}
use borrow_hub.Rentals.Booking.{
  create, book, compute_pricing, price, ensure_within_availability, approve, reserve,
}
use borrow_hub.Rentals.Settlement.{
  settle_verified_payment, settle, settle_new, generate_contract_number,
}
use borrow_hub.Rentals.Intent.{id_suffix, build_payment_code}
use borrow_hub.Rentals.Handovers.{
  confirm_handover_by_qr, confirm_session, finalize_handover_confirmation, claim_and_close,
}
use borrow_hub.Rentals.Tests.Fixture.{env, owner, renter, db, booking}

statuses : Database → List RentalStatus
statuses d = map (λ (r : Rental). r.status) d.rentals

abbrev status_of : Result Rental → RentalStatus
status_of (ok r) = r.status
status_of (err e) = RentalStatus.expired

-- The second request for a period that meets an approved one is refused.
approve_twice :
    (approve env owner 14 none (approve env owner 10 none db).1).0
    ≡ err (Exception.conflict "Another booking already reserves this asset for the selected period")
unfolding approve reserve is_staff
approve_twice = refl

create_runs : status_of (create env renter booking db).0 ≡ RentalStatus.pending_owner
unfolding create book compute_pricing price ensure_within_availability is_staff
create_runs = refl

settle_runs :
    status_of (settle_verified_payment env 20 (TransactionId.sepay 9) db).0
    ≡ RentalStatus.awaiting_signature
unfolding settle_verified_payment settle settle_new generate_contract_number
settle_runs = refl

qr_runs : status_of (confirm_handover_by_qr env renter "qr" none db).0 ≡ RentalStatus.ongoing
unfolding confirm_handover_by_qr confirm_session finalize_handover_confirmation claim_and_close
qr_runs = refl

payment_code : build_payment_code (env.id_text 11) ≡ b'B' ∷ b'H' ∷ b'C' ∷ b'7' ∷ []
unfolding build_payment_code id_suffix
payment_code = refl
