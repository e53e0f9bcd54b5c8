-- ===== src/Rentals/Lifecycle/Closing.antt =====
-- The requests of Rentals/Cancellation.antt, Signing, Handovers and Issues follow the diagram.
use borrow_hub.Common.{
  ℕ, String, Bool, true, false, ◌≡◌, Option, some, arith, find, first_some, if◌then◌else◌,
}
use borrow_hub.Schema.{RentalStatus, RentalContract, Rental, Database, AuthenticatedUser, Env}
use borrow_hub.Store.{has_rental_id}
use borrow_hub.Rentals.Guards.{rental_include}
use borrow_hub.Rentals.Cancellation.{
  CancellationOutcome, is_cancellable, cancel_rental, cancel, compute_cancellation_outcome,
}
use borrow_hub.Rentals.Signing.{
  SignContractDto, is_awaiting_signature, apply_signatures, sign_contract,
}
use borrow_hub.Rentals.Lifecycle.Defs.{
  Grows, Grows-refl, Kind, Reaches, Reaches-edge, here, sign, cancel_request, cancel_unpaid,
  cancel_unsigned, cancel_confirmed, cancel_ready,
}
use borrow_hub.Rentals.Lifecycle.Rules.{accessible-Grows, set-Grows, move-Grows}

cancel-path :
    (s : RentalStatus) → is_cancellable s ≡ true → Reaches Kind.cancelling s RentalStatus.cancelled
cancel-path RentalStatus.pending_owner h = Reaches-edge Kind.cancelling cancel_request
cancel-path RentalStatus.awaiting_payment h = Reaches-edge Kind.cancelling cancel_unpaid
cancel-path RentalStatus.awaiting_signature h = Reaches-edge Kind.cancelling cancel_unsigned
cancel-path RentalStatus.confirmed h = Reaches-edge Kind.cancelling cancel_confirmed
cancel-path RentalStatus.ready_for_handover h = Reaches-edge Kind.cancelling cancel_ready
cancel-path _ h = cc

cancel_rental-Grows :
    (env : Env) (u : AuthenticatedUser) (r : Rental) (reason : Option String)
    (o : CancellationOutcome) (db d : Database)
    → find (has_rental_id r.id) db.rentals ≡ some r
    → is_cancellable r.status ≡ true
    → Grows Kind.cancelling db.rentals
        (cancel_rental env u (rental_include d r) reason o db).1.rentals
unfolding cancel_rental
cancel_rental-Grows env u r reason o db d found h = ground (
  arith,
  found,
  Grows-refl Kind.cancelling db.rentals,
  move-Grows Kind.cancelling r.id db.rentals r RentalStatus.cancelled (first_some reason r.message)
      env.now found (cancel-path r.status h),
)

pub cancel-Grows :
    (env : Env) (u : AuthenticatedUser) (id : ℕ) (reason : Option String) (db : Database)
    → Grows Kind.cancelling db.rentals (cancel env u id reason db).1.rentals
unfolding cancel compute_cancellation_outcome
cancel-Grows env u id reason db =
    accessible-Grows Kind.cancelling u id _ db
      (λ r found self may. grind (arith, Grows-refl, cancel_rental-Grows))

-- Signing leaves the status, or moves it on.
sign-path :
    (s : RentalStatus) (both : Bool)
    → is_awaiting_signature s ≡ true
    → Reaches Kind.signing
        (s)
        ((if both then RentalStatus.confirmed else RentalStatus.awaiting_signature))
sign-path RentalStatus.awaiting_signature true h = Reaches-edge Kind.signing sign
sign-path RentalStatus.awaiting_signature false h = here
sign-path _ _ h = cc

apply_signatures-Grows :
    (env : Env) (r : Rental) (c : RentalContract) (both : Bool) (db d : Database)
    → find (has_rental_id r.id) db.rentals ≡ some r
    → is_awaiting_signature r.status ≡ true
    → Grows Kind.signing db.rentals (apply_signatures env (rental_include d r) c both db).1.rentals
unfolding apply_signatures
apply_signatures-Grows env r c both db d found h = ground (
  arith,
  found,
  Grows-refl Kind.signing db.rentals,
  set-Grows Kind.signing r.id db.rentals r
      (if both then RentalStatus.confirmed else RentalStatus.awaiting_signature) env.now found
      (sign-path r.status both h),
)

pub sign_contract-Grows :
    (env : Env) (u : AuthenticatedUser) (id : ℕ) (dto : SignContractDto) (db : Database)
    → Grows Kind.signing db.rentals (sign_contract env u id dto db).1.rentals
unfolding sign_contract
sign_contract-Grows env u id dto db =
    accessible-Grows Kind.signing u id _ db
      (λ r found self may. grind (arith, Grows-refl, apply_signatures-Grows))
