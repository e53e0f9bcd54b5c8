-- ===== src/Rentals/Lifecycle/Payments.antt =====
-- The requests of Rentals/Intent.antt and Rentals/Settlement.antt follow the diagram.
use borrow_hub.Common.{
  ℕ, String, true, ◌≡◌, Option, some, List, arith, ◌&&◌, find, inl, inr, Option-cases, update_where,
  ◌==◌,
}
use borrow_hub.Schema.{
  RentalStatus, PaymentProvider, TransactionId, Payment, Rental, Database, AuthenticatedUser, Env,
}
use borrow_hub.Store.{has_rental_id, has_payment_id}
use borrow_hub.Rentals.Guards.{RentalView}
use borrow_hub.Rentals.Booking.{is_awaiting_payment}
use borrow_hub.Rentals.Intent.{PaymentIntent, payable_intent, open_intent, get_payment_intent}
use borrow_hub.Rentals.Settlement.{
  settle_new, settle, settle_verified_payment, settle_intent, pay_intent, record_payment,
  confirm_demo_payment,
}
use borrow_hub.Rentals.Lifecycle.Defs.{Grows, Grows-refl, Kind, Reaches, Reaches-edge, pay}
use borrow_hub.Rentals.Lifecycle.Rules.{
  accessible-Grows, bind-Grows, set-Grows, set_where-Grows, find_self,
}
use borrow_hub.Rentals.Lifecycle.Booking.{lapse-path}

-- The window of this rental has passed: it expires.
expire-Grows :
    (id t : ℕ) (xs : List Rental)
    → Grows Kind.paying xs (
        update_where
          (λ r. r.id == id && is_awaiting_payment r.status)
          (λ q. record q { status = RentalStatus.expired; updated_at = t })
          xs)
expire-Grows id t xs =
    set_where-Grows Kind.paying _ xs RentalStatus.expired t
      (λ r e. lapse-path r.status (ground arith))

payable_intent-Grows :
    (env : Env) (v : RentalView) (p : PaymentProvider) (base : PaymentIntent) (db : Database)
    → Grows Kind.paying db.rentals (payable_intent env v p base db).1.rentals
unfolding payable_intent open_intent
payable_intent-Grows env v p base db =
    ground (arith, Grows-refl Kind.paying db.rentals, expire-Grows v.id env.now db.rentals)

pub get_payment_intent-Grows :
    (env : Env) (u : AuthenticatedUser) (id : ℕ) (db : Database)
    → Grows Kind.paying db.rentals (get_payment_intent env u id db).1.rentals
unfolding get_payment_intent
get_payment_intent-Grows env u id db =
    accessible-Grows Kind.paying u id _ db
      (λ r found self may. grind (arith, Grows-refl, payable_intent-Grows))

pay-path :
    (s : RentalStatus)
    → is_awaiting_payment s ≡ true
    → Reaches Kind.paying s RentalStatus.awaiting_signature
pay-path RentalStatus.awaiting_payment h = Reaches-edge Kind.paying pay
pay-path _ h = cc

settle_new-Grows :
    (env : Env) (t : TransactionId) (commission : ℕ) (p : Payment) (r : Rental) (db : Database)
    → find (has_rental_id r.id) db.rentals ≡ some r
    → Grows Kind.paying db.rentals (settle_new env t commission p r db).1.rentals
unfolding settle_new
settle_new-Grows env t commission p r db found = ground (
  arith,
  found,
  Grows-refl Kind.paying db.rentals,
  pay-path r.status,
  set-Grows Kind.paying r.id db.rentals r RentalStatus.awaiting_signature env.now found,
)

settle-Grows :
    (env : Env) (payment_id : ℕ) (t : TransactionId) (commission : ℕ) (db : Database)
    → Grows Kind.paying db.rentals (settle env payment_id t commission db).1.rentals
unfolding settle
settle-Grows env payment_id t commission db =
    elim (Option-cases (find (has_payment_id payment_id) db.payments)) [
      | inl missing ↦ ground (arith, missing, Grows-refl Kind.paying db.rentals)
      | inr (p, paid) ↦ elim (Option-cases (find (has_rental_id p.rental_id) db.rentals)) [
        | inl missing ↦ ground (arith, paid, missing, Grows-refl Kind.paying db.rentals)
        | inr (r, found) ↦ ground (
          arith,
          paid,
          found,
          Grows-refl Kind.paying db.rentals,
          settle_new-Grows env t commission p r db (find_self p.rental_id db.rentals r found),
        )
      ]
    ]

pub settle_verified_payment-Grows :
    (env : Env) (payment_id : ℕ) (t : TransactionId) (db : Database)
    → Grows Kind.paying db.rentals (settle_verified_payment env payment_id t db).1.rentals
unfolding settle_verified_payment
settle_verified_payment-Grows env payment_id t db = grind (arith, Grows-refl, settle-Grows)

pub confirm_demo_payment-Grows :
    (env : Env) (u : AuthenticatedUser) (id : ℕ) (db : Database)
    → Grows Kind.paying db.rentals (confirm_demo_payment env u id db).1.rentals
unfolding confirm_demo_payment
confirm_demo_payment-Grows env u id db = grind (arith, Grows-refl, settle_verified_payment-Grows)

settle_intent-Grows :
    (env : Env) (t : Option String) (i : PaymentIntent) (db : Database)
    → Grows Kind.paying db.rentals (settle_intent env t i db).1.rentals
unfolding settle_intent
settle_intent-Grows env t i db = grind (arith, Grows-refl, settle_verified_payment-Grows)

pay_intent-Grows :
    (env : Env) (u : AuthenticatedUser) (id : ℕ) (t : Option String) (db : Database)
    → Grows Kind.paying db.rentals (pay_intent env u id t db).1.rentals
unfolding pay_intent
pay_intent-Grows env u id t db =
    bind-Grows Kind.paying (get_payment_intent env u id) (settle_intent env t) db
      (get_payment_intent-Grows env u id db) (settle_intent-Grows env t)

pub record_payment-Grows :
    (env : Env) (u : AuthenticatedUser) (id : ℕ) (t : Option String) (db : Database)
    → Grows Kind.paying db.rentals (record_payment env u id t db).1.rentals
unfolding record_payment
record_payment-Grows env u id t db = grind (arith, Grows-refl, pay_intent-Grows)
