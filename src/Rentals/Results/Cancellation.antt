-- ===== src/Rentals/Results/Cancellation.antt =====
-- The money of a cancellation.
use borrow_hub.Common.{
  ℕ, ◌*◌, ◌≤◌, ◌<◌, String, true, ◌≡◌, Option, some, [], ◌∷◌, ◌++◌, arith, ◌==◌, filter, head?,
  if◌then◌else◌, ◌||◌, ltb,
}
use borrow_hub.Schema.{
  RentalStatus, RefundStatus, Rental, Payment, ConfigKey, Database, AuthenticatedUser, Env,
}
use borrow_hub.Store.{ok, find_rental}
use borrow_hub.Rentals.Guards.{RentalView, rental_include, numeric_config}
use borrow_hub.Rentals.Booking.{round_percent}
use borrow_hub.Rentals.Cancellation.{
  CancellationOutcome, compute_cancellation_outcome, cancel_rental, cancel, refund_reason, is_early,
  owner_outcome,
}

round_percent-le : (amount percent : ℕ) → percent ≤ 100 → round_percent amount percent ≤ amount
round_percent-le amount percent h =
    let bound : amount * percent ≤ amount * 100 = grind arith in omega arith

round_percent-full : (amount : ℕ) → round_percent amount 100 ≡ amount
round_percent-full amount = omega arith

abbrev partial_percent : Database → ℕ
partial_percent db = numeric_config db ConfigKey.renter_cancel_partial_refund_percent 50

-- For a rental with a payment, and a configured part of at most 100 percent: never more than the
-- first payment is given back. If the owner cancels, all of it is, and the configured penalty is
-- taken off the owner's trust. If anybody else does, there is no penalty, all of it is given back
-- if at least the configured number of hours is left before the start, and else the configured part.
pub compute_cancellation_outcome_lem :
    (env : Env) (v : RentalView) (u : AuthenticatedUser) (db : Database) (p : Payment)
    (o : CancellationOutcome)
    → head? v.payments ≡ some p
    → numeric_config db ConfigKey.renter_cancel_partial_refund_percent 50 ≤ 100
    → (compute_cancellation_outcome env v u db).0 ≡ ok o
    → (o.refund_amount ≤ p.amount)
      × (o.refund_amount ≡ (
          if v.owner_id == u.id
            || is_early env.now v.start_at
                (numeric_config db ConfigKey.renter_cancel_full_refund_hours 24)
          then p.amount
          else round_percent p.amount
              (numeric_config db ConfigKey.renter_cancel_partial_refund_percent 50)))
      × (o.owner_trust_penalty ≡ (
          if v.owner_id == u.id
          then numeric_config db ConfigKey.owner_cancel_trust_penalty 10
          else 0))
unfolding compute_cancellation_outcome
compute_cancellation_outcome_lem env v u db p o paid most done =
    ground (arith, round_percent-full p.amount, round_percent-le p.amount (partial_percent db) most)

-- The rental is cancelled, and a refund is written exactly if there is something to give back.
cancel_rental_lem :
    (env : Env) (u : AuthenticatedUser) (v : RentalView) (reason : Option String)
    (o : CancellationOutcome) (db : Database) (p : Payment) (r : Rental)
    → head? v.payments ≡ some p
    → (cancel_rental env u v reason o db).0 ≡ ok r
    → (r.status ≡ RentalStatus.cancelled)
      × ((cancel_rental env u v reason o db).1.refunds ≡ (
          if ltb 0 o.refund_amount
          then db.refunds
            ++ record {
              id = env.new_id 0;
              payment_id = p.id;
              amount = o.refund_amount;
              reason = refund_reason (v.owner_id == u.id) reason;
              status = RefundStatus.completed;
              completed_at = some env.now;
            }
              ∷ []
          else db.refunds))
unfolding cancel_rental
cancel_rental_lem env u v reason o db p r paid done = ground arith

-- What the owner's cancellation computes.
owner_outcome-of :
    (env : Env) (v : RentalView) (u : AuthenticatedUser) (db : Database) (p : Payment)
    → head? v.payments ≡ some p
    → (v.owner_id == u.id) ≡ true
    → compute_cancellation_outcome env v u db ≡ (
      ok (owner_outcome (numeric_config db ConfigKey.owner_cancel_trust_penalty 10) (some p)),
      db,
    )
unfolding compute_cancellation_outcome
owner_outcome-of env v u db p paid own = ground arith

-- An owner's cancellation writes a completed refund of the full amount of the rental's first
-- payment, if that amount is positive, whatever the status of that payment is.
pub cancel-refunds_first :
    (env : Env) (u : AuthenticatedUser) (id : ℕ) (reason : Option String) (db : Database)
    (q : Rental) (p : Payment) (r : Rental) (o : CancellationOutcome)
    → find_rental id db ≡ some q
    → (q.owner_id == u.id) ≡ true
    → head? (filter (λ (x : Payment). x.rental_id == q.id) db.payments) ≡ some p
    → 0 < p.amount
    → (cancel env u id reason db).0 ≡ ok (r, o)
    → (cancel env u id reason db).1.refunds
      ≡ db.refunds
        ++ record {
          id = env.new_id 0;
          payment_id = p.id;
          amount = p.amount;
          reason = refund_reason true reason;
          status = RefundStatus.completed;
          completed_at = some env.now;
        }
          ∷ []
unfolding cancel
cancel-refunds_first env u id reason db q p r o found own first positive done =
    let v = rental_include db q in
    let outcome =
      owner_outcome (numeric_config db ConfigKey.owner_cancel_trust_penalty 10) (some p) in
    ground (
      arith,
      found,
      own,
      first,
      owner_outcome-of env v u db p first own,
      cancel_rental_lem env u v reason outcome db p r,
    )
