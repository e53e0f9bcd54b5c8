-- ===== src/Rentals/Once.antt =====
-- What can happen only once: the confirmation of a handover, and the settlement of a payment.
use borrow_hub.Common.{
  ℕ, ◌≢◌, Bool, true, false, ◌≡◌, refl, sym, ◌&&◌, ◌==◌, Option, none, some, List, [], ◌∷◌, arith,
  find, any, update_where, update_first, String, Bool-cases, Option-cases, inl, inr,
}
use mathlib.Core.Path.{subst}
use borrow_hub.Rentals.Lifecycle.Rules.{find-id, find_self}
use borrow_hub.Schema.{RentalStatus, Handover, Payment, Rental, TransactionId, Database, Env}
use borrow_hub.Store.{transaction, has_rental_id, ok, err, Exception, has_payment_id}
use borrow_hub.Rentals.Guards.{RentalView}
use borrow_hub.Rentals.Handovers.{
  is_pending_handover, confirmed_handover, claim_and_close, close_session,
}
use borrow_hub.Rentals.Settlement.{settle, settle_new, is_success, settled_payment}

-- After a claim no row of the session is pending.
none_pending :
    (env : Env) (h : Handover) (notes : Option String) (xs : List Handover)
    → any
        (λ x. x.id == h.id && is_pending_handover x.status)
        (update_where
          (λ x. x.id == h.id && is_pending_handover x.status)
          (confirmed_handover env notes h)
          xs)
      ≡ false
none_pending env h notes [] = refl
none_pending env h notes (x ∷ xs) = ground (arith, none_pending env h notes xs)

close_session-handovers :
    (env : Env) (v : RentalView) (h : Handover) (db : Database)
    → (close_session env v h.type db).1.handovers ≡ db.handovers
close_session-handovers env v h db = ground arith

-- A handover is confirmed at most once: right after a confirmation that succeeded, a second one of
-- the same session fails with a conflict and changes nothing, whatever copies of the rental and of
-- the session it has read before, and whenever it has read them.
pub claim_and_close-once :
    (env env' : Env) (v v' : RentalView) (h h' : Handover) (notes notes' : Option String)
    (db db' : Database) (r : Rental)
    → h'.id ≡ h.id
    → transaction (claim_and_close env v h notes) db ≡ (ok r, db')
    → transaction (claim_and_close env' v' h' notes') db'
      ≡ (err (Exception.conflict "Handover session has already been confirmed"), db')
unfolding claim_and_close
claim_and_close-once env env' v v' h h' notes notes' db db' r same done =
    ground (arith, none_pending env h notes db.handovers, close_session-handovers env v h)

find-settled_self :
    (env : Env) (t : TransactionId) (id : ℕ) (xs : List Payment) (p : Payment)
    → find (has_payment_id id) xs ≡ some p
    → find (has_payment_id id) (update_first (has_payment_id id) (settled_payment env t) xs)
      ≡ some (settled_payment env t p)
find-settled_self env t id [] p e = cc
find-settled_self env t id (x ∷ xs) p e = ground (arith, find-settled_self env t id xs p)

payment-id :
    (id : ℕ) (xs : List Payment) (p : Payment) → find (has_payment_id id) xs ≡ some p → p.id ≡ id
payment-id id [] p e = cc
payment-id id (x ∷ xs) p e = ground (arith, payment-id id xs p)

-- The row of a payment after its settlement.
find-settled :
    (env : Env) (t : TransactionId) (id : ℕ) (xs : List Payment) (p : Payment)
    → find (has_payment_id id) xs ≡ some p
    → find (has_payment_id id) (update_first (has_payment_id p.id) (settled_payment env t) xs)
      ≡ some (settled_payment env t p)
find-settled env t id xs p e =
    subst
      (λ (i : ℕ).
        find (has_payment_id id) (update_first (has_payment_id i) (settled_payment env t) xs)
        ≡ some (settled_payment env t p))
      (sym (payment-id id xs p e)) (find-settled_self env t id xs p e)

find-moved_self :
    (id : ℕ) (s : RentalStatus) (t : ℕ) (xs : List Rental) (r : Rental)
    → find (has_rental_id id) xs ≡ some r
    → find
        (has_rental_id id)
        (update_first (has_rental_id id) (λ q. record q { status = s; updated_at = t }) xs)
      ≡ some (record r { status = s; updated_at = t })
find-moved_self id s t [] r e = cc
find-moved_self id s t (x ∷ xs) r e = ground (arith, find-moved_self id s t xs r)

-- The row of a rental after its status is set.
find-moved :
    (id : ℕ) (s : RentalStatus) (t : ℕ) (xs : List Rental) (r : Rental)
    → find (has_rental_id id) xs ≡ some r
    → find
        (has_rental_id id)
        (update_first (has_rental_id r.id) (λ q. record q { status = s; updated_at = t }) xs)
      ≡ some (record r { status = s; updated_at = t })
find-moved id s t xs r e =
    subst
      (λ (i : ℕ).
        find (has_rental_id id)
          (update_first (has_rental_id i) (λ q. record q { status = s; updated_at = t }) xs)
        ≡ some (record r { status = s; updated_at = t }))
      (sym (find-id id xs r e)) (find-moved_self id s t xs r e)

-- What a new settlement writes to the payments and the rentals, and what it answers.
pub settle_new_lem :
    (env : Env) (t : TransactionId) (commission : ℕ) (p : Payment) (q : Rental) (db : Database)
    (r : Rental) (b : Bool)
    → find (has_rental_id q.id) db.rentals ≡ some q
    → (settle_new env t commission p q db).0 ≡ ok (r, b)
    → (r ≡ record q { status = RentalStatus.awaiting_signature; updated_at = env.now })
      × ((settle_new env t commission p q db).1.payments
          ≡ update_first (has_payment_id p.id) (settled_payment env t) db.payments)
      × ((settle_new env t commission p q db).1.rentals
          ≡ update_first
              (has_rental_id q.id)
              (λ x. record x { status = RentalStatus.awaiting_signature; updated_at = env.now })
              db.rentals)
unfolding settle_new
settle_new_lem env t commission p q db r b found done = ground arith

pub settle_again :
    (env : Env) (payment_id : ℕ) (t : TransactionId) (commission : ℕ) (db : Database) (p : Payment)
    (r : Rental)
    → find (has_payment_id payment_id) db.payments ≡ some p
    → find (has_rental_id p.rental_id) db.rentals ≡ some r
    → is_success p.status ≡ true
    → settle env payment_id t commission db ≡ (ok (r, false), db)
unfolding settle
settle_again env payment_id t commission db p r paid found settled = ground arith

pub settle-unfolds :
    (env : Env) (payment_id : ℕ) (t : TransactionId) (commission : ℕ) (db : Database) (p : Payment)
    (q : Rental)
    → find (has_payment_id payment_id) db.payments ≡ some p
    → find (has_rental_id p.rental_id) db.rentals ≡ some q
    → is_success p.status ≡ false
    → settle env payment_id t commission db ≡ settle_new env t commission p q db
unfolding settle
settle-unfolds env payment_id t commission db p q paid found open_ = ground arith

settle-unpaid :
    (env : Env) (payment_id : ℕ) (t : TransactionId) (commission : ℕ) (db : Database)
    (a : Rental × Bool)
    → find (has_payment_id payment_id) db.payments ≡ none
    → (settle env payment_id t commission db).0 ≢ ok a
unfolding settle
settle-unpaid env payment_id t commission db a missing = ground arith

settle-unbooked :
    (env : Env) (payment_id : ℕ) (t : TransactionId) (commission : ℕ) (db : Database)
    (a : Rental × Bool) (p : Payment)
    → find (has_payment_id payment_id) db.payments ≡ some p
    → find (has_rental_id p.rental_id) db.rentals ≡ none
    → (settle env payment_id t commission db).0 ≢ ok a
unfolding settle
settle-unbooked env payment_id t commission db a p paid missing = ground arith

-- The state after a new settlement is one that a second settlement leaves alone.
settle_new-again :
    (env env' : Env) (payment_id : ℕ) (t t' : TransactionId) (commission commission' : ℕ)
    (db : Database) (p : Payment) (q r : Rental) (b : Bool)
    → find (has_payment_id payment_id) db.payments ≡ some p
    → find (has_rental_id p.rental_id) db.rentals ≡ some q
    → (settle_new env t commission p q db).0 ≡ ok (r, b)
    → settle env' payment_id t' commission' (settle_new env t commission p q db).1
      ≡ (ok (r, false), (settle_new env t commission p q db).1)
settle_new-again env env' payment_id t t' commission commission' db p q r b paid found done =
    let (answer, payments, rentals) =
      settle_new_lem env t commission p q db r b (find_self p.rental_id db.rentals q found) done in
    settle_again env' payment_id t' commission' (settle_new env t commission p q db).1
      (settled_payment env t p) r (rw payments (find-settled env t payment_id db.payments p paid))
      (rw (rentals, answer)
        (find-moved p.rental_id RentalStatus.awaiting_signature env.now db.rentals q found))
      refl

-- A payment is settled at most once: after a settlement, a second one of the same payment, under
-- any transaction id and commission, answers the rental as it is and changes nothing.
pub settle-once :
    (env env' : Env) (payment_id : ℕ) (t t' : TransactionId) (commission commission' : ℕ)
    (db : Database) (r : Rental)
    → (settle env payment_id t commission db).0 ≡ ok (r, true)
    → settle env' payment_id t' commission' (settle env payment_id t commission db).1
      ≡ (ok (r, false), (settle env payment_id t commission db).1)
settle-once env env' payment_id t t' commission commission' db r done =
    elim (Option-cases (find (has_payment_id payment_id) db.payments)) [
      | inl missing ↦ absurd (settle-unpaid env payment_id t commission db (r, true) missing done)
      | inr (p, paid) ↦ elim (Option-cases (find (has_rental_id p.rental_id) db.rentals)) [
        | inl missing ↦
            absurd (settle-unbooked env payment_id t commission db (r, true) p paid missing done)
        | inr (q, found) ↦ elim (Bool-cases (is_success p.status)) [
          | inl settled ↦
              cc (settle_again env payment_id t commission db p q paid found settled, done)
          | inr fresh ↦
              let same = settle-unfolds env payment_id t commission db p q paid found fresh in
              rw same (
                settle_new-again env env' payment_id t t' commission commission' db p q r true paid
                  found (rw same at done))
        ]
      ]
    ]
