-- ===== src/Finance/Results.antt =====
-- What FinanceService does to payouts when it succeeds.
use borrow_hub.Common.{
  ℕ, true, false, ◌≡◌, ◌==◌, some, List, [], ◌∷◌, arith, find, any, update_first, inl, inr,
  Option-cases,
}
use borrow_hub.Schema.{
  RentalStatus, PayoutStatus, RefundStatus, Rental, Payment, Refund, Payout, Database,
  AuthenticatedUser, Env,
}
use borrow_hub.Store.{ok, find_rental, find_payment, has_payout_id}
use borrow_hub.Finance.Refunds.{
  is_finance_manager, has_refund_id, is_pending_refund, is_completed_refund, other_reserved,
  resolve_refund, settle_refund, drop_refund,
}
use borrow_hub.Finance.Payouts.{update_payout_status, with_status, is_payable}

-- With the payout and the rental given.
update_payout_status-at :
    (env : Env) (u : AuthenticatedUser) (id : ℕ) (db : Database) (x p : Payout) (q : Rental)
    → find (has_payout_id id) db.payouts ≡ some p
    → find_rental p.rental_id db ≡ some q
    → (update_payout_status env u id PayoutStatus.paid db).0 ≡ ok x
    → (is_finance_manager u ≡ true)
      × (is_payable p.status ≡ true)
      × (x ≡ with_status env PayoutStatus.paid p)
      × (q.status ≡ RentalStatus.completed)
unfolding update_payout_status
update_payout_status-at env u id db x p q found booked done = ground (arith, found, booked)

update_payout_status_lem :
    (env : Env) (u : AuthenticatedUser) (id : ℕ) (db : Database) (x : Payout)
    → (update_payout_status env u id PayoutStatus.paid db).0 ≡ ok x
    → (p : Payout) × (q : Rental) × (find (has_payout_id id) db.payouts ≡ some p)
      × (find_rental p.rental_id db ≡ some q)
unfolding update_payout_status
update_payout_status_lem env u id db x done =
    elim (Option-cases (find (has_payout_id id) db.payouts)) [
      | inl missing ↦ absurd (ground (arith, missing, done))
      | inr (p, found) ↦ elim (Option-cases (find_rental p.rental_id db)) [
        | inl missing ↦ absurd (ground (arith, found, missing, done))
        | inr (q, booked) ↦ (p, q, found, booked)
      ]
    ]

-- A payout is marked as paid only by a finance manager, only if it was pending or paid before, and
-- only if its rental is completed.
pub update_payout_status-paid :
    (env : Env) (u : AuthenticatedUser) (id : ℕ) (db : Database) (x : Payout)
    → (update_payout_status env u id PayoutStatus.paid db).0 ≡ ok x
    → (p : Payout) × (q : Rental) × (find (has_payout_id id) db.payouts ≡ some p)
      × (find_rental p.rental_id db ≡ some q)
      × (is_finance_manager u ≡ true)
      × (is_payable p.status ≡ true)
      × (x ≡ with_status env PayoutStatus.paid p)
      × (q.status ≡ RentalStatus.completed)
update_payout_status-paid env u id db x done =
    let (p, q, found, booked) = update_payout_status_lem env u id db x done in
    let (manager, payable, same, completed) =
      update_payout_status-at env u id db x p q found booked done in
    (p, q, found, booked, manager, payable, same, completed)

find-reopened :
    (id : ℕ) (xs : List Payout) (x : Payout)
    → find (has_payout_id id) xs ≡ some x
    → find
        (has_payout_id id)
        (update_first (has_payout_id id) (λ p. record p { status = PayoutStatus.pending }) xs)
      ≡ some (record x { status = PayoutStatus.pending })
find-reopened id [] x e = cc
find-reopened id (y ∷ ys) x e = ground (arith, find-reopened id ys x)

any-payout :
    (id : ℕ) (xs : List Payout) (x : Payout)
    → find (has_payout_id id) xs ≡ some x
    → any (has_payout_id id) xs ≡ true
any-payout id [] x e = cc
any-payout id (y ∷ ys) x e = ground (arith, any-payout id ys x)

settle_refund-reopens :
    (env : Env) (r : Refund) (p : Payment) (x : Payout) (s : RefundStatus) (db : Database)
    → any (has_refund_id r.id) db.refunds ≡ true
    → find (has_payout_id x.id) db.payouts ≡ some x
    → is_completed_refund s ≡ false
    → other_reserved p r db ≡ false
    → find (has_payout_id x.id) (settle_refund env r p (some x) s db).1.payouts
      ≡ some (record x { status = PayoutStatus.pending })
unfolding settle_refund drop_refund
settle_refund-reopens env r p x s db known payout failed alone = ground (
  arith,
  known,
  failed,
  alone,
  any-payout x.id db.payouts x payout,
  find-reopened x.id db.payouts x payout,
)

any-refund :
    (id : ℕ) (xs : List Refund) (r : Refund)
    → find (has_refund_id id) xs ≡ some r
    → any (has_refund_id r.id) xs ≡ true
any-refund id [] r e = cc
any-refund id (y ∷ ys) r e = ground (arith, any-refund id ys r)

-- When a pending refund gets another status than completed, and no other refund of its payment is
-- pending or completed, then the payout of the rental is pending, whatever its status was.
pub resolve_refund-reopens :
    (env : Env) (refund_id : ℕ) (s : RefundStatus) (db : Database) (r : Refund) (p : Payment)
    (q : Rental) (x : Payout)
    → find (has_refund_id refund_id) db.refunds ≡ some r
    → find_payment r.payment_id db ≡ some p
    → find_rental p.rental_id db ≡ some q
    → find (λ (y : Payout). y.rental_id == q.id) db.payouts ≡ some x
    → find (has_payout_id x.id) db.payouts ≡ some x
    → is_pending_refund r.status ≡ true
    → is_completed_refund s ≡ false
    → other_reserved p r db ≡ false
    → find (has_payout_id x.id) (resolve_refund env refund_id s db).1.payouts
      ≡ some (record x { status = PayoutStatus.pending })
unfolding resolve_refund
resolve_refund-reopens env refund_id s db r p q x found paid booked payout key open_ failed alone =
    ground (
      arith,
      found,
      paid,
      booked,
      payout,
      settle_refund-reopens env r p x s db (any-refund refund_id db.refunds r found) key failed
          alone,
    )
