-- ===== src/Rentals/Results/Settlement.antt =====
-- The money of a settlement.

use borrow_hub.Common.{
  ℕ, Bool, ◌≡◌, refl, some, List, [], ◌∷◌, ◌++◌, arith, ◌==◌, find, any, update_where, Option, none,
  if◌then◌else◌, inl, inr, Bool-cases,
}
use borrow_hub.Common.Int.{pos, ◌+ℤ◌, sub_ℕ}
use borrow_hub.Schema.{
  RentalStatus, PayoutStatus, Rental, Payment, Payout, TransactionId, Database, Env,
}
use borrow_hub.Store.{ok}
use borrow_hub.Rentals.Settlement.{settle_new, settled_payout, new_payout}

abbrev payout_of : ℕ → Payout → Bool
payout_of rental_id x = x.rental_id == rental_id

-- Who the payout of a rental is for: it keeps who it was for, and a new one is for the owner.
abbrev payee : Option Payout → (owner_id : ℕ) → ℕ
payee none owner_id = owner_id
payee (some x) owner_id = x.owner_id

upserted-payout :
    (env : Env) (q : Rental) (c : ℕ) (xs : List Payout)
    → (x : Payout) × (find (payout_of q.id) (
          if any (payout_of q.id) xs
          then update_where (payout_of q.id) (settled_payout q c) xs
          else xs ++ new_payout env q c ∷ [])
        ≡ some x)
      × (x.gross_amount ≡ q.rental_fee)
      × (x.commission_amount ≡ c)
      × (x.net_amount ≡ sub_ℕ q.rental_fee c)
      × (x.status ≡ PayoutStatus.pending)
      × (x.owner_id ≡ payee (find (payout_of q.id) xs) q.owner_id)
upserted-payout env q c [] = (new_payout env q c, ground arith, refl, refl, refl, refl, refl)
upserted-payout env q c (y ∷ ys) = elim (Bool-cases (payout_of q.id y)) [
  | inl hit ↦ (settled_payout q c y, ground arith, refl, refl, refl, refl, rw hit refl)
  | inr miss ↦
      let (x, at, g, k, n, s, o) = upserted-payout env q c ys in
      (x, ground (arith, miss, at), g, k, n, s, rw miss o)
]

net-commission : (fee c : ℕ) → sub_ℕ fee c +ℤ pos c ≡ pos fee
unfolding ◌+ℤ◌
net-commission fee c = ground arith

settle_new-payouts :
    (env : Env) (t : TransactionId) (c : ℕ) (p : Payment) (q : Rental) (db : Database) (r : Rental)
    (b : Bool)
    → (settle_new env t c p q db).0 ≡ ok (r, b)
    → (p.payer_id ≡ q.renter_id)
      × (p.amount ≡ q.total_amount)
      × (q.status ≡ RentalStatus.awaiting_payment)
      × ((settle_new env t c p q db).1.payouts ≡ (
          if any (payout_of q.id) db.payouts
          then update_where (payout_of q.id) (settled_payout q c) db.payouts
          else db.payouts ++ new_payout env q c ∷ []))
unfolding settle_new
settle_new-payouts env t c p q db r b done = ground arith

-- A payment is settled only by the renter's payment of the exact balance of a rental that awaits
-- it. The rental then has a pending payout, to its owner if it had none before, and else to the
-- user whom it was for; what that user gets and the commission make up the rental fee.
pub settle_new-balances :
    (env : Env) (t : TransactionId) (c : ℕ) (p : Payment) (q : Rental) (db : Database) (r : Rental)
    (b : Bool)
    → (settle_new env t c p q db).0 ≡ ok (r, b)
    → (p.payer_id ≡ q.renter_id)
      × (p.amount ≡ q.total_amount)
      × (q.status ≡ RentalStatus.awaiting_payment)
      × ((x : Payout) × (find
              (λ (y : Payout). y.rental_id == q.id)
              (settle_new env t c p q db).1.payouts
            ≡ some x)
          × (x.status ≡ PayoutStatus.pending)
          × (x.owner_id ≡ payee (find (λ (y : Payout). y.rental_id == q.id) db.payouts) q.owner_id)
          × (x.gross_amount ≡ q.rental_fee)
          × (x.net_amount +ℤ pos x.commission_amount ≡ pos x.gross_amount))
settle_new-balances env t c p q db r b done =
    let (payer, amount, status, payouts) = settle_new-payouts env t c p q db r b done in
    let (x, at, g, k, n, s, o) = upserted-payout env q c db.payouts in
    (
      payer,
      amount,
      status,
      (x, rw payouts at, s, o, g, rw (n, k, g) (net-commission q.rental_fee c)),
    )
