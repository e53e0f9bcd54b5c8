-- ===== src/Store/Queries.antt =====
-- The Prisma calls that change a table, by what their documentation says: `update` changes the row
-- with the given unique key and throws P2025 if there is none, `create` throws P2002 if a unique
-- index would be violated. `@updatedAt` columns take the time of the change.
use borrow_hub.Common.{
  ℕ, Bool, true, false, Option, none, some, [], ◌∷◌, ◌++◌, ◌&&◌, ◌==◌, if◌then◌else◌, find, any,
  update_where, update_first,
}
use borrow_hub.Schema.{
  DisputeStatus, Rental, Payment, Payout, RentalContract, Handover, HandoverQrSession, Dispute,
  UserRow, Database, Env,
}
use borrow_hub.Store.Monad.{Exception, ok, err, Action}

abbrev pub has_rental_id : ℕ → Rental → Bool
has_rental_id id r = r.id == id

abbrev pub find_rental : ℕ → Database → Option Rental
find_rental id db = find (has_rental_id id) db.rentals

abbrev pub touch : Env → (Rental → Rental) → Rental → Rental
touch env f r = record (f r) { updated_at = env.now }

-- `rentalRequest.updateMany`
abbrev pub update_rentals : Env → (Rental → Bool) → (Rental → Rental) → Database → Database
update_rentals env p f db = record db { rentals = update_where p (touch env f) db.rentals }

abbrev pub update_found : Env → ℕ → (Rental → Rental) → Option Rental → Action Rental
update_found env id f none db = (err Exception.record_missing, db)
update_found env id f (some r) db = (
  ok (touch env f r),
  record db { rentals = update_first (has_rental_id id) (touch env f) db.rentals },
)

-- `rentalRequest.update({ where: { id } })`
abbrev pub update_rental : Env → ℕ → (Rental → Rental) → Action Rental
update_rental env id f db = update_found env id f (find_rental id db) db

-- `rentalRequest.create`
abbrev pub create_rental : Rental → Action Rental
create_rental r db =
    if any (has_rental_id r.id) db.rentals
    then (err Exception.unique_violation, db)
    else (ok r, record db { rentals = db.rentals ++ r ∷ [] })

abbrev pub has_payment_id : ℕ → Payment → Bool
has_payment_id id p = p.id == id

abbrev pub find_payment : ℕ → Database → Option Payment
find_payment id db = find (has_payment_id id) db.payments

-- `payment.update({ where: { id } })`
abbrev pub update_payment : ℕ → (Payment → Payment) → Action (Unit {0})
update_payment id f db =
    if any (has_payment_id id) db.payments
    then (ok tt, record db { payments = update_first (has_payment_id id) f db.payments })
    else (err Exception.record_missing, db)

abbrev pub has_payout_id : ℕ → Payout → Bool
has_payout_id id p = p.id == id

-- `payout.update({ where: { id } })`
abbrev pub update_payout : ℕ → (Payout → Payout) → Action (Unit {0})
update_payout id f db =
    if any (has_payout_id id) db.payouts
    then (ok tt, record db { payouts = update_first (has_payout_id id) f db.payouts })
    else (err Exception.record_missing, db)

abbrev pub has_contract_id : ℕ → RentalContract → Bool
has_contract_id id c = c.id == id

-- `rentalContract.update({ where: { id } })`
abbrev pub update_contract : ℕ → (RentalContract → RentalContract) → Action (Unit {0})
update_contract id f db =
    if any (has_contract_id id) db.contracts
    then (ok tt, record db { contracts = update_first (has_contract_id id) f db.contracts })
    else (err Exception.record_missing, db)

abbrev pub has_user_id : ℕ → UserRow → Bool
has_user_id id u = u.id == id

-- `user.update({ where: { id } })`
abbrev pub update_user : ℕ → (UserRow → UserRow) → Action (Unit {0})
update_user id f db =
    if any (has_user_id id) db.users
    then (ok tt, record db { users = update_first (has_user_id id) f db.users })
    else (err Exception.record_missing, db)

abbrev pub has_session_id : ℕ → HandoverQrSession → Bool
has_session_id id s = s.id == id

-- `handoverQrSession.update({ where: { id } })`
abbrev pub update_session : ℕ → (HandoverQrSession → HandoverQrSession) → Action (Unit {0})
update_session id f db =
    if any (has_session_id id) db.qr_sessions
    then (ok tt, record db { qr_sessions = update_first (has_session_id id) f db.qr_sessions })
    else (err Exception.record_missing, db)

-- `updateMany` with its count: whether a row passes the test, and the rows after.
abbrev pub claim_handovers : (Handover → Bool) → (Handover → Handover) → Action Bool
claim_handovers p f db =
    (ok (any p db.handovers), record db { handovers = update_where p f db.handovers })

abbrev pub claim_sessions :
    (HandoverQrSession → Bool) → (HandoverQrSession → HandoverQrSession) → Action Bool
claim_sessions p f db =
    (ok (any p db.qr_sessions), record db { qr_sessions = update_where p f db.qr_sessions })

abbrev pub is_active_status : DisputeStatus → Bool
is_active_status DisputeStatus.opened = true
is_active_status DisputeStatus.waiting_response = true
is_active_status DisputeStatus.under_review = true
is_active_status _ = false

-- An active dispute of the rental: what the index `disputes_one_active_per_rental_idx` counts.
abbrev pub is_active_dispute_of : ℕ → Dispute → Bool
is_active_dispute_of rental_id d = d.rental_id == rental_id && is_active_status d.status

-- `dispute.create`
abbrev pub create_dispute : Dispute → Action Dispute
create_dispute d db =
    if is_active_status d.status && any (is_active_dispute_of d.rental_id) db.disputes
    then (err Exception.unique_violation, db)
    else (ok d, record db { disputes = db.disputes ++ d ∷ [] })
