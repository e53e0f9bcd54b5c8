-- ===== src/Rentals/Settlement/Rows.antt =====
-- RentalsService: the rows that a settlement writes, and the contract that it draws up.
use text.Mathlib.Text.{◌==◌ as str_eq}
use borrow_hub.Common.{
  Option, ℕ, Bool, true, false, not, ◌&&◌, none, some, [], ◌∷◌, ◌++◌, ◌==◌, if◌then◌else◌, any,
  update_where,
}
use borrow_hub.Common.Int.{sub_ℕ}
use borrow_hub.Schema.{
  UserRow, Party, PaymentStatus, PayoutStatus, ContractStatus, TransactionId, Payment, Payout,
  Rental, RentalContract, ContractNumber, ContractSnapshot, ConfigKey, Env,
}
use borrow_hub.Store.{Exception, Action, pure, ok, err, ◌>>=◌, update_payment}
use borrow_hub.Rentals.Guards.{RentalView, get_numeric_config}
use borrow_hub.Rentals.Booking.{round_percent}
use borrow_hub.Rentals.Intent.{id_suffix, same_codes, same_provider}

-- getOwnerCommissionAmount
abbrev pub get_owner_commission_amount : ℕ → Action ℕ
get_owner_commission_amount rental_fee = do
  percent ← get_numeric_config ConfigKey.owner_commission_percent 10
  pure (round_percent rental_fee percent)

abbrev pub party_of : Option UserRow → Option Party
party_of none = none
party_of (some u) = some (record { id = u.id; full_name = u.full_name })

-- buildContractSnapshot
unfoldable pub build_contract_snapshot : RentalView → ContractSnapshot
build_contract_snapshot rental = record {
  owner = party_of rental.owner;
  renter = party_of rental.renter;
  asset_id = rental.asset_id;
  title = elim rental.asset [ none ↦ none | some a ↦ some a.title ];
  serial_number = elim rental.asset [ none ↦ none | some a ↦ a.serial_number ];
  price_per_day = elim rental.asset [ none ↦ none | some a ↦ some a.price_per_day ];
  start_at = rental.start_at;
  end_at = rental.end_at;
  rental_fee = rental.rental_fee;
  service_fee = rental.service_fee;
  delivery_fee = rental.delivery_fee;
  total_amount = rental.total_amount;
}

-- generateContractNumber
unfoldable pub generate_contract_number : Env → (rental_id : ℕ) → ContractNumber
generate_contract_number env rental_id = record {
  date = env.utc_date;
  suffix = id_suffix 10 (env.id_text rental_id);
}

abbrev pub same_number : ContractNumber → ContractNumber → Bool
same_number a b =
    a.date.0 == b.date.0
    && a.date.1 == b.date.1
    && a.date.2 == b.date.2
    && same_codes a.suffix b.suffix

abbrev pub same_transaction : TransactionId → TransactionId → Bool
same_transaction (TransactionId.intent p c) (TransactionId.intent q d) =
    same_provider p q && same_codes c d
same_transaction (TransactionId.sandbox s) (TransactionId.sandbox t) = str_eq s t
same_transaction (TransactionId.demo_scan a) (TransactionId.demo_scan b) = a == b
same_transaction (TransactionId.sepay a) (TransactionId.sepay b) = a == b
same_transaction (TransactionId.review_sepay a) (TransactionId.review_sepay b) = a == b
same_transaction _ _ = false

-- `payment.update` with a new transaction id, which is unique.
abbrev pub set_transaction : ℕ → TransactionId → (Payment → Payment) → Action (Unit {0})
set_transaction payment_id transaction_id f db =
    if any
      (λ q. not (q.id == payment_id) && same_transaction q.provider_transaction_id transaction_id)
      db.payments
    then (err Exception.unique_violation, db)
    else update_payment payment_id f db

-- `payout.upsert({ where: { rentalId } })`
abbrev pub upsert_payout : (rental_id : ℕ) → (Payout → Payout) → Payout → Action (Unit {0})
upsert_payout rental_id update create db =
    let is_for = λ (p : Payout). p.rental_id == rental_id in
    (
      ok tt,
      record db {
        payouts =
            if any is_for db.payouts
            then update_where is_for update db.payouts
            else db.payouts ++ create ∷ [];
      },
    )

-- `rentalContract.upsert({ where: { rentalId } })`; `contractNumber` is unique.
abbrev pub upsert_contract :
    (rental_id : ℕ) → (RentalContract → RentalContract) → RentalContract → Action (Unit {0})
upsert_contract rental_id update create db =
    let is_for = λ (c : RentalContract). c.rental_id == rental_id in
    if any (λ c. not (is_for c) && same_number c.contract_number create.contract_number)
      db.contracts
    then (err Exception.unique_violation, db)
    else (
      ok tt,
      record db {
        contracts =
            if any is_for db.contracts
            then update_where is_for update db.contracts
            else db.contracts ++ create ∷ [];
      },
    )

abbrev pub is_success : PaymentStatus → Bool
is_success PaymentStatus.success = true
is_success _ = false

abbrev pub matches_balance : Payment → Rental → Bool
matches_balance p r =
    p.payer_id == r.renter_id && p.amount == r.total_amount && str_eq p.currency r.currency

abbrev pub settled_payment : Env → TransactionId → Payment → Payment
settled_payment env transaction_id p = record p {
  provider_transaction_id = transaction_id;
  status = PaymentStatus.success;
  paid_at = some env.now;
}

abbrev pub settled_payout : Rental → (commission : ℕ) → Payout → Payout
settled_payout rental commission p = record p {
  gross_amount = rental.rental_fee;
  commission_amount = commission;
  net_amount = sub_ℕ rental.rental_fee commission;
  status = PayoutStatus.pending;
}

abbrev pub new_payout : Env → Rental → (commission : ℕ) → Payout
new_payout env rental commission = record {
  id = env.new_id 0;
  rental_id = rental.id;
  owner_id = rental.owner_id;
  gross_amount = rental.rental_fee;
  commission_amount = commission;
  net_amount = sub_ℕ rental.rental_fee commission;
  status = PayoutStatus.pending;
  paid_at = none;
}

abbrev pub new_contract : Env → RentalView → RentalContract
new_contract env rental = record {
  id = env.new_id 1;
  rental_id = rental.id;
  contract_number = generate_contract_number env rental.id;
  version = 1;
  snapshot = build_contract_snapshot rental;
  content_hash = env.sha256 (build_contract_snapshot rental);
  status = ContractStatus.pending_signature;
  activated_at = none;
}

abbrev pub renewed_contract : Env → RentalView → RentalContract → RentalContract
renewed_contract env rental c = record c {
  contract_number = generate_contract_number env rental.id;
  version = 1;
  snapshot = build_contract_snapshot rental;
  content_hash = env.sha256 (build_contract_snapshot rental);
  status = ContractStatus.pending_signature;
}
