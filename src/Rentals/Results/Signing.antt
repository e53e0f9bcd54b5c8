-- ===== src/Rentals/Results/Signing.antt =====
-- What a signature does.
use borrow_hub.Common.{
  ℕ, Bool, true, ◌≡◌, some, List, [], ◌∷◌, ◌++◌, arith, ◌==◌, any, find, update_where,
  if◌then◌else◌,
}
use borrow_hub.Schema.{
  RentalStatus, Rental, RentalContract, ContractSignature, Database, AuthenticatedUser, Env,
}
use borrow_hub.Store.{ok, find_rental}
use borrow_hub.Rentals.Guards.{RentalView, rental_include}
use borrow_hub.Rentals.Signing.{
  SignContractDto, is_signature_of, is_signed_by_both, upsert_signature, new_signature,
  renewed_signature, apply_signatures, sign_contract,
}

any-renewed :
    (env : Env) (dto : SignContractDto) (c user : ℕ) (xs : List ContractSignature)
    → any (is_signature_of c user) xs ≡ true
    → any
        (is_signature_of c user)
        (update_where (is_signature_of c user) (renewed_signature env dto) xs)
      ≡ true
any-renewed env dto c user [] h = cc
any-renewed env dto c user (x ∷ xs) h = ground (arith, any-renewed env dto c user xs)

any-added :
    (env : Env) (dto : SignContractDto) (c user : ℕ) (xs : List ContractSignature)
    → any (is_signature_of c user) (xs ++ new_signature env dto c user ∷ []) ≡ true
any-added env dto c user [] = ground arith
any-added env dto c user (x ∷ xs) = ground (arith, any-added env dto c user xs)

-- After the upsert the contract has a signature of the user.
any-upsert_signature :
    (env : Env) (dto : SignContractDto) (c user : ℕ) (xs : List ContractSignature)
    → any (is_signature_of c user) (upsert_signature env dto c user xs) ≡ true
any-upsert_signature env dto c user xs =
    ground (arith, any-renewed env dto c user xs, any-added env dto c user xs)

apply_signatures_lem :
    (env : Env) (v : RentalView) (c : RentalContract) (both : Bool) (db : Database) (r : Rental)
    → (apply_signatures env v c both db).0 ≡ ok r
    → (r.status ≡ (if both then RentalStatus.confirmed else RentalStatus.awaiting_signature))
      × ((apply_signatures env v c both db).1.signatures ≡ db.signatures)
unfolding apply_signatures
apply_signatures_lem env v c both db r done = ground arith

-- A signature that is accepted is on the contract afterwards, and the rental is confirmed exactly
-- if the contract then has a signature of the owner and one of the renter; otherwise it goes on
-- waiting for signatures.
pub sign_contract_lem :
    (env : Env) (u : AuthenticatedUser) (id : ℕ) (dto : SignContractDto) (db : Database)
    (q r : Rental) (c : RentalContract)
    → find_rental id db ≡ some q
    → find (λ (x : RentalContract). x.rental_id == q.id) db.contracts ≡ some c
    → (sign_contract env u id dto db).0 ≡ ok r
    → (any (is_signature_of c.id u.id) (sign_contract env u id dto db).1.signatures ≡ true)
      × (r.status ≡ (
          if is_signed_by_both c.id q (sign_contract env u id dto db).1.signatures
          then RentalStatus.confirmed
          else RentalStatus.awaiting_signature))
unfolding sign_contract
sign_contract_lem env u id dto db q r c found contract done =
    let signed = upsert_signature env dto c.id u.id db.signatures in
    let both = is_signed_by_both c.id q signed in
    ground (
      arith,
      found,
      contract,
      any-upsert_signature env dto c.id u.id db.signatures,
      apply_signatures_lem env (rental_include db q) c both (record db { signatures = signed }) r,
    )
