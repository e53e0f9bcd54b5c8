-- ===== src/Rentals/Signing.antt =====
-- RentalsService: signContract.
use borrow_hub.Common.{
  ℕ, String, Bool, true, false, ◌&&◌, ◌||◌, Option, some, List, [], ◌∷◌, ◌++◌, ◌==◌, if◌then◌else◌,
  any, update_where,
}
use borrow_hub.Schema.{
  RentalStatus, ContractStatus, SignatureMethod, NotificationType, AnalyticsEventType, Rental,
  RentalContract, ContractSignature, Reference, Effect, AuthenticatedUser, Env,
}
use borrow_hub.Store.{
  Exception, Action, pure, gets, or_raise, require, modify, when, transaction, emit, ◌>>=◌, ◌>>◌,
  update_rental, update_contract,
}
use borrow_hub.Rentals.Guards.{
  RentalView, is_owner, is_renter, find_accessible_rental, assert_status,
}
use borrow_hub.Rentals.Booking.{set_status}
use borrow_hub.Rentals.Cancellation.{others}

pub record SignContractDto : Type 0 where
  pub signature_method : SignatureMethod
  pub signature_reference : Option String
  pub device_info : Option String

abbrev pub is_awaiting_signature : RentalStatus → Bool
is_awaiting_signature RentalStatus.awaiting_signature = true
is_awaiting_signature _ = false

abbrev pub is_signature_of : (contract_id user_id : ℕ) → ContractSignature → Bool
is_signature_of contract_id user_id s = s.contract_id == contract_id && s.user_id == user_id

abbrev pub renewed_signature : Env → SignContractDto → ContractSignature → ContractSignature
renewed_signature env dto s = record s {
  signature_method = dto.signature_method;
  signed_at = env.now;
  signature_reference = dto.signature_reference;
  device_info = dto.device_info;
}

abbrev pub new_signature : Env → SignContractDto → (contract_id user_id : ℕ) → ContractSignature
new_signature env dto contract_id user_id = record {
  id = env.new_id 0;
  contract_id = contract_id;
  user_id = user_id;
  signature_method = dto.signature_method;
  signed_at = env.now;
  signature_reference = dto.signature_reference;
  device_info = dto.device_info;
}

-- `contractSignature.upsert`
abbrev pub upsert_signature :
    Env
    → SignContractDto
    → (contract_id user_id : ℕ) → List ContractSignature
    → List ContractSignature
upsert_signature env dto contract_id user_id signatures =
    if any (is_signature_of contract_id user_id) signatures
    then update_where (is_signature_of contract_id user_id) (renewed_signature env dto) signatures
    else signatures ++ new_signature env dto contract_id user_id ∷ []

abbrev pub sign : Env → SignContractDto → (contract_id user_id : ℕ) → Action (Unit {0})
sign env dto contract_id user_id =
    modify
      (λ db. record db { signatures = upsert_signature env dto contract_id user_id db.signatures })

-- Whether the contract has a signature of each party.
abbrev pub is_signed_by_both : (contract_id : ℕ) → Rental → List ContractSignature → Bool
is_signed_by_both contract_id r signatures =
    any (is_signature_of contract_id r.owner_id) signatures
    && any (is_signature_of contract_id r.renter_id) signatures

abbrev pub activate : Env → RentalContract → RentalContract
activate env c = record c { status = ContractStatus.active; activated_at = some env.now }

-- The transaction of `signContract`.
unfoldable pub apply_signatures :
    Env → RentalView → RentalContract → (both_signed : Bool) → Action Rental
apply_signatures env rental contract both_signed = do
  when both_signed (update_contract contract.id (activate env))
  update_rental env rental.id
      (set_status (if both_signed then RentalStatus.confirmed else RentalStatus.awaiting_signature))

unfoldable pub sign_contract :
    Env → AuthenticatedUser → (rental_id : ℕ) → SignContractDto → Action Rental
sign_contract env u rental_id dto = do
  rental ← find_accessible_rental rental_id u
  require (is_owner rental.rental u || is_renter rental.rental u)
      (Exception.forbidden "You cannot sign this contract")
  assert_status rental.status is_awaiting_signature
  contract ← or_raise rental.contract (Exception.conflict "Rental contract has not been generated")
  sign env dto contract.id u.id
  both_signed ← gets (λ db. is_signed_by_both contract.id rental.rental db.signatures)
  updated ← transaction (apply_signatures env rental contract both_signed)
  emit (
      Effect.notify (others rental.rental u)
        (if both_signed
          then NotificationType.rental_confirmed
          else NotificationType.contract_signed)
        (Reference.rental rental.id))
  emit (Effect.chat_message rental.id u.id)
  emit (Effect.track AnalyticsEventType.contract_signed u.id (Reference.contract contract.id))
  pure updated
