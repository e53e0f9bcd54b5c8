-- ===== src/Schema/Rows.antt =====
-- The rows of the tables that the services read and write. Times are milliseconds since the epoch,
-- money is whole units of the currency (`Int` columns). Columns that no modelled operation reads or
-- writes are left out (JSON metadata, device data, file keys).
use borrow_hub.Common.{ℕ, String, Option, List}
use borrow_hub.Common.Int.{ℤ}
use borrow_hub.Schema.Enums.{
  UserStatus, AvailabilityType, RentalStatus, ContractStatus, SignatureMethod, PaymentProvider,
  PaymentStatus, RefundStatus, PayoutStatus, HandoverType, HandoverStatus, EvidenceType,
  DisputeStatus, DisputeEventType, RoleName, VerificationStatus, ReviewStatus, RiskLevel,
  RiskTargetType, RiskIncidentStatus, NotificationType,
}

pub data Reference : Type 0 where
  rental payment payout dispute refund handover evidence contract qr_session review : ℕ → Reference
  asset support_ticket report user message : ℕ → Reference

pub record UserRow : Type 0 where
  pub id : ℕ
  pub full_name : String
  pub status : UserStatus
  pub trust_score : ℤ
  -- the names of its roles, and the status of its verification if it has one
  pub roles : List RoleName
  pub verification : Option VerificationStatus
  pub created_at : ℕ

pub record AssetAvailability : Type 0 where
  pub asset_id : ℕ
  pub start_at : ℕ
  pub end_at : ℕ
  pub availability_type : AvailabilityType

pub record Rental : Type 0 where
  pub id : ℕ
  pub asset_id : ℕ
  pub owner_id : ℕ
  pub renter_id : ℕ
  pub start_at : ℕ
  pub end_at : ℕ
  pub delivery_method : Option String
  pub message : Option String
  pub currency : String
  pub rental_fee : ℕ
  pub service_fee : ℕ
  pub delivery_fee : ℕ
  pub late_fee : ℕ
  pub total_amount : ℕ
  pub status : RentalStatus
  pub updated_at : ℕ

-- The text of a payment's `providerTransactionId`, by the prefix that it was built with.
pub data TransactionId : Type 0 where
  intent : PaymentProvider → List ℕ → TransactionId
  sandbox : String → TransactionId
  demo_scan : ℕ → TransactionId
  sepay : ℕ → TransactionId
  review_sepay : ℕ → TransactionId

pub record Payment : Type 0 where
  pub id : ℕ
  pub rental_id : ℕ
  pub payer_id : ℕ
  pub provider : PaymentProvider
  pub provider_transaction_id : TransactionId
  pub amount : ℕ
  pub currency : String
  pub status : PaymentStatus
  pub paid_at : Option ℕ

pub record Refund : Type 0 where
  pub id : ℕ
  pub payment_id : ℕ
  pub amount : ℕ
  pub reason : String
  pub status : RefundStatus
  pub completed_at : Option ℕ

pub record Payout : Type 0 where
  pub id : ℕ
  pub rental_id : ℕ
  pub owner_id : ℕ
  pub gross_amount : ℕ
  pub commission_amount : ℕ
  pub net_amount : ℤ
  pub status : PayoutStatus
  pub paid_at : Option ℕ

-- `BH-<yyyymmdd>-<suffix>`.
pub record ContractNumber : Type 0 where
  pub date : ℕ × ℕ × ℕ
  pub suffix : List ℕ

-- A party of a contract, as the contract names it.
pub record Party : Type 0 where
  pub id : ℕ
  pub full_name : String

-- The JSON object that the content hash is taken of.
pub record ContractSnapshot : Type 0 where
  pub owner : Option Party
  pub renter : Option Party
  pub asset_id : ℕ
  pub title : Option String
  pub serial_number : Option String
  pub price_per_day : Option ℕ
  pub start_at : ℕ
  pub end_at : ℕ
  pub rental_fee : ℕ
  pub service_fee : ℕ
  pub delivery_fee : ℕ
  pub total_amount : ℕ

pub record RentalContract : Type 0 where
  pub id : ℕ
  pub rental_id : ℕ
  pub contract_number : ContractNumber
  pub version : ℕ
  pub snapshot : ContractSnapshot
  pub content_hash : String
  pub status : ContractStatus
  pub activated_at : Option ℕ

pub record ContractSignature : Type 0 where
  pub id : ℕ
  pub contract_id : ℕ
  pub user_id : ℕ
  pub signature_method : SignatureMethod
  pub signed_at : ℕ
  pub signature_reference : Option String
  pub device_info : Option String

pub record HandoverItem : Type 0 where
  pub accessory_name : String
  pub expected_quantity : ℕ
  pub actual_quantity : ℕ
  pub condition : Option String
  pub note : Option String

pub record Handover : Type 0 where
  pub id : ℕ
  pub rental_id : ℕ
  pub type : HandoverType
  pub status : HandoverStatus
  pub notes : Option String
  pub items : List HandoverItem
  pub confirmed_at : Option ℕ

pub record HandoverQrSession : Type 0 where
  pub id : ℕ
  pub rental_id : ℕ
  pub handover_id : ℕ
  pub generated_by_id : ℕ
  pub token : String
  pub expires_at : ℕ
  pub used_at : Option ℕ

pub record Evidence : Type 0 where
  pub id : ℕ
  pub rental_id : ℕ
  pub handover_id : Option ℕ
  pub uploaded_by : ℕ
  pub type : EvidenceType
  pub file_url : String
  pub description : Option String
  pub tag : Option String

pub record DisputeEvent : Type 0 where
  pub actor_id : ℕ
  pub event_type : DisputeEventType

pub record Dispute : Type 0 where
  pub id : ℕ
  pub rental_id : ℕ
  pub opened_by_id : ℕ
  pub reason : String
  pub description : String
  pub status : DisputeStatus
  pub events : List DisputeEvent
  pub evidence_ids : List ℕ
  pub assigned_to_id : Option ℕ
  pub resolution_summary : Option String
  pub resolved_at : Option ℕ

pub record Review : Type 0 where
  pub id : ℕ
  pub rental_id : ℕ
  pub reviewer_id : ℕ
  pub reviewee_id : ℕ
  pub rating : ℕ
  pub comment : Option String
  pub status : ReviewStatus
  pub created_at : ℕ

pub record RiskIncident : Type 0 where
  pub target_type : RiskTargetType
  pub target_id : ℕ
  pub level : RiskLevel
  pub reason : String
  pub status : RiskIncidentStatus

pub record Notification : Type 0 where
  pub id : ℕ
  pub user_id : ℕ
  pub type : NotificationType
  -- `referenceType` and `referenceId`
  pub reference : Reference
  pub created_at : ℕ
  pub read_at : Option ℕ
