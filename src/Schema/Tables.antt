-- ===== src/Schema/Tables.antt =====
-- The tables together, the signed-in user, and what a request reads from outside the code.
use borrow_hub.Common.{ℕ, String, Bool, Option, List}
use borrow_hub.Schema.Enums.{RoleName, VerificationStatus, NotificationType, AnalyticsEventType}
use borrow_hub.Schema.Rows.{
  UserRow, AssetAvailability, Rental, Payment, Refund, Payout, ContractSnapshot, RentalContract,
  ContractSignature, Handover, HandoverQrSession, Evidence, Dispute, Review, RiskIncident,
  Notification, Reference,
}
use borrow_hub.Schema.Listings.{Asset, Category}
use borrow_hub.Schema.Support.{SupportTicket, Message, Report}

-- The keys of `system_configs` that the services look up.
pub data ConfigKey : Type 0 where
  payment_window_minutes platform_fee_percent owner_commission_percent : ConfigKey
  owner_cancel_trust_penalty renter_cancel_full_refund_hours : ConfigKey
  renter_cancel_partial_refund_percent late_fee_rate review_edit_hours : ConfigKey

-- The calls of the sibling services, in order. The texts of the messages are left out.
pub data Effect : Type 0 where
  notify : List ℕ → NotificationType → Reference → Effect
  audit : Option ℕ → String → Reference → Effect
  track : AnalyticsEventType → ℕ → Reference → Effect
  -- the same for a visitor who may not be signed in, of an entity that may be missing
  track_visit : AnalyticsEventType → (user_id : Option ℕ) → Option Reference → Effect
  chat_message : (rental_id : ℕ) → (sender_id : ℕ) → Effect
  assess_rental_creation : (rental_id : ℕ) → Effect
  assess_asset_submission : (asset_id : ℕ) → Effect
  assess_cancellation_pattern : (rental_id : ℕ) → (user_id : ℕ) → Effect
  recalculate_user_trust_score : (user_id : ℕ) → Effect

pub record Database : Type 0 where
  pub users : List UserRow
  pub assets : List Asset
  pub categories : List Category
  pub availability : List AssetAvailability
  pub rentals : List Rental
  pub payments : List Payment
  pub refunds : List Refund
  pub payouts : List Payout
  pub contracts : List RentalContract
  pub signatures : List ContractSignature
  pub handovers : List Handover
  pub qr_sessions : List HandoverQrSession
  pub evidences : List Evidence
  pub disputes : List Dispute
  pub reviews : List Review
  pub risk_incidents : List RiskIncident
  pub notifications : List Notification
  pub tickets : List SupportTicket
  pub messages : List Message
  pub reports : List Report
  pub config : ConfigKey → Option ℕ
  pub effects : List Effect

-- apps/api/src/common/interfaces/authenticated-request.interface.ts
pub record AuthenticatedUser : Type 0 where
  pub id : ℕ
  pub roles : List RoleName
  pub verification_status : VerificationStatus

-- What a request takes from outside the code: one reading of the clock, the identifiers that the
-- database generates for it (`cuid()`), random text, the configuration service, and the hash.
pub record Env : Type 0 where
  pub now : ℕ
  pub utc_date : ℕ × ℕ × ℕ
  pub new_id : ℕ → ℕ
  pub random_text : String
  -- the text of an identifier, as a list of characters and as a string
  pub id_text : ℕ → List ℕ
  pub id_string : ℕ → String
  pub sha256 : ContractSnapshot → String
  pub is_production : Bool
  pub payment_demo_enabled : Bool
  pub sepay_enabled : Bool
