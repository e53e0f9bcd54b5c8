-- ===== src/Schema/Enums.antt =====
-- The enums of apps/api/prisma/schema.prisma that the modelled services use.

pub data RoleName : Type 0 where
  user partner moderator customer_support dispute_officer admin super_admin : RoleName

pub data UserStatus : Type 0 where
  active suspended banned deleted : UserStatus

pub data VerificationStatus : Type 0 where
  not_started pending verified rejected requires_review : VerificationStatus

pub data AssetStatus : Type 0 where
  draft pending_review active paused rejected suspended archived : AssetStatus

pub data AssetCondition : Type 0 where
  new like_new good fair worn : AssetCondition

pub data CategoryStatus : Type 0 where
  active inactive : CategoryStatus

pub data AvailabilityType : Type 0 where
  available blocked : AvailabilityType

pub data RentalStatus : Type 0 where
  pending_owner approved awaiting_payment awaiting_signature confirmed : RentalStatus
  ready_for_handover ongoing return_pending completed declined : RentalStatus
  cancelled expired disputed overdue : RentalStatus

pub data ContractStatus : Type 0 where
  draft pending_signature active cancelled superseded : ContractStatus

pub data SignatureMethod : Type 0 where
  otp in_app pin electronic_provider : SignatureMethod

pub data PaymentProvider : Type 0 where
  sandbox sepay bank_transfer qr e_wallet : PaymentProvider

pub data PaymentStatus : Type 0 where
  pending processing success failed refunded partially_refunded : PaymentStatus

pub data RefundStatus : Type 0 where
  pending completed failed rejected : RefundStatus

pub data PayoutStatus : Type 0 where
  pending scheduled paid blocked cancelled : PayoutStatus

pub data HandoverType : Type 0 where
  delivery return : HandoverType

pub data HandoverStatus : Type 0 where
  pending confirmed issue_reported : HandoverStatus

pub data EvidenceType : Type 0 where
  photo video document repair_quote other : EvidenceType

pub data ReviewStatus : Type 0 where
  published hidden : ReviewStatus

pub data RiskLevel : Type 0 where
  low medium high : RiskLevel

pub data RiskTargetType : Type 0 where
  user asset rental message : RiskTargetType

pub data RiskIncidentStatus : Type 0 where
  opened under_review resolved dismissed : RiskIncidentStatus

pub data DisputeStatus : Type 0 where
  opened waiting_response under_review resolved rejected closed : DisputeStatus

pub data DisputeEventType : Type 0 where
  opened response_added evidence_attached assigned status_changed resolved note : DisputeEventType

pub data NotificationType : Type 0 where
  rental_request_created rental_request_approved rental_request_declined : NotificationType
  payment_success contract_ready signature_required contract_signed : NotificationType
  rental_confirmed handover_ready handover_completed return_requested : NotificationType
  return_completed review_reminder rental_tomorrow return_reminder : NotificationType
  rental_overdue availability_match payout_completed asset_moderated : NotificationType
  kyc_updated system : NotificationType

pub data AnalyticsEventType : Type 0 where
  user_registered kyc_started kyc_completed search_performed listing_viewed : AnalyticsEventType
  rental_request_created rental_approved payment_completed contract_signed : AnalyticsEventType
  handover_completed return_completed review_created dispute_opened : AnalyticsEventType

pub data ReportTargetType : Type 0 where
  user asset review chat_message : ReportTargetType

pub data ReportStatus : Type 0 where
  opened under_review resolved rejected closed : ReportStatus

pub data SupportTicketStatus : Type 0 where
  opened in_progress waiting_user resolved closed : SupportTicketStatus

pub data SupportTicketPriority : Type 0 where
  low medium high : SupportTicketPriority

pub data SupportTicketEventType : Type 0 where
  created note assigned status_changed : SupportTicketEventType
