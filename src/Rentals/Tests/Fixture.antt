-- ===== src/Rentals/Tests/Fixture.antt =====
-- Two users, one asset, and rentals of it in several states.
use borrow_hub.Common.{ℕ, refl, true, false, none, some, [], ◌∷◌}
use borrow_hub.Common.Int.{pos}
use borrow_hub.Schema.{
  UserRow, UserStatus, RoleName, VerificationStatus, AssetStatus, AssetCondition, CategoryStatus,
  RentalStatus, PaymentProvider, PaymentStatus, ContractStatus, HandoverType, HandoverStatus,
  TransactionId, Asset, Rental, Payment, RentalContract, ContractSnapshot, Handover,
  HandoverQrSession, Database, AuthenticatedUser, Env,
}
use borrow_hub.Rentals.DoubleBooking.Calm.{IsConsistent}
use borrow_hub.Rentals.Booking.{CreateRentalRequestDto}

abbrev pub hour : ℕ
hour = 3600000

abbrev pub env : Env
env = record {
  now = 1000000000;
  utc_date = (2026, 8, 17);
  new_id = λ n. 500;
  random_text = "token";
  id_text = λ n. b'c' ∷ b'-' ∷ b'7' ∷ [];
  id_string = λ n. "c-7";
  sha256 = λ s. "hash";
  is_production = false;
  payment_demo_enabled = true;
  sepay_enabled = false;
}

abbrev pub ann : UserRow
ann = record {
  id = 1;
  full_name = "Ann";
  status = UserStatus.active;
  trust_score = pos 50;
  roles = RoleName.user ∷ [];
  verification = some VerificationStatus.verified;
  created_at = 0;
}

abbrev pub owner : AuthenticatedUser
owner = record {
  id = 1;
  roles = RoleName.user ∷ [];
  verification_status = VerificationStatus.verified;
}

abbrev pub renter : AuthenticatedUser
renter = record {
  id = 2;
  roles = RoleName.user ∷ [];
  verification_status = VerificationStatus.verified;
}

abbrev pub stranger : AuthenticatedUser
stranger = record {
  id = 3;
  roles = RoleName.user ∷ [];
  verification_status = VerificationStatus.verified;
}

abbrev pub moderator : AuthenticatedUser
moderator = record {
  id = 8;
  roles = RoleName.moderator ∷ [];
  verification_status = VerificationStatus.verified;
}

abbrev pub asset : Asset
asset = record {
  id = 7;
  owner_id = 1;
  category_id = 3;
  title = "Drill";
  description = "A drill";
  brand = none;
  model = none;
  serial_number = none;
  condition = AssetCondition.good;
  estimated_value = 50000;
  price_per_day = 1000;
  minimum_duration_days = 1;
  maximum_duration_days = 30;
  city = "Hue";
  district = "Center";
  ward = some "Ward 3";
  latitude = some (pos 164);
  longitude = some (pos 1075);
  meeting_point = some "The gate";
  delivery_options = none;
  usage_instructions = none;
  cancellation_policy = none;
  status = AssetStatus.active;
  created_at = 0;
  images = [];
  accessories = [];
}

abbrev pub rental : (id : ℕ) → (start_at end_at : ℕ) → RentalStatus → Rental
rental id start_at end_at status = record {
  id = id;
  asset_id = 7;
  owner_id = 1;
  renter_id = 2;
  start_at = start_at;
  end_at = end_at;
  delivery_method = none;
  message = none;
  currency = "VND";
  rental_fee = 2000;
  service_fee = 100;
  delivery_fee = 0;
  late_fee = 0;
  total_amount = 2100;
  status = status;
  updated_at = 1000000000;
}

abbrev pub payment : PaymentStatus → Payment
payment status = record {
  id = 20;
  rental_id = 11;
  payer_id = 2;
  provider = PaymentProvider.sandbox;
  provider_transaction_id = TransactionId.intent PaymentProvider.sandbox (b'X' ∷ []);
  amount = 2100;
  currency = "VND";
  status = status;
  paid_at = none;
}

abbrev pub snapshot : ContractSnapshot
snapshot = record {
  owner = none;
  renter = none;
  asset_id = 7;
  title = none;
  serial_number = none;
  price_per_day = none;
  start_at = 0;
  end_at = 0;
  rental_fee = 2000;
  service_fee = 100;
  delivery_fee = 0;
  total_amount = 2100;
}

abbrev pub contract : RentalContract
contract = record {
  id = 30;
  rental_id = 12;
  contract_number = record { date = (2026, 8, 16); suffix = [] };
  version = 1;
  snapshot = snapshot;
  content_hash = "hash";
  status = ContractStatus.pending_signature;
  activated_at = none;
}

abbrev pub handover : Handover
handover = record {
  id = 40;
  rental_id = 13;
  type = HandoverType.delivery;
  status = HandoverStatus.pending;
  notes = none;
  items = [];
  confirmed_at = none;
}

abbrev pub session : HandoverQrSession
session = record {
  id = 50;
  rental_id = 13;
  handover_id = 40;
  generated_by_id = 1;
  token = "qr";
  expires_at = 1000060000;
  used_at = none;
}

-- Rental 10 waits for the owner, 11 for the payment, 12 for signatures, 13 for the handover.
abbrev pub db : Database
db = record {
  users = ann ∷ [];
  assets = asset ∷ [];
  categories = record { id = 3; parent_id = none; status = CategoryStatus.active } ∷ [];
  availability = [];
  rentals =
      rental 10 2000000000 2100000000 RentalStatus.pending_owner
      ∷ rental 11 3000000000 3100000000 RentalStatus.awaiting_payment
      ∷ rental 12 4000000000 4100000000 RentalStatus.awaiting_signature
      ∷ rental 13 5000000000 5100000000 RentalStatus.ready_for_handover
      ∷ rental 14 2050000000 2150000000 RentalStatus.pending_owner
      ∷ rental 15 100 200 RentalStatus.completed
      ∷ [];
  payments = payment PaymentStatus.pending ∷ [];
  refunds = [];
  payouts = [];
  contracts = contract ∷ [];
  signatures = [];
  handovers = handover ∷ [];
  qr_sessions = session ∷ [];
  evidences = [];
  disputes = [];
  reviews = [];
  risk_incidents = [];
  notifications = [];
  tickets = [];
  messages = [];
  reports = [];
  config = λ key. none;
  effects = [];
}

abbrev pub booking : CreateRentalRequestDto
booking = record {
  asset_id = 7;
  start_at = some 6000000000;
  end_at = some 6172800000;
  delivery_method = none;
  message = none;
}

pub db-IsConsistent : IsConsistent db.rentals
db-IsConsistent = record {
  unique = (refl, (refl, (refl, (refl, (refl, (refl, tt))))));
  disjoint = (
    (refl, (refl, (refl, (refl, (refl, tt))))),
    (
      (refl, (refl, (refl, (refl, tt)))),
      ((refl, (refl, (refl, tt))), ((refl, (refl, tt)), ((refl, tt), (tt, tt)))),
    ),
  );
}
