-- ===== src/TrustScore/Score.antt =====
-- TrustScoreService: recalculateUserTrustScore. Its averages and its account age are quotients of
-- integers, which are compared and rounded exactly here.
use borrow_hub.Common.{
  ℕ, ◌+◌, ◌*◌, ◌/◌, Bool, true, false, ◌&&◌, ◌||◌, Option, some, List, [], ◌∷◌, ◌==◌, leb,
  if◌then◌else◌, any, filter, find, length, map, min, sum,
}
use borrow_hub.Common.Int.{ℤ, pos, negsuc, sub_ℕ}
use borrow_hub.Schema.{
  RentalStatus, ReviewStatus, RiskTargetType, RiskIncidentStatus, VerificationStatus, UserRow,
  Rental, Review, Dispute, RiskIncident, Database, Env,
}
use borrow_hub.Store.{
  Exception, Action, pure, gets, or_raise, ◌>>=◌, ◌>>◌, has_user_id, update_user, is_active_status,
}

abbrev pub count {ℓ} : {A : Type ℓ} → (A → Bool) → List A → ℕ
count p xs = length (filter p xs)

abbrev pub is_completed : RentalStatus → Bool
is_completed RentalStatus.completed = true
is_completed _ = false

abbrev pub is_overdue : RentalStatus → Bool
is_overdue RentalStatus.overdue = true
is_overdue _ = false

abbrev pub is_published : ReviewStatus → Bool
is_published ReviewStatus.published = true
is_published ReviewStatus.hidden = false

-- `OR: [{ ownerId: userId }, { renterId: userId }]`
abbrev pub is_party : (user_id : ℕ) → Rental → Bool
is_party user_id r = r.owner_id == user_id || r.renter_id == user_id

abbrev pub is_published_review_of : (user_id : ℕ) → Review → Bool
is_published_review_of user_id r = r.reviewee_id == user_id && is_published r.status

abbrev pub is_completed_rental_of : (user_id : ℕ) → Rental → Bool
is_completed_rental_of user_id r = is_completed r.status && is_party user_id r

-- openDisputeStatuses; the relation `rental` is the row with the dispute's rental id.
abbrev pub is_open_dispute_of : (user_id : ℕ) → List Rental → Dispute → Bool
is_open_dispute_of user_id rentals d =
    is_active_status d.status && any (λ r. r.id == d.rental_id && is_party user_id r) rentals

abbrev pub is_overdue_rental_of : (user_id : ℕ) → Rental → Bool
is_overdue_rental_of user_id r = r.renter_id == user_id && is_overdue r.status

abbrev pub is_user_target : RiskTargetType → Bool
is_user_target RiskTargetType.user = true
is_user_target _ = false

-- openRiskStatuses
abbrev pub is_open_incident : RiskIncidentStatus → Bool
is_open_incident RiskIncidentStatus.opened = true
is_open_incident RiskIncidentStatus.under_review = true
is_open_incident _ = false

abbrev pub is_open_incident_of : (user_id : ℕ) → RiskIncident → Bool
is_open_incident_of user_id i =
    is_user_target i.target_type && i.target_id == user_id && is_open_incident i.status

abbrev pub verification_bonus : Option VerificationStatus → ℕ
verification_bonus (some VerificationStatus.verified) = 20
verification_bonus _ = 0

-- `Math.round((average ?? 0) * 12)`: half rounds up.
unfoldable pub rating_bonus : (ratings : List ℕ) → ℕ
rating_bonus [] = 0
rating_bonus (x ∷ xs) = (24 * sum (x ∷ xs) + length (x ∷ xs)) / (2 * length (x ∷ xs))

abbrev pub day : ℕ
day = 86400000

-- `accountAgeDays >= days`
abbrev pub is_older : (days now created_at : ℕ) → Bool
is_older days now created_at = leb (created_at + days * day) now

abbrev pub account_age_bonus : (now created_at : ℕ) → ℕ
account_age_bonus now created_at =
    (if is_older 30 now created_at then 5 else 0) + (if is_older 180 now created_at then 5 else 0)

unfoldable pub bonus : (now : ℕ) → UserRow → Database → ℕ
bonus now user db =
    verification_bonus user.verification
    + rating_bonus (map (λ r. r.rating) (filter (is_published_review_of user.id) db.reviews))
    + min (count (is_completed_rental_of user.id) db.rentals * 2) 10
    + account_age_bonus now user.created_at

unfoldable pub penalty : UserRow → Database → ℕ
penalty user db =
    min (count (is_open_dispute_of user.id db.rentals) db.disputes * 8) 24
    + min (count (is_overdue_rental_of user.id) db.rentals * 5) 15
    + min (count (is_open_incident_of user.id) db.risk_incidents * 10) 20

-- clampScore
unfoldable pub clamp_score : ℤ → ℕ
clamp_score (pos n) = min 100 n
clamp_score (negsuc n) = 0

abbrev pub trust_score : (now : ℕ) → UserRow → Database → ℕ
trust_score now user db = clamp_score (sub_ℕ (bonus now user db) (penalty user db))

abbrev pub set_trust_score : ℤ → UserRow → UserRow
set_trust_score score user = record user { trust_score = score }

unfoldable pub recalculate_user_trust_score : Env → (user_id : ℕ) → Action ℕ
recalculate_user_trust_score env user_id = do
  found ← gets (λ db. find (has_user_id user_id) db.users)
  user ← or_raise found Exception.record_missing
  score ← gets (trust_score env.now user)
  update_user user_id (set_trust_score (pos score))
  pure score
