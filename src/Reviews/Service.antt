-- ===== src/Reviews/Service.antt =====
-- ReviewsService: create, update, moderate. Reviews of completed rentals.
use borrow_hub.Common.{
  ℕ, ◌+◌, ◌*◌, String, Bool, not, ◌&&◌, ◌||◌, Option, none, some, [], ◌∷◌, ◌++◌, ◌==◌, ltb,
  if◌then◌else◌, any, find, or_else, first_some, update_first,
}
use borrow_hub.Schema.{
  ReviewStatus, NotificationType, AnalyticsEventType, Review, Rental, ConfigKey, Reference, Effect,
  AuthenticatedUser, Env,
}
use borrow_hub.Store.{
  Exception, ok, err, Action, pure, gets, require, or_raise, emit, ◌>>=◌, ◌>>◌, find_rental,
}
use borrow_hub.Rentals.Guards.{is_owner, is_renter, get_numeric_config}
use borrow_hub.TrustScore.Score.{is_completed, recalculate_user_trust_score}

pub record CreateReviewDto : Type 0 where
  pub rating : ℕ
  pub comment : Option String

pub record UpdateReviewDto : Type 0 where
  pub rating : Option ℕ
  pub comment : Option String

abbrev pub has_review_id : ℕ → Review → Bool
has_review_id id r = r.id == id

-- The unique key `rentalId_reviewerId`.
abbrev pub is_review_by : (rental_id reviewer_id : ℕ) → Review → Bool
is_review_by rental_id reviewer_id r = r.rental_id == rental_id && r.reviewer_id == reviewer_id

-- `review.create`
unfoldable pub create_review : Review → Action Review
create_review r db =
    if any (is_review_by r.rental_id r.reviewer_id) db.reviews
    then (err Exception.unique_violation, db)
    else (ok r, record db { reviews = db.reviews ++ r ∷ [] })

abbrev pub update_found_review : ℕ → (Review → Review) → Option Review → Action Review
update_found_review id f none db = (err Exception.record_missing, db)
update_found_review id f (some r) db =
    (ok (f r), record db { reviews = update_first (has_review_id id) f db.reviews })

-- `review.update({ where: { id } })`
unfoldable pub update_review : ℕ → (Review → Review) → Action Review
update_review id f db = update_found_review id f (find (has_review_id id) db.reviews) db

abbrev pub new_review :
    Env → AuthenticatedUser → Rental → (reviewee_id : ℕ) → CreateReviewDto → Review
new_review env u rental reviewee_id dto = record {
  id = env.new_id 0;
  rental_id = rental.id;
  reviewer_id = u.id;
  reviewee_id = reviewee_id;
  rating = dto.rating;
  comment = dto.comment;
  status = ReviewStatus.published;
  created_at = env.now;
}

-- The calls after `review.create`.
unfoldable pub announce_review : Env → AuthenticatedUser → Review → Action (Unit {0})
announce_review env u review = do
  emit (
      Effect.notify (review.reviewee_id ∷ []) NotificationType.review_reminder
        (Reference.rental review.rental_id))
  emit (Effect.track AnalyticsEventType.review_created u.id (Reference.review review.id))
  recalculate_user_trust_score env review.reviewee_id
  pure tt

unfoldable pub create : Env → AuthenticatedUser → (rental_id : ℕ) → CreateReviewDto → Action Review
create env u rental_id dto = do
  found ← gets (find_rental rental_id)
  rental ← or_raise found (Exception.not_found "Rental not found")
  require (is_completed rental.status) (Exception.conflict "Only completed rentals can be reviewed")
  require (is_owner rental u || is_renter rental u)
      (Exception.forbidden "You cannot review this rental")
  let reviewee_id = if is_owner rental u then rental.renter_id else rental.owner_id
  existing ← gets (λ db. any (is_review_by rental_id u.id) db.reviews)
  require (not existing) (Exception.conflict "You have already reviewed this rental")
  review ← create_review (new_review env u rental reviewee_id dto)
  announce_review env u review
  pure review

-- `new Date() > editDeadline`
abbrev pub is_past_deadline : (now hours : ℕ) → Review → Bool
is_past_deadline now hours r = ltb (r.created_at + hours * 3600000) now

-- A field that the request leaves out is kept.
abbrev pub edited : UpdateReviewDto → Review → Review
edited dto r = record r {
  rating = or_else dto.rating r.rating;
  comment = first_some dto.comment r.comment;
}

unfoldable pub update : Env → AuthenticatedUser → (review_id : ℕ) → UpdateReviewDto → Action Review
update env u review_id dto = do
  found ← gets (λ db. find (has_review_id review_id) db.reviews)
  review ← or_raise found (Exception.not_found "Review not found")
  require (review.reviewer_id == u.id) (Exception.forbidden "You cannot edit this review")
  hours ← get_numeric_config ConfigKey.review_edit_hours 24
  require (not (is_past_deadline env.now hours review))
      (Exception.conflict "Review edit window has expired")
  updated ← update_review review_id (edited dto)
  emit (Effect.audit (some u.id) "review.update" (Reference.review updated.id))
  recalculate_user_trust_score env review.reviewee_id
  pure updated

abbrev pub moderated : ReviewStatus → Review → Review
moderated status r = record r { status = status }

unfoldable pub moderate : Env → AuthenticatedUser → (review_id : ℕ) → ReviewStatus → Action Review
moderate env u review_id status = do
  found ← gets (λ db. find (has_review_id review_id) db.reviews)
  review ← or_raise found (Exception.not_found "Review not found")
  updated ← update_review review_id (moderated status)
  emit (Effect.audit (some u.id) "review.moderate" (Reference.review updated.id))
  recalculate_user_trust_score env review.reviewee_id
  pure updated
