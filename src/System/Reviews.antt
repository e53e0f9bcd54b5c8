-- ===== src/System/Reviews.antt =====
-- ReviewsService leaves the table of rentals alone.
use borrow_hub.Common.{ℕ, ◌≡◌, arith}
use borrow_hub.Schema.{ReviewStatus, Review, Database, AuthenticatedUser, Env}
use borrow_hub.TrustScore.Score.{recalculate_user_trust_score}
use borrow_hub.Reviews.Service.{
  CreateReviewDto, UpdateReviewDto, create_review, update_review, announce_review, create, update,
  moderate,
}
use borrow_hub.Reviews.Requests.{ReviewRequest, answer}

recalculate-rentals :
    (env : Env) (id : ℕ) (db : Database)
    → (recalculate_user_trust_score env id db).1.rentals ≡ db.rentals
unfolding recalculate_user_trust_score
recalculate-rentals env id db = ground arith

announce_review-rentals :
    (env : Env) (u : AuthenticatedUser) (r : Review) (db : Database)
    → (announce_review env u r db).1.rentals ≡ db.rentals
unfolding announce_review
announce_review-rentals env u r db = grind (arith, recalculate-rentals)

create-rentals :
    (env : Env) (u : AuthenticatedUser) (id : ℕ) (dto : CreateReviewDto) (db : Database)
    → (create env u id dto db).1.rentals ≡ db.rentals
unfolding create create_review
create-rentals env u id dto db = grind (arith, announce_review-rentals)

update-rentals :
    (env : Env) (u : AuthenticatedUser) (id : ℕ) (dto : UpdateReviewDto) (db : Database)
    → (update env u id dto db).1.rentals ≡ db.rentals
unfolding update update_review
update-rentals env u id dto db = grind (arith, recalculate-rentals)

moderate-rentals :
    (env : Env) (u : AuthenticatedUser) (id : ℕ) (s : ReviewStatus) (db : Database)
    → (moderate env u id s db).1.rentals ≡ db.rentals
unfolding moderate update_review
moderate-rentals env u id s db = grind (arith, recalculate-rentals)

pub answer-rentals :
    (env : Env) (u : AuthenticatedUser) (q : ReviewRequest) (db : Database)
    → (answer env u q db).1.rentals ≡ db.rentals
unfolding answer
answer-rentals env u (ReviewRequest.create id dto) db = grind (arith, create-rentals)
answer-rentals env u (ReviewRequest.update id dto) db = grind (arith, update-rentals)
answer-rentals env u (ReviewRequest.moderate id s) db = grind (arith, moderate-rentals)
