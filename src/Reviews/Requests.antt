-- ===== src/Reviews/Requests.antt =====
-- The requests of ReviewsController that change a review: their validation, their guard of roles and
-- their dispatch. apps/api/src/reviews/reviews.controller.ts
use borrow_hub.Common.{ℕ, Bool, true, false, ◌&&◌, Option, none, some, List, [], ◌∷◌, leb, any}
use borrow_hub.Schema.{RoleName, ReviewStatus, Review, Database, AuthenticatedUser, Env}
use borrow_hub.Store.{Exception, Action, require, ◌>>◌}
use borrow_hub.Reviews.Service
use borrow_hub.Reviews.Service.{CreateReviewDto, UpdateReviewDto}

pub data ReviewRequest : Type 0 where
  create : (rental_id : ℕ) → CreateReviewDto → ReviewRequest
  update : (review_id : ℕ) → UpdateReviewDto → ReviewRequest
  moderate : (review_id : ℕ) → ReviewStatus → ReviewRequest

-- `@Min(1) @Max(5)`
abbrev pub is_rating : ℕ → Bool
is_rating n = leb 1 n && leb n 5

-- `@IsOptional()`
abbrev pub is_rating_if_given : Option ℕ → Bool
is_rating_if_given none = true
is_rating_if_given (some n) = is_rating n

-- `@Roles(RoleName.MODERATOR, RoleName.ADMIN, RoleName.SUPER_ADMIN)`
abbrev pub is_moderator_role : RoleName → Bool
is_moderator_role RoleName.moderator = true
is_moderator_role RoleName.admin = true
is_moderator_role RoleName.super_admin = true
is_moderator_role _ = false

-- RolesGuard for these roles
unfoldable pub is_moderator : AuthenticatedUser → Bool
is_moderator u = any is_moderator_role u.roles

unfoldable pub answer : Env → AuthenticatedUser → ReviewRequest → Action Review
answer env u (ReviewRequest.create id dto) =
    require (is_rating dto.rating) (Exception.bad_request "rating") >> Service.create env u id dto
answer env u (ReviewRequest.update id dto) =
    require (is_rating_if_given dto.rating) (Exception.bad_request "rating")
    >> Service.update env u id dto
answer env u (ReviewRequest.moderate id status) =
    require (is_moderator u) (Exception.forbidden "Insufficient role")
    >> Service.moderate env u id status

pub record ReviewCall : Type 0 where
  pub env : Env
  pub user : AuthenticatedUser
  pub request : ReviewRequest

-- The database after a sequence of requests, each run to its end before the next.
unfoldable pub answer_all : List ReviewCall → Database → Database
answer_all [] db = db
answer_all (c ∷ cs) db = answer_all cs (answer c.env c.user c.request db).1
