-- ===== src/Reviews/Tests.antt =====
-- Runs of ReviewsService, and its theorems at concrete inputs.
use borrow_hub.Common.{ℕ, ◌-◌, ◌≤◌, ◌≡◌, refl, none, some, List, [], ◌∷◌, map}
use borrow_hub.Schema.{ReviewStatus, Review, AuthenticatedUser}
use borrow_hub.Rentals.Tests.Fixture.{env, ann, owner, renter, stranger, moderator, db}
use borrow_hub.TrustScore.Score.{bonus, penalty, trust_score, recalculate_user_trust_score}
use borrow_hub.Reviews.Service.{
  create, create_review, announce_review, update, update_review, moderate,
}
use borrow_hub.Reviews.Requests.{ReviewRequest, ReviewCall, answer, answer_all, is_moderator}
use borrow_hub.Reviews.Invariant.{IsSound, answer_all-IsSound, answer_all-trust_score}
use borrow_hub.Reviews.Window.{IsOrderly, answer-IsOrderly}

abbrev call : AuthenticatedUser → ReviewRequest → ReviewCall
call u q = record { env = env; user = u; request = q }

abbrev stars : ℕ → ReviewRequest
stars n = ReviewRequest.create 15 (record { rating = n; comment = none })

-- The renter reviews the completed rental 15 of the owner; a second review, one by a stranger and a
-- rating of 6 are refused; the renter edits the rating, and a moderator hides the review.
abbrev calls : List ReviewCall
calls =
    call renter (stars 4)
    ∷ call renter (stars 1)
    ∷ call stranger (stars 1)
    ∷ call owner (stars 6)
    ∷ call renter (ReviewRequest.update 500 (record { rating = some 3; comment = some "late" }))
    ∷ call moderator (ReviewRequest.moderate 500 ReviewStatus.hidden)
    ∷ []

abbrev summary : Review → ℕ × ReviewStatus
summary r = (r.rating, r.status)

calls_run : map summary (answer_all calls db).reviews ≡ (3, ReviewStatus.hidden) ∷ []
unfolding answer_all answer create create_review announce_review update update_review moderate
    recalculate_user_trust_score is_moderator
calls_run = refl

answer_all-IsSound_example : IsSound (answer_all calls db).reviews
answer_all-IsSound_example = answer_all-IsSound calls db (record { one_each = tt; in_range = tt })

answer_all-trust_score_example :
    (bonus 1000 ann (answer_all calls db) ≤ 100)
    × (trust_score 1000 ann (answer_all calls db)
        ≡ bonus 1000 ann (answer_all calls db) - penalty ann (answer_all calls db))
answer_all-trust_score_example =
    answer_all-trust_score calls db 1000 ann (record { one_each = tt; in_range = tt })

answer-IsOrderly_example : IsOrderly env renter db (answer env renter (stars 4) db).1.reviews
answer-IsOrderly_example = answer-IsOrderly env renter db (stars 4)
