-- ===== src/Reviews/Invariant.antt =====
-- Each party reviews a rental at most once, with a rating from 1 to 5.
use borrow_hub.Common.{
  ℕ, ◌-◌, ◌≤◌, Bool, true, false, ◌≡◌, refl, List, [], ◌∷◌, ◌++◌, arith, All, any, update_first,
  inl, inr, Bool-cases,
}
use borrow_hub.Common.Rows.{
  Rows-update_first, All-update_first, All-append, Pairwise, Pairwise-append, Pairwise-Rows,
}
use borrow_hub.Schema.{Review, UserRow, Database, AuthenticatedUser, Env}
use borrow_hub.TrustScore.Score.{bonus, penalty, trust_score}
use borrow_hub.TrustScore.Results.{trust_score-bonus}
use borrow_hub.Reviews.Service.{
  UpdateReviewDto, is_review_by, has_review_id, edited, moderated, new_review,
}
use borrow_hub.Reviews.Requests.{
  ReviewRequest, ReviewCall, is_rating, is_rating_if_given, is_moderator, answer, answer_all,
}
use borrow_hub.Reviews.Changes.{create-cases, update-cases, moderate-cases, reviewee_of}

-- Two reviews of one rental by one user.
abbrev pub repeats : Review → Review → Bool
repeats r s = is_review_by r.rental_id r.reviewer_id s

pub record IsSound (xs : List Review) : Type 0 where
  pub one_each : Pairwise repeats xs
  pub in_range : All (λ r. is_rating r.rating ≡ true) xs

record SamePair (r s : Review) : Type 0 where
  same_rental : s.rental_id ≡ r.rental_id
  same_reviewer : s.reviewer_id ≡ r.reviewer_id

repeats-SamePair :
    (r s r' s' : Review)
    → SamePair r r'
    → SamePair s s'
    → repeats r s ≡ false
    → repeats r' s' ≡ false
repeats-SamePair r s r' s' p q h =
    ground (arith, h, p.same_rental, p.same_reviewer, q.same_rental, q.same_reviewer)

-- An update that keeps the rental and the reviewer, and a rating in range.
update-IsSound :
    (id : ℕ) (f : Review → Review) (xs : List Review)
    → ((r : Review) → (f r).rental_id ≡ r.rental_id)
    → ((r : Review) → (f r).reviewer_id ≡ r.reviewer_id)
    → ((r : Review) → is_rating r.rating ≡ true → is_rating (f r).rating ≡ true)
    → IsSound xs
    → IsSound (update_first (has_review_id id) f xs)
update-IsSound id f xs rental reviewer rating h = record {
  one_each =
      Pairwise-Rows repeats-SamePair xs (update_first (has_review_id id) f xs)
        (Rows-update_first SamePair (λ r. record { same_rental = refl; same_reviewer = refl })
          (has_review_id id) f xs
          (λ r e. record { same_rental = rental r; same_reviewer = reviewer r }))
        h.one_each;
  in_range =
      All-update_first (λ r. is_rating r.rating ≡ true) (has_review_id id) f xs rating h.in_range;
}

no_repeat :
    (r : Review) (xs : List Review)
    → any (is_review_by r.rental_id r.reviewer_id) xs ≡ false
    → All (λ x. repeats x r ≡ false) xs
no_repeat r [] h = tt
no_repeat r (x ∷ xs) h = (ground (arith, h), no_repeat r xs (ground (arith, h)))

add-IsSound :
    (r : Review) (xs : List Review)
    → is_rating r.rating ≡ true
    → any (is_review_by r.rental_id r.reviewer_id) xs ≡ false
    → IsSound xs
    → IsSound (xs ++ r ∷ [])
add-IsSound r xs rating new h = record {
  one_each = Pairwise-append repeats xs r h.one_each (no_repeat r xs new);
  in_range = All-append (λ s. is_rating s.rating ≡ true) xs (r ∷ []) h.in_range (rating, tt);
}

edited-rating :
    (dto : UpdateReviewDto) (r : Review)
    → is_rating_if_given dto.rating ≡ true
    → is_rating r.rating ≡ true
    → is_rating (edited dto r).rating ≡ true
edited-rating dto r given h = ground (arith, given, h)

answer-IsSound :
    (env : Env) (u : AuthenticatedUser) (q : ReviewRequest) (db : Database)
    → IsSound db.reviews
    → IsSound (answer env u q db).1.reviews
unfolding answer
answer-IsSound env u (ReviewRequest.create id dto) db h = elim (Bool-cases (is_rating dto.rating)) [
  | inr wrong ↦ rw wrong h
  | inl right ↦ rw right (
      create-cases IsSound env u db id dto h (λ r found over may new.
        add-IsSound (new_review env u r (reviewee_of r u) dto) db.reviews right new h))
]
answer-IsSound env u (ReviewRequest.update id dto) db h =
    elim (Bool-cases (is_rating_if_given dto.rating)) [
      | inr wrong ↦ rw wrong h
      | inl right ↦ rw right (
          update-cases IsSound env u db id dto h (λ r found own timely.
            update-IsSound id (edited dto) db.reviews (λ s. refl) (λ s. refl)
              (λ s. edited-rating dto s right) h))
    ]
answer-IsSound env u (ReviewRequest.moderate id status) db h = elim (Bool-cases (is_moderator u)) [
  | inr other ↦ rw other h
  | inl may ↦ rw may (
      moderate-cases IsSound env u db id status h (λ r found.
        update-IsSound id (moderated status) db.reviews (λ s. refl) (λ s. refl) (λ s i. i) h))
]

-- If no user has reviewed one rental twice, and every rating is from 1 to 5, then so it is after
-- any sequence of requests to ReviewsService.
pub answer_all-IsSound :
    (cs : List ReviewCall) (db : Database) → IsSound db.reviews → IsSound (answer_all cs db).reviews
unfolding answer_all
answer_all-IsSound [] db h = h
answer_all-IsSound (c ∷ cs) db h =
    answer_all-IsSound cs (answer c.env c.user c.request db).1
      (answer-IsSound c.env c.user c.request db h)

ratings_le :
    (xs : List Review) → All (λ r. is_rating r.rating ≡ true) xs → All (λ r. r.rating ≤ 5) xs
ratings_le [] h = tt
ratings_le (x ∷ xs) h = (ground (arith, h.0), ratings_le xs h.1)

-- If no user has reviewed one rental twice, and every rating is from 1 to 5, then after any
-- sequence of requests to ReviewsService the trust score of a user never needs its upper bound: it
-- is what the bonuses, at most 100, exceed the penalties by, and 0 if they do not.
pub answer_all-trust_score :
    (cs : List ReviewCall) (db : Database) (now : ℕ) (x : UserRow)
    → IsSound db.reviews
    → (bonus now x (answer_all cs db) ≤ 100)
      × (trust_score now x (answer_all cs db)
          ≡ bonus now x (answer_all cs db) - penalty x (answer_all cs db))
answer_all-trust_score cs db now x h =
    trust_score-bonus now x (answer_all cs db)
      (ratings_le (answer_all cs db).reviews (answer_all-IsSound cs db h).in_range)
