-- ===== src/Reviews/Window.antt =====
-- Who may change a review, and until when.
use borrow_hub.Common.{
  ◌⊎◌, ℕ, Bool, true, false, ◌≡◌, refl, sym, ◌∙◌, ◌||◌, ◌==◌, some, List, find, update_first, inl,
  inr, Bool-cases,
}
use mathlib.Core.Path.{subst}
use borrow_hub.Common.Rows.{Rows-update_first, Rows-refl, Grown, Grown-Rows, Grown-append}
use borrow_hub.Schema.{Review, Rental, ConfigKey, Database, AuthenticatedUser, Env}
use borrow_hub.Store.{find_rental, Exception, require, ◌>>◌}
use borrow_hub.Reviews.Service
use borrow_hub.Rentals.Lifecycle.Rules.{find_self}
use borrow_hub.Rentals.Guards.{is_owner, is_renter, numeric_config}
use borrow_hub.TrustScore.Score.{is_completed}
use borrow_hub.Reviews.Service.{has_review_id, is_past_deadline, edited, moderated, new_review}
use borrow_hub.Reviews.Requests.{ReviewRequest, is_rating, is_rating_if_given, is_moderator, answer}
use borrow_hub.Reviews.Changes.{create-cases, update-cases, moderate-cases, reviewee_of}

module _ (env : Env) (u : AuthenticatedUser) (db : Database) where
  abbrev pub edit_hours : ℕ
  edit_hours = numeric_config db ConfigKey.review_edit_hours 24

  -- What a request of the user may do to a review.
  pub record IsPermitted (r s : Review) : Type 0 where
    pub same_id : s.id ≡ r.id
    pub same_rental : s.rental_id ≡ r.rental_id
    pub same_reviewer : s.reviewer_id ≡ r.reviewer_id
    pub same_reviewee : s.reviewee_id ≡ r.reviewee_id
    pub same_time : s.created_at ≡ r.created_at
    pub text :
        ((s.rating ≡ r.rating) × (s.comment ≡ r.comment))
        ⊎ (((r.reviewer_id == u.id) ≡ true) × (is_past_deadline env.now edit_hours r ≡ false))
    pub status : (s.status ≡ r.status) ⊎ (is_moderator u ≡ true)

  -- A review that a request of the user may add.
  pub record IsEarned (r : Review) : Type 0 where
    pub rental : Rental
    pub there : find_rental rental.id db ≡ some rental
    pub over : is_completed rental.status ≡ true
    pub takes_part : (is_owner rental u || is_renter rental u) ≡ true
    pub of_rental : r.rental_id ≡ rental.id
    pub by_user : r.reviewer_id ≡ u.id
    pub about_other : r.reviewee_id ≡ reviewee_of rental u

  IsPermitted-refl : (r : Review) → IsPermitted r r
  IsPermitted-refl r = record {
    same_id = refl;
    same_rental = refl;
    same_reviewer = refl;
    same_reviewee = refl;
    same_time = refl;
    text = inl (refl, refl);
    status = inl refl;
  }

  abbrev pub IsOrderly : List Review → Type 0
  IsOrderly xs = Grown IsPermitted IsEarned db.reviews xs

  IsOrderly-refl : IsOrderly db.reviews
  IsOrderly-refl =
      Grown-Rows IsPermitted IsEarned db.reviews db.reviews
        (Rows-refl IsPermitted IsPermitted-refl db.reviews)

  some-eq : {r s : Review} → some r ≡ some s → r ≡ s
  some-eq e = cc

  -- An update of the review that is found.
  IsOrderly-update :
      (id : ℕ) (f : Review → Review) (r : Review)
      → find (has_review_id id) db.reviews ≡ some r
      → IsPermitted r (f r)
      → IsOrderly (update_first (has_review_id id) f db.reviews)
  IsOrderly-update id f r found p =
      Grown-Rows IsPermitted IsEarned db.reviews (update_first (has_review_id id) f db.reviews) (
        Rows-update_first IsPermitted IsPermitted-refl (has_review_id id) f db.reviews
          (λ x e. subst (λ (y : Review). IsPermitted y (f y)) (some-eq (sym found ∙ e)) p))

  -- One request adds at most reviews by its user of a completed rental in which the user takes part,
  -- about the other party. It removes none, keeps what each is about, changes the rating or the
  -- comment of none but the user's own within the window, and the status of none unless the user is
  -- a moderator.
  pub answer-IsOrderly : (q : ReviewRequest) → IsOrderly (answer env u q db).1.reviews
  unfolding answer
  answer-IsOrderly (ReviewRequest.create id dto) = elim (Bool-cases (is_rating dto.rating)) [
    | inr wrong ↦ rw wrong IsOrderly-refl
    | inl right ↦ rw right (
        create-cases IsOrderly env u db id dto IsOrderly-refl (λ r found over may new.
          Grown-append IsPermitted IsPermitted-refl IsEarned db.reviews
            (new_review env u r (reviewee_of r u) dto)
            (record {
              rental = r;
              there = find_self id db.rentals r found;
              over = over;
              takes_part = may;
              of_rental = refl;
              by_user = refl;
              about_other = refl;
            })))
  ]
  answer-IsOrderly (ReviewRequest.update id dto) =
      elim (Bool-cases (is_rating_if_given dto.rating)) [
        | inr wrong ↦ rw wrong IsOrderly-refl
        | inl right ↦ rw right (
            update-cases IsOrderly env u db id dto IsOrderly-refl (λ r found own timely.
              IsOrderly-update id (edited dto) r found (record {
                same_id = refl;
                same_rental = refl;
                same_reviewer = refl;
                same_reviewee = refl;
                same_time = refl;
                text = inr (own, timely);
                status = inl refl;
              })))
      ]
  answer-IsOrderly (ReviewRequest.moderate id status) = elim (Bool-cases (is_moderator u)) [
    | inr other ↦ rw other IsOrderly-refl
    | inl may ↦
        let permitted : (r : Review) → IsPermitted r (moderated status r) = λ r. record {
          same_id = refl;
          same_rental = refl;
          same_reviewer = refl;
          same_reviewee = refl;
          same_time = refl;
          text = inl (refl, refl);
          status = inr may;
        } in
        let kept =
          moderate-cases IsOrderly env u db id status IsOrderly-refl
            (λ r found. IsOrderly-update id (moderated status) r found (permitted r)) in
        subst
          (λ (b : Bool).
            IsOrderly
              ((require b (Exception.forbidden "Insufficient role")
                  >> Service.moderate env u id status)
                db).1.reviews)
          (sym may) kept
  ]
