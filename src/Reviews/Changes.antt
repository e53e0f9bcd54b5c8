-- ===== src/Reviews/Changes.antt =====
-- What the requests do to the table of reviews.
use borrow_hub.Common.{
  ℕ, true, false, ◌||◌, ◌≡◌, sym, some, List, [], ◌∷◌, ◌++◌, ◌==◌, if◌then◌else◌, arith, find, any,
  update_first, inl, inr, Bool-cases, Option-cases,
}
use borrow_hub.Schema.{ReviewStatus, Review, Rental, Database, AuthenticatedUser, Env}
use mathlib.Core.Path.{subst}
use borrow_hub.Store.{pure, ◌>>◌, Result-cases, find_rental}
use borrow_hub.Rentals.Guards.{is_owner, is_renter, numeric_config}
use borrow_hub.Schema.{ConfigKey}
use borrow_hub.TrustScore.Score.{recalculate_user_trust_score, is_completed}
use borrow_hub.Reviews.Service.{
  CreateReviewDto, UpdateReviewDto, has_review_id, is_review_by, create_review, update_review,
  new_review, announce_review, create, is_past_deadline, edited, update, moderated, moderate,
}

recalculate-reviews :
    (env : Env) (id : ℕ) (db : Database)
    → (recalculate_user_trust_score env id db).1.reviews ≡ db.reviews
unfolding recalculate_user_trust_score
recalculate-reviews env id db = ground arith

announce_review-reviews :
    (env : Env) (u : AuthenticatedUser) (r : Review) (db : Database)
    → (announce_review env u r db).1.reviews ≡ db.reviews
unfolding announce_review
announce_review-reviews env u r db = grind (arith, recalculate-reviews)

module _ (env : Env) (u : AuthenticatedUser) (r : Review) (db : Database) where
  -- The last calls of the handlers.
  recalculate_then-reviews :
      (id : ℕ) → ((recalculate_user_trust_score env id >> pure r) db).1.reviews ≡ db.reviews
  recalculate_then-reviews id = elim (Result-cases (recalculate_user_trust_score env id db).0) [
    | inl (score, done) ↦ rw done (recalculate-reviews env id db)
    | inr (e, failed) ↦ rw failed (recalculate-reviews env id db)
  ]

  announce_then-reviews : ((announce_review env u r >> pure r) db).1.reviews ≡ db.reviews
  announce_then-reviews = elim (Result-cases (announce_review env u r db).0) [
    | inl (x, done) ↦ rw done (announce_review-reviews env u r db)
    | inr (e, failed) ↦ rw failed (announce_review-reviews env u r db)
  ]

-- The other party of the rental.
abbrev pub reviewee_of : Rental → AuthenticatedUser → ℕ
reviewee_of r u = if is_owner r u then r.renter_id else r.owner_id

module _ (P : List Review → Type 0) (env : Env) (u : AuthenticatedUser) (db : Database) where
  -- `create` adds at most one review: by a party of a completed rental, who has none of it yet.
  pub create-cases :
      (id : ℕ) (dto : CreateReviewDto)
      → P db.reviews
      → ((r : Rental)
          → find_rental id db ≡ some r
          → is_completed r.status ≡ true
          → (is_owner r u || is_renter r u) ≡ true
          → any (is_review_by r.id u.id) db.reviews ≡ false
          → P (db.reviews ++ new_review env u r (reviewee_of r u) dto ∷ []))
      → P (create env u id dto db).1.reviews
  unfolding create create_review
  create-cases id dto same added = elim (Option-cases (find_rental id db)) [
    | inl missing ↦ rw missing same
    | inr (r, found) ↦ elim (Bool-cases (is_completed r.status)) [
      | inr early ↦ rw (found, early) same
      | inl over ↦ elim (Bool-cases (is_owner r u || is_renter r u)) [
        | inr denied ↦ rw (found, over, denied) same
        | inl may ↦ elim (Bool-cases (any (is_review_by id u.id) db.reviews)) [
          | inl taken ↦ rw (found, over, may, taken) same
          | inr fresh ↦ elim (Bool-cases (any (is_review_by r.id u.id) db.reviews)) [
            | inl twice ↦ rw (found, over, may, fresh, twice) same
            | inr new ↦
                rw (found, over, may, fresh, new)
                  (subst P (sym (announce_then-reviews env u _ _)) (added r found over may new))
          ]
        ]
      ]
    ]
  ]

  -- `update` edits at most one review: of its reviewer, within the window.
  pub update-cases :
      (id : ℕ) (dto : UpdateReviewDto)
      → P db.reviews
      → ((r : Review)
          → find (has_review_id id) db.reviews ≡ some r
          → (r.reviewer_id == u.id) ≡ true
          → is_past_deadline env.now (numeric_config db ConfigKey.review_edit_hours 24) r ≡ false
          → P (update_first (has_review_id id) (edited dto) db.reviews))
      → P (update env u id dto db).1.reviews
  unfolding update update_review
  update-cases id dto same changed = elim (Option-cases (find (has_review_id id) db.reviews)) [
    | inl missing ↦ rw missing same
    | inr (r, found) ↦ elim (Bool-cases (r.reviewer_id == u.id)) [
      | inr other ↦ rw (found, other) same
      | inl own ↦
          elim (Bool-cases
            (is_past_deadline env.now (numeric_config db ConfigKey.review_edit_hours 24) r)) [
              | inl late ↦ rw (found, own, late) same
              | inr timely ↦
                  rw (found, own, timely, found)
                    (subst P (sym (recalculate_then-reviews env u _ _ r.reviewee_id))
                      (changed r found own timely))
            ]
    ]
  ]

  -- `moderate` sets the status of at most one review.
  pub moderate-cases :
      (id : ℕ) (status : ReviewStatus)
      → P db.reviews
      → ((r : Review)
          → find (has_review_id id) db.reviews ≡ some r
          → P (update_first (has_review_id id) (moderated status) db.reviews))
      → P (moderate env u id status db).1.reviews
  unfolding moderate update_review
  moderate-cases id status same changed = elim (Option-cases (find (has_review_id id) db.reviews)) [
    | inl missing ↦ rw missing same
    | inr (r, found) ↦
        rw (found, found)
          (subst P (sym (recalculate_then-reviews env u _ _ r.reviewee_id)) (changed r found))
  ]
