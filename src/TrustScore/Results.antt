-- ===== src/TrustScore/Results.antt =====
-- The score is between 0 and 100, does not depend on the score before, and falls with what speaks
-- against a user.
use native.Mathlib.Nat.{div-lt_iff_lt-mul}
use borrow_hub.Common.{
  ℕ, ap, ◌+◌, ◌*◌, ◌/◌, ◌-◌, ◌≤◌, ◌<◌, All, sum, map, min, Bool, true, false, ◌≡◌, refl, none, some,
  List, [], ◌∷◌, ◌++◌, arith, find, any, filter, length, update_first, inl, inr, Bool-cases,
  Option-cases,
}
use borrow_hub.Common.Int.{ℤ, pos, negsuc, sub_ℕ}
use borrow_hub.Schema.{UserRow, Dispute, Review, RiskIncident, Database, Env}
use borrow_hub.Store.{ok, has_user_id, update_user}
use borrow_hub.TrustScore.Score.{
  bonus, penalty, clamp_score, trust_score, set_trust_score, recalculate_user_trust_score, count,
  rating_bonus, is_published_review_of, is_open_dispute_of, is_open_incident_of,
}

clamp_score_le : (z : ℤ) → clamp_score z ≤ 100
unfolding clamp_score
clamp_score_le (pos n) = ground arith
clamp_score_le (negsuc n) = ground arith

find-set_score :
    (id : ℕ) (z : ℤ) (xs : List UserRow) (x : UserRow)
    → find (has_user_id id) xs ≡ some x
    → find (has_user_id id) (update_first (has_user_id id) (set_trust_score z) xs)
      ≡ some (set_trust_score z x)
find-set_score id z [] x e = cc
find-set_score id z (y ∷ ys) x e = ground (arith, find-set_score id z ys x)

any-find :
    (id : ℕ) (xs : List UserRow) (x : UserRow)
    → find (has_user_id id) xs ≡ some x
    → any (has_user_id id) xs ≡ true
any-find id [] x e = cc
any-find id (y ∷ ys) x e = ground (arith, any-find id ys x)

pub trust_score-bound : (now : ℕ) (x : UserRow) (db : Database) → trust_score now x db ≤ 100
unfolding trust_score
trust_score-bound now x db = clamp_score_le _

-- The recalculation succeeds for every user that there is. It answers a score of at most 100, writes
-- it to the row of the user, and changes nothing but the table of users.
pub recalculate_lem :
    (env : Env) (id : ℕ) (db : Database) (x : UserRow)
    → find (has_user_id id) db.users ≡ some x
    → (score : ℕ) × ((recalculate_user_trust_score env id db).0 ≡ ok score)
      × (score ≤ 100)
      × (find (has_user_id id) (recalculate_user_trust_score env id db).1.users
          ≡ some (set_trust_score (pos score) x))
      × ((recalculate_user_trust_score env id db).1 ≡ record db {
        users = update_first (has_user_id id) (set_trust_score (pos score)) db.users;
      })
unfolding recalculate_user_trust_score
recalculate_lem env id db x found =
    let score = trust_score env.now x db in
    let there = any-find id db.users x found in
    (
      score,
      rw (found, there) refl,
      clamp_score_le _,
      rw (found, there) (find-set_score id (pos score) db.users x found),
      rw (found, there) refl,
    )

set_score_twice :
    (id : ℕ) (z w : ℤ) (xs : List UserRow)
    → update_first
        (has_user_id id)
        (set_trust_score w)
        (update_first (has_user_id id) (set_trust_score z) xs)
      ≡ update_first (has_user_id id) (set_trust_score w) xs
set_score_twice id z w [] = refl
set_score_twice id z w (x ∷ xs) = elim (Bool-cases (has_user_id id x)) [
  | inl hit ↦ rw (hit, hit) refl
  | inr miss ↦ rw (miss, miss) (ap (λ ys. x ∷ ys) (set_score_twice id z w xs))
]

any-none :
    (id : ℕ) (xs : List UserRow) → find (has_user_id id) xs ≡ none → any (has_user_id id) xs ≡ false
any-none id [] e = refl
any-none id (y ∷ ys) e = ground (arith, any-none id ys)

-- The recalculation does not depend on the score that the user had: a score that another operation
-- wrote before it, such as the penalty of a cancellation, is lost.
pub recalculate-forgets :
    (env : Env) (id : ℕ) (z : ℤ) (db : Database)
    → recalculate_user_trust_score env id (update_user id (set_trust_score z) db).1
      ≡ recalculate_user_trust_score env id db
unfolding recalculate_user_trust_score bonus penalty
recalculate-forgets env id z db = elim (Option-cases (find (has_user_id id) db.users)) [
  | inl missing ↦ rw (any-none id db.users missing, missing) refl
  | inr (x, found) ↦
      let written = find-set_score id z db.users x found in
      let there = any-find id db.users x found in
      let there_still =
        any-find id (update_first (has_user_id id) (set_trust_score z) db.users)
          (set_trust_score z x) written in
      rw (there, written, there_still, found, set_score_twice id z _ db.users, there) refl
]

count-append :
    {A : Type 0} (p : A → Bool) (xs : List A) (x : A) → count p xs ≤ count p (xs ++ x ∷ [])
count-append p [] x = ground arith
count-append p (y ∷ ys) x = ground (arith, count-append p ys x)

pub min_mono : (a b c : ℕ) → a ≤ b → min a c ≤ min b c
min_mono a b c h = ground (arith, h)

score_antitone : (b p q : ℕ) → p ≤ q → clamp_score (sub_ℕ b q) ≤ clamp_score (sub_ℕ b p)
unfolding clamp_score
score_antitone b p q h = ground (arith, h)

module _ (now : ℕ) (x : UserRow) (db : Database) where
  -- The trust score of a user is not higher with one more dispute in the database, and not with one
  -- more risk incident.
  pub trust_score_antitone :
      (d : Dispute) (i : RiskIncident)
      → (trust_score now x (record db { disputes = db.disputes ++ d ∷ [] }) ≤ trust_score now x db)
        × (trust_score now x (record db { risk_incidents = db.risk_incidents ++ i ∷ [] })
            ≤ trust_score now x db)
  unfolding bonus penalty
  trust_score_antitone d i =
      let disputes = count-append (is_open_dispute_of x.id db.rentals) db.disputes d in
      let incidents = count-append (is_open_incident_of x.id) db.risk_incidents i in
      (
        score_antitone (bonus now x db) (penalty x db) _ (ground (arith, disputes)),
        score_antitone (bonus now x db) (penalty x db) _ (ground (arith, incidents)),
      )

clamp-sub : (b p : ℕ) → b ≤ 100 → clamp_score (sub_ℕ b p) ≡ b - p
unfolding clamp_score
clamp-sub b p h = ground (arith, h)

sum_le : (xs : List ℕ) → All (λ n. n ≤ 5) xs → sum xs ≤ 5 * length xs
sum_le [] h = ground arith
sum_le (x ∷ xs) h = ground (arith, h.0, sum_le xs h.1)

rating_bonus_le : (xs : List ℕ) → All (λ n. n ≤ 5) xs → rating_bonus xs ≤ 60
unfolding rating_bonus
rating_bonus_le [] h = ground arith
rating_bonus_le (x ∷ xs) h =
    let total = sum_le (x ∷ xs) h in
    let small : (24 * sum (x ∷ xs) + length (x ∷ xs)) / (2 * length (x ∷ xs)) < 61 =
      (div-lt_iff_lt-mul (ground arith)).1 (ground (arith, total)) in
    omega arith

ratings-All :
    (p : Review → Bool) (xs : List Review)
    → All (λ r. r.rating ≤ 5) xs
    → All (λ n. n ≤ 5) (map (λ r. r.rating) (filter p xs))
ratings-All p [] h = tt
ratings-All p (x ∷ xs) h = elim (Bool-cases (p x)) [
  | inl hit ↦ rw hit (h.0, ratings-All p xs h.1)
  | inr miss ↦ rw miss (ratings-All p xs h.1)
]

-- If no rating is above 5, which is what the DTO of a review lets through, the upper bound of the
-- score never cuts: the score is what the bonuses exceed the penalties by, and 0 if they do not.
pub trust_score-bonus :
    (now : ℕ) (x : UserRow) (db : Database)
    → All (λ r. r.rating ≤ 5) db.reviews
    → (bonus now x db ≤ 100) × (trust_score now x db ≡ bonus now x db - penalty x db)
unfolding bonus
trust_score-bonus now x db h =
    let stars =
      rating_bonus_le (map (λ r. r.rating) (filter (is_published_review_of x.id) db.reviews))
        (ratings-All (is_published_review_of x.id) db.reviews h) in
    let small : bonus now x db ≤ 100 = ground (arith, stars) in
    (small, clamp-sub (bonus now x db) (penalty x db) small)
