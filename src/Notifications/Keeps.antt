-- ===== src/Notifications/Keeps.antt =====
-- The notifications of the reminder job leave the rentals alone, and always succeed.
use borrow_hub.Common.{ℕ, ◌+◌, Bool, ◌≡◌, refl, ◌∙◌, List, [], ◌∷◌, any, ltb, inl, inr, Bool-cases}
use borrow_hub.Schema.{Effect, NotificationType, Reference, Rental, Review, Database, Env}
use borrow_hub.Store.{ok, Action, emit}
use borrow_hub.Notifications.Service.{
  create_notification, is_repeat, create_unique, create_each_unique,
}
use borrow_hub.Disputes.Guards.{distinct}
use borrow_hub.Notifications.Reminders.{
  notify_once, is_in_window, missing_review_users, remind_start, remind_return, remind_review,
}

-- A job that succeeds and leaves the rentals alone.
abbrev pub KeepsRentals : {A : Type 0} → Action A → Database → Type 0
KeepsRentals {A} m db = (a : A) × ((m db).0 ≡ ok a) × ((m db).1.rentals ≡ db.rentals)

create_unique-KeepsRentals :
    (env : Env) (i : ℕ) (t : NotificationType) (ref : Reference) (p : ℕ → Bool) (db : Database)
    → KeepsRentals (create_unique env i t ref p) db
unfolding create_unique create_notification
create_unique-KeepsRentals env i t ref p db =
    elim (Bool-cases (any (is_repeat i t ref p) db.notifications)) [
      | inl known ↦ (0, rw known refl, rw known refl)
      | inr new ↦ (1, rw new refl, rw new refl)
    ]

create_each-KeepsRentals :
    (env : Env) (is : List ℕ) (t : NotificationType) (ref : Reference) (p : ℕ → Bool)
    (db : Database)
    → KeepsRentals (create_each_unique env is t ref p) db
unfolding create_each_unique
create_each-KeepsRentals env [] t ref p db = (0, refl, refl)
create_each-KeepsRentals env (i ∷ is) t ref p db =
    let (n, fine, same) = create_unique-KeepsRentals env i t ref p db in
    let (m, done, still) =
      create_each-KeepsRentals env is t ref p (create_unique env i t ref p db).1 in
    (n + m, rw (fine, done) refl, rw (fine, done) (still ∙ same))

pub notify_once-KeepsRentals :
    (env : Env) (date : ℕ) (is : List ℕ) (t : NotificationType) (r : Rental) (db : Database)
    → KeepsRentals (notify_once env date is t r) db
notify_once-KeepsRentals env date is t r db =
    create_each-KeepsRentals env (distinct is) t (Reference.rental r.id) (is_in_window date) db

pub remind_start-KeepsRentals :
    (env : Env) (date : ℕ) (rs : List Rental) (db : Database)
    → KeepsRentals (remind_start env date rs) db
unfolding remind_start
remind_start-KeepsRentals env date [] db = (0, refl, refl)
remind_start-KeepsRentals env date (r ∷ rs) db =
    let t = NotificationType.rental_tomorrow in
    let is = r.owner_id ∷ r.renter_id ∷ [] in
    let (n, fine, same) = notify_once-KeepsRentals env date is t r db in
    let mid = (notify_once env date is t r db).1 in
    elim (Bool-cases (ltb 0 n)) [
      | inl told ↦
          let (m, done, still) =
            remind_start-KeepsRentals env date rs
              (emit (Effect.chat_message r.id r.owner_id) mid).1 in
          (n + m, rw (fine, told, done) refl, rw (fine, told, done) (still ∙ same))
      | inr quiet ↦
          let (m, done, still) = remind_start-KeepsRentals env date rs mid in
          (n + m, rw (fine, quiet, done) refl, rw (fine, quiet, done) (still ∙ same))
    ]

pub remind_return-KeepsRentals :
    (env : Env) (date : ℕ) (rs : List Rental) (db : Database)
    → KeepsRentals (remind_return env date rs) db
unfolding remind_return
remind_return-KeepsRentals env date [] db = (0, refl, refl)
remind_return-KeepsRentals env date (r ∷ rs) db =
    let t = NotificationType.return_reminder in
    let is = r.owner_id ∷ r.renter_id ∷ [] in
    let (n, fine, same) = notify_once-KeepsRentals env date is t r db in
    let (m, done, still) =
      remind_return-KeepsRentals env date rs (notify_once env date is t r db).1 in
    (n + m, rw (fine, done) refl, rw (fine, done) (still ∙ same))

pub remind_review-KeepsRentals :
    (env : Env) (date : ℕ) (vs : List Review) (rs : List Rental) (db : Database)
    → KeepsRentals (remind_review env date vs rs) db
unfolding remind_review
remind_review-KeepsRentals env date vs [] db = (0, refl, refl)
remind_review-KeepsRentals env date vs (r ∷ rs) db =
    let t = NotificationType.review_reminder in
    let is = missing_review_users vs r in
    let (n, fine, same) = notify_once-KeepsRentals env date is t r db in
    let (m, done, still) =
      remind_review-KeepsRentals env date vs rs (notify_once env date is t r db).1 in
    (n + m, rw (fine, done) refl, rw (fine, done) (still ∙ same))
