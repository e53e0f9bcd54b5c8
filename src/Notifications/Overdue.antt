-- ===== src/Notifications/Overdue.antt =====
-- What the reminder job does to the table of rentals.
use borrow_hub.Common.{
  leb, ℕ, suc, ap, ◌+◌, ◌*◌, ◌≤◌, ◌<◌, Bool, true, false, ◌≡◌, refl, ◌∙◌, some, List, [], ◌∷◌,
  ==_refl, arith, All, find, filter, get_elem?, includes, update_first, update_where, inl, inr,
  Bool-cases,
}
use borrow_hub.Schema.{NotificationType, Rental, ConfigKey, Database, Env}
use borrow_hub.Store.{Result-cases, ok, has_rental_id, touch}
use borrow_hub.Rentals.Guards.{numeric_config}
use borrow_hub.Rentals.Lifecycle.Defs.{ids, IsUnique}
use borrow_hub.TrustScore.Score.{is_overdue}
use borrow_hub.Notifications.OneByOne.{
  overdue_at, update_each, update_each-filter, IsLeftOrOverdue, update_each-Rows,
}
use borrow_hub.Assets.Ranking.{take}
use borrow_hub.Common.Rows.{Rows, get_elem?-Rows}
use borrow_hub.Notifications.Keeps.{
  notify_once-KeepsRentals, remind_start-KeepsRentals, remind_return-KeepsRentals,
  remind_review-KeepsRentals,
}
use borrow_hub.Notifications.Reminders.{
  max_int, overdue_hours, notify_once, ReminderCounts, starts_tomorrow, ends_tomorrow,
  is_just_completed, calculate_late_fee, is_due, set_overdue, mark_overdue, remind_start,
  remind_return, run_reminder_jobs,
}

module _ (env : Env) (date rate : ℕ) where
  includes-update_first :
      (id : ℕ) (f : Rental → Rental) (xs : List Rental) (i : ℕ)
      → ((r : Rental) → (f r).id ≡ r.id)
      → includes (ids xs) i ≡ true
      → includes (ids (update_first (has_rental_id id) f xs)) i ≡ true
  includes-update_first id f [] i same h = h
  includes-update_first id f (x ∷ xs) i same h =
      ground (arith, h, same x, includes-update_first id f xs i same)

  find-includes :
      (id : ℕ) (xs : List Rental)
      → includes (ids xs) id ≡ true
      → (r : Rental) × (find (has_rental_id id) xs ≡ some r)
  find-includes id [] h = absurd cc
  find-includes id (x ∷ xs) h = elim (Bool-cases (has_rental_id id x)) [
    | inl hit ↦ (x, rw hit refl)
    | inr miss ↦
        let (r, found) = find-includes id xs (ground (arith, h, miss)) in (r, rw miss found)
  ]

  All-includes :
      (rs xs : List Rental) (id : ℕ) (f : Rental → Rental)
      → ((r : Rental) → (f r).id ≡ r.id)
      → All (λ r. includes (ids xs) r.id ≡ true) rs
      → All (λ r. includes (ids (update_first (has_rental_id id) f xs)) r.id ≡ true) rs
  All-includes [] xs id f same h = tt
  All-includes (r ∷ rs) xs id f same h =
      (includes-update_first id f xs r.id same h.0, All-includes rs xs id f same h.1)

  mark_overdue_lem :
      (rs : List Rental) (db : Database)
      → All (λ r. is_overdue r.status ≡ false) rs
      → All (λ r. includes (ids db.rentals) r.id ≡ true) rs
      → All (λ r. calculate_late_fee r.end_at date rate ≤ 2147483647) rs
      → (n : ℕ) × ((mark_overdue env date rate rs db).0 ≡ ok n)
        × ((mark_overdue env date rate rs db).1.rentals ≡ update_each env date rate rs db.rentals)
  unfolding mark_overdue
  mark_overdue_lem [] db late there small = (0, refl, refl)
  mark_overdue_lem (r ∷ rs) db late there small =
      let fits : leb (calculate_late_fee r.end_at date rate) max_int ≡ true =
        ground (arith, small.0) in
      let f = set_overdue (calculate_late_fee r.end_at date rate) in
      let (q, found) = find-includes r.id db.rentals there.0 in
      let t = NotificationType.rental_overdue in
      let is = r.owner_id ∷ r.renter_id ∷ [] in
      let mid = record db {
        rentals = update_first (has_rental_id r.id) (touch env f) db.rentals;
      } in
      let (n, fine, same) = notify_once-KeepsRentals env date is t r mid in
      let told = (notify_once env date is t r mid).1 in
      let (m, done, still) =
        mark_overdue_lem rs told late.1
          (rw same (All-includes rs db.rentals r.id (touch env f) (λ s. refl) there.1)) small.1 in
      (
        n + m,
        rw (late.0, fits, found, fine, done) refl,
        rw (late.0, fits, found, fine, done)
            (still ∙ ap (λ xs. update_each env date rate rs xs) same),
      )

  -- A fee that its column cannot hold ends the loop; the rentals before it are marked.
  mark_overdue-first :
      (rs : List Rental) (db : Database)
      → All (λ r. is_overdue r.status ≡ false) rs
      → All (λ r. includes (ids db.rentals) r.id ≡ true) rs
      → (n : ℕ) × ((mark_overdue env date rate rs db).1.rentals
          ≡ update_each env date rate (take n rs) db.rentals)
  unfolding mark_overdue
  mark_overdue-first [] db late there = (0, refl)
  mark_overdue-first (r ∷ rs) db late there =
      let f = set_overdue (calculate_late_fee r.end_at date rate) in
      let (q, found) = find-includes r.id db.rentals there.0 in
      let t = NotificationType.rental_overdue in
      let is = r.owner_id ∷ r.renter_id ∷ [] in
      let mid = record db {
        rentals = update_first (has_rental_id r.id) (touch env f) db.rentals;
      } in
      let (n, fine, same) = notify_once-KeepsRentals env date is t r mid in
      let told = (notify_once env date is t r mid).1 in
      elim (Bool-cases (leb (calculate_late_fee r.end_at date rate) max_int)) [
        | inr large ↦ (0, rw (late.0, large) refl)
        | inl fits ↦
            let (k, still) =
              mark_overdue-first rs told late.1
                (rw same (All-includes rs db.rentals r.id (touch env f) (λ s. refl) there.1)) in
            elim (Result-cases (mark_overdue env date rate rs told).0) [
              | inl (m, done) ↦ (
                suc k,
                rw (late.0, fits, found, fine, done)
                    (still ∙ ap (λ xs. update_each env date rate (take k rs) xs) same),
              )
              | inr (e, failed) ↦ (
                suc k,
                rw (late.0, fits, found, fine, failed)
                    (still ∙ ap (λ xs. update_each env date rate (take k rs) xs) same),
              )
            ]
      ]

  due-not_overdue :
      (xs : List Rental) → All (λ r. is_overdue r.status ≡ false) (filter (is_due date) xs)
  due-not_overdue [] = tt
  due-not_overdue (x ∷ xs) = elim (Bool-cases (is_due date x)) [
    | inl due ↦ rw due (ground (arith, due), due-not_overdue xs)
    | inr miss ↦ rw miss (due-not_overdue xs)
  ]

  includes-later :
      (y : Rental) (rs xs : List Rental)
      → All (λ r. includes (ids xs) r.id ≡ true) rs
      → All (λ r. includes (ids (y ∷ xs)) r.id ≡ true) rs
  includes-later y [] xs h = tt
  includes-later y (r ∷ rs) xs h = (ground (arith, h.0), includes-later y rs xs h.1)

  filter-includes :
      (p : Rental → Bool) (xs : List Rental)
      → All (λ r. includes (ids xs) r.id ≡ true) (filter p xs)
  filter-includes p [] = tt
  filter-includes p (x ∷ xs) =
      let rest = includes-later x (filter p xs) xs (filter-includes p xs) in
      elim (Bool-cases (p x)) [
        | inl hit ↦ rw hit (rw (==_refl x.id) refl, rest)
        | inr miss ↦ rw miss rest
      ]

-- If no two rentals have one id, and the late fee of every rental that is due fits its column, the
-- job succeeds, and on the rentals its loop of queries and updates is one update: every rental that is
-- ongoing or waits for its return after its end becomes overdue, with the late fee of its end and
-- the configured rate, and no other rental changes.
pub run_reminder_jobs_lem :
    (env : Env) (date : ℕ) (db : Database)
    → IsUnique (ids db.rentals)
    → All
        (λ r.
          calculate_late_fee r.end_at date (numeric_config db ConfigKey.late_fee_rate 0)
          ≤ 2147483647)
        (filter (is_due date) db.rentals)
    → (c : ReminderCounts) × ((run_reminder_jobs env date db).0 ≡ ok c)
      × ((run_reminder_jobs env date db).1.rentals
          ≡ update_where
              (is_due date)
              (overdue_at env date (numeric_config db ConfigKey.late_fee_rate 0))
              db.rentals)
unfolding run_reminder_jobs
run_reminder_jobs_lem env date db unique small =
    let rate = numeric_config db ConfigKey.late_fee_rate 0 in
    let tomorrow = filter (starts_tomorrow date) db.rentals in
    let returns = filter (ends_tomorrow date) db.rentals in
    let due = filter (is_due date) db.rentals in
    let completed = filter (is_just_completed date) db.rentals in
    let (a, fine_a, same_a) = remind_start-KeepsRentals env date tomorrow db in
    let db1 = (remind_start env date tomorrow db).1 in
    let (b, fine_b, same_b) = remind_return-KeepsRentals env date returns db1 in
    let db2 = (remind_return env date returns db1).1 in
    let same_ab : db2.rentals ≡ db.rentals = same_b ∙ same_a in
    let (c, fine_c, same_c) =
      mark_overdue_lem env date rate due db2 (due-not_overdue env date rate db.rentals)
        (rw same_ab (filter-includes env date rate (is_due date) db.rentals)) small in
    let db3 = (mark_overdue env date rate due db2).1 in
    let (d, fine_d, same_d) = remind_review-KeepsRentals env date db.reviews completed db3 in
    (
      record { rental_tomorrow = a; return_reminder = b; overdue = c; review_reminder = d },
      rw (fine_a, fine_b, fine_c, fine_d) refl,
      rw (fine_a, fine_b, fine_c, fine_d)
          (same_d
            ∙ same_c
            ∙ ap (λ xs. update_each env date rate due xs) same_ab
            ∙ update_each-filter env date rate db.rentals unique),
    )

-- Whether the job succeeds or not, it marks the first of the rentals that are due.
run_reminder_jobs-first :
    (env : Env) (date : ℕ) (db : Database)
    → (n : ℕ) × ((run_reminder_jobs env date db).1.rentals
        ≡ update_each env date
            (numeric_config db ConfigKey.late_fee_rate 0)
            (take n (filter (is_due date) db.rentals))
            db.rentals)
unfolding run_reminder_jobs
run_reminder_jobs-first env date db =
    let rate = numeric_config db ConfigKey.late_fee_rate 0 in
    let tomorrow = filter (starts_tomorrow date) db.rentals in
    let returns = filter (ends_tomorrow date) db.rentals in
    let due = filter (is_due date) db.rentals in
    let completed = filter (is_just_completed date) db.rentals in
    let (a, fine_a, same_a) = remind_start-KeepsRentals env date tomorrow db in
    let db1 = (remind_start env date tomorrow db).1 in
    let (b, fine_b, same_b) = remind_return-KeepsRentals env date returns db1 in
    let db2 = (remind_return env date returns db1).1 in
    let same_ab : db2.rentals ≡ db.rentals = same_b ∙ same_a in
    let (n, same_c) =
      mark_overdue-first env date rate due db2 (due-not_overdue env date rate db.rentals)
        (rw same_ab (filter-includes env date rate (is_due date) db.rentals)) in
    let db3 = (mark_overdue env date rate due db2).1 in
    let (d, fine_d, same_d) = remind_review-KeepsRentals env date db.reviews completed db3 in
    let marked = same_c ∙ ap (λ xs. update_each env date rate (take n due) xs) same_ab in
    elim (Result-cases (mark_overdue env date rate due db2).0) [
      | inl (c, done) ↦ (n, rw (fine_a, fine_b, done, fine_d) (same_d ∙ marked))
      | inr (e, failed) ↦ (n, rw (fine_a, fine_b, failed) marked)
    ]

-- So of a rental that is due it may make an overdue one, and every other one it leaves.
pub run_reminder_jobs-Rows :
    (env : Env) (date : ℕ) (db : Database)
    → IsUnique (ids db.rentals)
    → Rows
        (IsLeftOrOverdue env date (numeric_config db ConfigKey.late_fee_rate 0))
        db.rentals
        (run_reminder_jobs env date db).1.rentals
run_reminder_jobs-Rows env date db unique =
    let (n, same) = run_reminder_jobs-first env date db in
    rw same
      (update_each-Rows env date (numeric_config db ConfigKey.late_fee_rate 0) n db.rentals unique)

-- After the end of a rental, and with a rate above 0, the late fee is the rate times the hours
-- since the end, a begun hour counted in full.
pub calculate_late_fee_lem :
    (end_at date rate : ℕ)
    → end_at < date
    → 0 < rate
    → (h : ℕ) × (calculate_late_fee end_at date rate ≡ h * rate)
      × (0 < h)
      × (date ≤ end_at + h * 3600000)
      × (end_at + h * 3600000 < date + 3600000)
unfolding calculate_late_fee
calculate_late_fee_lem end_at date rate late paid = (
  overdue_hours end_at date,
  ground (arith, paid),
  ground (arith, late),
  ground (arith, late),
  ground (arith, late),
)

-- If no two rentals have one id, a rental that is overdue already is not changed by the job,
-- whatever its date: its late fee stays what it is.
pub run_reminder_jobs-overdue :
    (env : Env) (date : ℕ) (db : Database) (i : ℕ) (r : Rental)
    → IsUnique (ids db.rentals)
    → get_elem? db.rentals i ≡ some r
    → is_overdue r.status ≡ true
    → get_elem? (run_reminder_jobs env date db).1.rentals i ≡ some r
run_reminder_jobs-overdue env date db i r unique there late =
    let rate = numeric_config db ConfigKey.late_fee_rate 0 in
    let (s, at, kept) =
      get_elem?-Rows (IsLeftOrOverdue env date rate) db.rentals
        (run_reminder_jobs env date db).1.rentals i r (run_reminder_jobs-Rows env date db unique)
        there in
    elim kept [ inl same ↦ rw same at at | inr marked ↦ absurd (ground (arith, late, marked.0)) ]
