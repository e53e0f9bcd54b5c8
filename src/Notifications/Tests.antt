-- ===== src/Notifications/Tests.antt =====
-- Runs of NotificationsService, and its theorems at concrete inputs.
use borrow_hub.Common.{
  true, filter, All, ℕ, ◌+◌, ◌*◌, ◌≤◌, ◌<◌, ◌≡◌, refl, some, [], ◌∷◌, arith, get_elem?, length, map,
  update_where,
}
use borrow_hub.Schema.{RentalStatus, NotificationType, Reference, Rental, Database}
use borrow_hub.Store.{ok}
use borrow_hub.Rentals.Tests.Fixture.{env, db, rental}
use borrow_hub.Rentals.Lifecycle.Defs.{ids, IsUnique}
use borrow_hub.Rentals.Access.{is_error}
use borrow_hub.Notifications.Service.{
  create_many_unique, create_each_unique, create_unique, create_notification, same_type,
  same_reference,
}
use borrow_hub.Notifications.Reminders.{
  ReminderCounts, is_due, is_in_window, calculate_late_fee, mark_overdue, remind_start,
  remind_return, remind_review, run_reminder_jobs,
}
use borrow_hub.Notifications.Once.{create_many_unique-once}
use borrow_hub.Notifications.OneByOne.{overdue_at}
use borrow_hub.Notifications.Overdue.{
  run_reminder_jobs_lem, run_reminder_jobs-overdue, calculate_late_fee_lem,
}

-- Rental 21 is out since its end at 900000000, rental 22 is overdue already, rental 23 is not due.
abbrev late : Database
late = record db {
  rentals =
      rental 21 100 900000000 RentalStatus.ongoing
      ∷ rental 22 100 800000000 RentalStatus.overdue
      ∷ rental 23 100 2000000000 RentalStatus.ongoing
      ∷ [];
  config = λ key. some 10;
}

abbrev status_and_fee : Rental → RentalStatus × ℕ
status_and_fee r = (r.status, r.late_fee)

late_ids : IsUnique (ids late.rentals)
late_ids = (refl, (refl, (refl, tt)))

late_fees :
    All
      (λ r. calculate_late_fee r.end_at 1000000000 10 ≤ 2147483647)
      (filter (is_due 1000000000) late.rentals)
unfolding calculate_late_fee
late_fees = (omega arith, tt)

-- A fee that its column cannot hold: the job fails.
too_late : is_error (run_reminder_jobs env 1000000000000000000000 late).0 ≡ true
unfolding run_reminder_jobs mark_overdue remind_start remind_return remind_review create_each_unique
    create_unique create_notification calculate_late_fee same_type same_reference
too_late = refl

-- 28 hours, the last one begun, at 10 each; the parties of rental 21 are told, and not those of
-- rental 22, whose late fee stays 0.
late_run :
    map status_and_fee (run_reminder_jobs env 1000000000 late).1.rentals
    ≡ (RentalStatus.overdue, 280) ∷ (RentalStatus.overdue, 0) ∷ (RentalStatus.ongoing, 0) ∷ []
unfolding run_reminder_jobs mark_overdue remind_start remind_return remind_review create_each_unique
    create_unique create_notification calculate_late_fee same_type same_reference
late_run = refl

late_notices : length (run_reminder_jobs env 1000000000 late).1.notifications ≡ 2
unfolding run_reminder_jobs mark_overdue remind_start remind_return remind_review create_each_unique
    create_unique create_notification calculate_late_fee same_type same_reference
late_notices = refl

create_many_unique-once_example :
    create_many_unique env
      (1 ∷ 2 ∷ 1 ∷ [])
      NotificationType.rental_overdue
      (Reference.rental 21)
      (is_in_window 1000000000)
      (create_many_unique env
        (1 ∷ 2 ∷ 1 ∷ [])
        NotificationType.rental_overdue
        (Reference.rental 21)
        (is_in_window 1000000000)
        late).1
    ≡ (
      ok 0,
      (create_many_unique env
          (1 ∷ 2 ∷ 1 ∷ [])
          NotificationType.rental_overdue
          (Reference.rental 21)
          (is_in_window 1000000000)
          late).1,
    )
create_many_unique-once_example =
    create_many_unique-once NotificationType.rental_overdue (Reference.rental 21)
      (is_in_window 1000000000) env refl env (1 ∷ 2 ∷ 1 ∷ []) late

run_reminder_jobs_lem_example :
    (c : ReminderCounts) × ((run_reminder_jobs env 1000000000 late).0 ≡ ok c)
    × ((run_reminder_jobs env 1000000000 late).1.rentals
        ≡ update_where (is_due 1000000000) (overdue_at env 1000000000 10) late.rentals)
run_reminder_jobs_lem_example = run_reminder_jobs_lem env 1000000000 late late_ids late_fees

run_reminder_jobs-overdue_example :
    get_elem? (run_reminder_jobs env 1000000000 late).1.rentals 1
    ≡ some (rental 22 100 800000000 RentalStatus.overdue)
run_reminder_jobs-overdue_example =
    run_reminder_jobs-overdue env 1000000000 late 1 (rental 22 100 800000000 RentalStatus.overdue)
      late_ids refl refl

calculate_late_fee_lem_example :
    (h : ℕ) × (calculate_late_fee 900000000 1000000000 10 ≡ h * 10)
    × (0 < h)
    × (1000000000 ≤ 900000000 + h * 3600000)
    × (900000000 + h * 3600000 < 1000000000 + 3600000)
calculate_late_fee_lem_example =
    calculate_late_fee_lem 900000000 1000000000 10 (omega arith) (omega arith)
