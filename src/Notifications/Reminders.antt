-- ===== src/Notifications/Reminders.antt =====
-- NotificationsService: runReminderJobs. The reminder of favourite assets is left out, since it
-- reads the weekend from the local calendar.
use borrow_hub.Common.{
  ℕ, ◌+◌, ◌-◌, ◌*◌, ◌/◌, Bool, true, false, not, ◌&&◌, ◌||◌, List, [], ◌∷◌, ◌==◌, ltb, leb,
  if◌then◌else◌, filter, includes, map,
}
use borrow_hub.Schema.{
  RentalStatus, NotificationType, Rental, Review, ConfigKey, Reference, Effect, Env,
}
use borrow_hub.Store.{
  Exception, require, Action, pure, gets, when, emit, update_rental, ◌>>=◌, ◌>>◌,
}
use borrow_hub.Rentals.Guards.{get_numeric_config}
use borrow_hub.TrustScore.Score.{is_completed, is_overdue}
use borrow_hub.Notifications.Service.{create_many_unique}

abbrev pub hour_in_ms : ℕ
hour_in_ms = 3600000

abbrev pub day_in_ms : ℕ
day_in_ms = 24 * hour_in_ms

-- `createdAt >= referenceDate - 24 hours`
abbrev pub is_in_window : (reference_date created_at : ℕ) → Bool
is_in_window reference_date created_at = leb reference_date (created_at + day_in_ms)

-- `Math.ceil(elapsed / HOUR_IN_MS)`, at least 1
abbrev pub overdue_hours : (end_at reference_date : ℕ) → ℕ
overdue_hours end_at reference_date =
    let hours = (reference_date - end_at + (hour_in_ms - 1)) / hour_in_ms in
    if ltb hours 1 then 1 else hours

-- calculateLateFee, for a date after the end
unfoldable pub calculate_late_fee : (end_at reference_date late_fee_rate : ℕ) → ℕ
calculate_late_fee end_at reference_date late_fee_rate =
    let fee = overdue_hours end_at reference_date * late_fee_rate in
    if leb late_fee_rate 0 then 0 else fee

abbrev pub is_booked : RentalStatus → Bool
is_booked RentalStatus.confirmed = true
is_booked RentalStatus.ready_for_handover = true
is_booked _ = false

abbrev pub is_ongoing : RentalStatus → Bool
is_ongoing RentalStatus.ongoing = true
is_ongoing _ = false

abbrev pub is_still_out : RentalStatus → Bool
is_still_out RentalStatus.ongoing = true
is_still_out RentalStatus.return_pending = true
is_still_out _ = false

-- In [referenceDate, referenceDate + 24 hours)
abbrev pub is_next_day : (reference_date time : ℕ) → Bool
is_next_day reference_date time = leb reference_date time && ltb time (reference_date + day_in_ms)

abbrev pub starts_tomorrow : (reference_date : ℕ) → Rental → Bool
starts_tomorrow reference_date r = is_booked r.status && is_next_day reference_date r.start_at

abbrev pub ends_tomorrow : (reference_date : ℕ) → Rental → Bool
ends_tomorrow reference_date r = is_ongoing r.status && is_next_day reference_date r.end_at

-- The `where` of the overdue rentals.
abbrev pub is_due : (reference_date : ℕ) → Rental → Bool
is_due reference_date r = is_still_out r.status && ltb r.end_at reference_date

abbrev pub is_just_completed : (reference_date : ℕ) → Rental → Bool
is_just_completed reference_date r =
    is_completed r.status && leb reference_date (r.updated_at + 7 * day_in_ms)

abbrev pub notify_once : Env → (reference_date : ℕ) → List ℕ → NotificationType → Rental → Action ℕ
notify_once env reference_date ids t r =
    create_many_unique env ids t (Reference.rental r.id) (is_in_window reference_date)

unfoldable pub remind_start : Env → (reference_date : ℕ) → List Rental → Action ℕ
remind_start env reference_date [] = pure 0
remind_start env reference_date (r ∷ rs) = do
  created ←
      notify_once env reference_date (r.owner_id ∷ r.renter_id ∷ [])
        NotificationType.rental_tomorrow r
  when (ltb 0 created) (emit (Effect.chat_message r.id r.owner_id))
  rest ← remind_start env reference_date rs
  pure (created + rest)

unfoldable pub remind_return : Env → (reference_date : ℕ) → List Rental → Action ℕ
remind_return env reference_date [] = pure 0
remind_return env reference_date (r ∷ rs) = do
  created ←
      notify_once env reference_date (r.owner_id ∷ r.renter_id ∷ [])
        NotificationType.return_reminder r
  rest ← remind_return env reference_date rs
  pure (created + rest)

abbrev pub set_overdue : (late_fee : ℕ) → Rental → Rental
set_overdue late_fee r = record r { status = RentalStatus.overdue; late_fee = late_fee }

-- The greatest number of an `Int` column; `lateFee` is one.
abbrev pub max_int : ℕ
max_int = 2147483647

unfoldable pub mark_overdue : Env → (reference_date late_fee_rate : ℕ) → List Rental → Action ℕ
mark_overdue env reference_date late_fee_rate [] = pure 0
mark_overdue env reference_date late_fee_rate (r ∷ rs) = do
  let late_fee = calculate_late_fee r.end_at reference_date late_fee_rate
  when (not (is_overdue r.status) || not (r.late_fee == late_fee)) (
      require (leb late_fee max_int) Exception.out_of_range
      >> update_rental env r.id (set_overdue late_fee)
      >> pure tt)
  created ←
      notify_once env reference_date (r.owner_id ∷ r.renter_id ∷ []) NotificationType.rental_overdue
        r
  rest ← mark_overdue env reference_date late_fee_rate rs
  pure (created + rest)

-- The parties that have not reviewed the rental; `reviews` is read with the rental.
abbrev pub missing_review_users : List Review → Rental → List ℕ
missing_review_users reviews r =
    let reviewers = map (λ v. v.reviewer_id) (filter (λ v. v.rental_id == r.id) reviews) in
    filter (λ i. not (includes reviewers i)) (r.owner_id ∷ r.renter_id ∷ [])

unfoldable pub remind_review : Env → (reference_date : ℕ) → List Review → List Rental → Action ℕ
remind_review env reference_date reviews [] = pure 0
remind_review env reference_date reviews (r ∷ rs) = do
  created ←
      notify_once env reference_date (missing_review_users reviews r)
        NotificationType.review_reminder r
  rest ← remind_review env reference_date reviews rs
  pure (created + rest)

pub record ReminderCounts : Type 0 where
  pub rental_tomorrow : ℕ
  pub return_reminder : ℕ
  pub overdue : ℕ
  pub review_reminder : ℕ

-- The queries are all answered before the first loop. The reference date is a time: where the text of
-- the request is no date, the first query throws, and nothing has been done.
unfoldable pub run_reminder_jobs : Env → (reference_date : ℕ) → Action ReminderCounts
run_reminder_jobs env reference_date = do
  late_fee_rate ← get_numeric_config ConfigKey.late_fee_rate 0
  tomorrow ← gets (λ db. filter (starts_tomorrow reference_date) db.rentals)
  returns ← gets (λ db. filter (ends_tomorrow reference_date) db.rentals)
  overdue ← gets (λ db. filter (is_due reference_date) db.rentals)
  completed ← gets (λ db. filter (is_just_completed reference_date) db.rentals)
  reviews ← gets (λ db. db.reviews)
  rental_tomorrow_count ← remind_start env reference_date tomorrow
  return_reminder_count ← remind_return env reference_date returns
  overdue_count ← mark_overdue env reference_date late_fee_rate overdue
  review_reminder_count ← remind_review env reference_date reviews completed
  pure (record {
    rental_tomorrow = rental_tomorrow_count;
    return_reminder = return_reminder_count;
    overdue = overdue_count;
    review_reminder = review_reminder_count;
  })
