-- ===== src/System/Events.antt =====
-- What may happen to the database: a request to one of the services, or a run of the reminder job,
-- each run to its end before the next. apps/api/src/app.module.ts puts the services together.
use borrow_hub.Common.{ℕ, List, [], ◌∷◌}
use borrow_hub.Schema.{Database, AuthenticatedUser, Env}
use borrow_hub.Rentals.Requests.{Call, handle}
use borrow_hub.Finance.Requests.{FinanceCall, process}
use borrow_hub.Disputes.Requests.{DisputeCall, settle_dispute}
use borrow_hub.Reviews.Requests.{ReviewCall, answer}
use borrow_hub.Assets.Requests.{AssetCall, serve_listing}
use borrow_hub.Support.Requests.{TicketCall, serve_ticket}
use borrow_hub.Reports.Service.{ReportRequest, serve_report}
use borrow_hub.Notifications.Reminders.{run_reminder_jobs}

pub data Event : Type 0 where
  rental : Call → Event
  finance : FinanceCall → Event
  dispute : DisputeCall → Event
  review : ReviewCall → Event
  listing : AssetCall → Event
  ticket : TicketCall → Event
  report : Env → AuthenticatedUser → ReportRequest → Event
  reminder_job : Env → (reference_date : ℕ) → Event

unfoldable pub step : Event → Database → Database
step (Event.rental c) db = (handle c.env c.user c.request db).1
step (Event.finance c) db = process c.env c.user c.request db
step (Event.dispute c) db = settle_dispute c.env c.user c.request db
step (Event.review c) db = (answer c.env c.user c.request db).1
step (Event.listing c) db = (serve_listing c.env c.user c.request db).1
step (Event.ticket c) db = (serve_ticket c.env c.user c.request db).1
step (Event.report env u q) db = (serve_report env u q db).1
step (Event.reminder_job env reference_date) db = (run_reminder_jobs env reference_date db).1

unfoldable pub run_all : List Event → Database → Database
run_all [] db = db
run_all (e ∷ es) db = run_all es (step e db)
