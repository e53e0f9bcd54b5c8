-- ===== src/System/Safety.antt =====
-- No service books an asset twice, and none undoes what RentalsService guards.
use borrow_hub.Common.{ℕ, ap, refl, sym, List, [], ◌∷◌, arith, inl, inr}
use mathlib.Core.Path.{subst}
use borrow_hub.Common.Rows.{Rows-map}
use borrow_hub.Schema.{Rental, ConfigKey, Database, Env}
use borrow_hub.Rentals.Guards.{numeric_config}
use borrow_hub.Rentals.DoubleBooking.Calm.{IsConsistent}
use borrow_hub.Rentals.DoubleBooking.Approval.{handle-IsConsistent}
use borrow_hub.Notifications.Reminders.{run_reminder_jobs}
use borrow_hub.Notifications.OneByOne.{IsLeftOrOverdue}
use borrow_hub.Notifications.Overdue.{run_reminder_jobs-Rows}
use borrow_hub.System.Events.{Event, step, run_all}
use borrow_hub.System.Frees.{Frees, Frees-refl, IsConsistent-RowsFree}
use borrow_hub.System.Finance.{process-rentals}
use borrow_hub.System.Reviews.{answer-rentals}
use borrow_hub.System.Listings.{serve_listing-rentals, serve_ticket-rentals}
use borrow_hub.Reports.Safety.{serve_report-IsConfined}
use borrow_hub.System.Disputes.{settle_dispute-RowsFree}

-- A rental that is overdue was reserved before.
overdue-Frees :
    (env : Env) (date rate : ℕ) (r s : Rental) → IsLeftOrOverdue env date rate r s → Frees r s
overdue-Frees env date rate r s (inl same) =
    subst (λ (x : Rental). Frees r x) (sym same) (Frees-refl r)
overdue-Frees env date rate r s (inr marked) =
    subst (λ (x : Rental). Frees r x) (sym marked.1)
      (record {
        same_id = refl;
        same_asset = refl;
        same_start = refl;
        same_end = refl;
        reserved = λ h. ground (arith, marked.0);
      })

step-IsConsistent :
    (e : Event) (db : Database) → IsConsistent db.rentals → IsConsistent (step e db).rentals
unfolding step
step-IsConsistent (Event.rental c) db h = handle-IsConsistent c.env c.user c.request db h
step-IsConsistent (Event.finance c) db h = rw (process-rentals c.env c.user c.request db) h
step-IsConsistent (Event.dispute c) db h =
    IsConsistent-RowsFree db.rentals _ (settle_dispute-RowsFree c.env c.user c.request db) h
step-IsConsistent (Event.review c) db h = rw (answer-rentals c.env c.user c.request db) h
step-IsConsistent (Event.listing c) db h = rw (serve_listing-rentals c.env c.user c.request db) h
step-IsConsistent (Event.ticket c) db h = rw (serve_ticket-rentals c.env c.user c.request db) h
step-IsConsistent (Event.report env u q) db h =
    rw (ap (λ (d : Database). d.rentals) (serve_report-IsConfined env u db q).rest) h
step-IsConsistent (Event.reminder_job env date) db h =
    let rate = numeric_config db ConfigKey.late_fee_rate 0 in
    let next = (run_reminder_jobs env date db).1.rentals in
    IsConsistent-RowsFree db.rentals next
      (Rows-map (IsLeftOrOverdue env date rate) Frees db.rentals next (overdue-Frees env date rate)
        (run_reminder_jobs-Rows env date db h.unique))
      h

-- Whatever requests reach the services for rentals, finance, disputes, reviews, listings, support and
-- reports, and however often the reminder job runs between them, no asset is booked twice: if no two
-- rentals have one id, and no two that reserve one asset have periods that meet, then so it is
-- afterwards.
pub run_all-IsConsistent :
    (es : List Event) (db : Database)
    → IsConsistent db.rentals
    → IsConsistent (run_all es db).rentals
unfolding run_all
run_all-IsConsistent [] db h = h
run_all-IsConsistent (e ∷ es) db h = run_all-IsConsistent es (step e db) (step-IsConsistent e db h)
