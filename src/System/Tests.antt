-- ===== src/System/Tests.antt =====
-- A run of all the services, and the theorem on them at a concrete input.
use borrow_hub.Common.{none, some, List, [], ◌∷◌}
use borrow_hub.Rentals.Requests.{Request}
use borrow_hub.Rentals.DoubleBooking.Calm.{IsConsistent}
use borrow_hub.Rentals.Tests.Fixture.{env, owner, renter, db, db-IsConsistent}
use borrow_hub.Disputes.Requests.{DisputeRequest}
use borrow_hub.Reviews.Requests.{ReviewRequest}
use borrow_hub.Schema.{ReportTargetType}
use borrow_hub.Assets.Requests.{AssetRequest}
use borrow_hub.Support.Requests.{TicketRequest}
use borrow_hub.Reports.Service.{ReportRequest}
use borrow_hub.System.Events.{Event, run_all}
use borrow_hub.System.Safety.{run_all-IsConsistent}

-- Two requests for one period are approved, the second in vain; rental 13 is disputed, rental 15 is
-- reviewed, the owner removes the listing, the renter asks the support and reports the owner, and
-- the reminder job runs.
abbrev events : List Event
events =
    Event.rental (record { env = env; user = owner; request = Request.approve 10 none })
    ∷ Event.rental (record { env = env; user = owner; request = Request.approve 14 none })
    ∷ Event.dispute (record {
      env = env;
      user = renter;
      request =
          DisputeRequest.create (record {
            rental_id = 13;
            reason = "OTHER";
            description = "broken";
            evidence_ids = [];
          });
    })
    ∷ Event.review (record {
      env = env;
      user = renter;
      request = ReviewRequest.create 15 (record { rating = 4; comment = none });
    })
    ∷ Event.listing (record { env = env; user = owner; request = AssetRequest.remove 7 none })
    ∷ Event.ticket (record {
      env = env;
      user = renter;
      request = TicketRequest.create (record {
        subject = "Late";
        description = "The drill is late";
        priority = none;
        rental_id = some 13;
        dispute_id = none;
        report_id = none;
      });
    })
    ∷ Event.report env renter (
        ReportRequest.create (record {
          target_type = ReportTargetType.user;
          target_id = 1;
          reason = "Rude";
          description = "The owner was rude";
        }))
    ∷ Event.reminder_job env 9000000000
    ∷ []

run_all-IsConsistent_example : IsConsistent (run_all events db).rentals
run_all-IsConsistent_example = run_all-IsConsistent events db db-IsConsistent
