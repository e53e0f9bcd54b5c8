-- ===== src/Lib.antt =====
-- Borrow Hub: the core of the API.
--
-- Borrow Hub lets people rent things from one another. Its API (apps/api, NestJS over PostgreSQL
-- through Prisma) has one service for each part of the product. The service that ties them together
-- is RentalsService, in apps/api/src/rentals/rentals.service.ts: it takes a rental from the
-- request through approval, payment, contract, handover and return, or to a cancellation or a
-- dispute. RentalsController calls it for the signed-in user, and PaymentService calls
-- `settleVerifiedPayment` for a bank transfer. It calls the services for notifications, audit,
-- analytics, chat, risk and trust. FinanceService refunds payments and pays the owners,
-- DisputesService settles what the parties quarrel about, ReviewsService takes their reviews,
-- TrustScoreService scores them, and NotificationsService has a job that marks rentals overdue.
-- AssetsService keeps the listings that are rented and searches them, SupportService the tickets of
-- the users, and ReportsService what users report: staff moderates listings, reviews, messages,
-- tickets and users through it.
--
-- The files, and the code that they model:
--   Common       Boolean tests, integers, lists, sorted lists and texts over the native numbers.
--   Schema       apps/api/prisma/schema.prisma: the enums, the rows and the tables that the services
--                below use, with the rows of listings in Listings and those of tickets, messages
--                and reports in Support; the signed-in user; what a request takes from outside the
--                code.
--   Store        Monad: async methods that read and write the database and may throw; Queries: the
--                Prisma calls that change a table.
--   Rentals      RentalsService. Guards: findAccessibleRental and the assertions. Booking: create,
--                approve, decline, requestReturn, listMine. Intent: getPaymentIntent. Settlement:
--                settleVerifiedPayment, recordPayment, confirmDemoPayment. Cancellation: cancel.
--                Signing: signContract. Handovers: startHandover, confirmHandover,
--                generateHandoverQr, confirmHandoverByQr. Issues: uploadEvidence, reportIssue,
--                markAssetNotReturned. Requests: all of these as one data type, with their dispatch
--                `handle` and the run `serve` of a sequence of them.
--   Rentals/Lifecycle      the diagram of the statuses, and the table of rentals over requests.
--   Rentals/DoubleBooking  no two rentals that reserve one asset have periods that meet.
--   Rentals/Access         who is turned away.
--   Rentals/Once           what can happen only once.
--   Rentals/Results        what the methods do when they succeed.
--   Rentals/Tests          a small database, runs of the methods, and the theorems at concrete
--                          inputs.
--   Finance      FinanceService, in apps/api/src/finance/finance.service.ts, which works on the
--                payments and payouts that RentalsService writes. Refunds: createRefund,
--                updateRefundStatus; Payouts: updatePayoutStatus; Requests: the three as one data
--                type, and the run `process_all` of a sequence of them. Balance: the refunds of a
--                payment against what was paid; Results: the status of a payout; Tests: runs, and
--                the theorems at concrete inputs.
--   Payments     PaymentService, in apps/api/src/payment/payment.service.ts. Code:
--                extractPaymentCode; Webhook: handleSepayWebhook, which calls settleVerifiedPayment,
--                with verifySepaySignature and flagPaymentForReview; RoundTrip: the code that
--                buildPaymentCode makes; Results: what the webhook does; Once: a transfer that
--                is delivered again; Tests.
--   Disputes     DisputesService, in apps/api/src/disputes/disputes.service.ts. Guards: the
--                transitions, findAccessibleDispute and the assertions; Opening: create; Handling:
--                respond, acceptDamageReport, assign, updateStatus; Requests: these as one data type,
--                and the run `settle_disputes` of a sequence of them. Machine: the machine of the
--                statuses; Access, Writes, Refinement, Sequences: that the service runs it; Results:
--                a decision; Tests.
--   TrustScore   TrustScoreService, in apps/api/src/trust-score/trust-score.service.ts. Score:
--                recalculateUserTrustScore; Results; Tests.
--   Reviews      ReviewsService, in apps/api/src/reviews/reviews.service.ts. Service: create, update,
--                moderate; Requests: these with the validation and the guard of their routes, and the
--                run `answer_all` of a sequence of them. Changes: what they write; Invariant: the
--                table over requests; Window: who may change what; Tests.
--   Notifications  NotificationsService, in apps/api/src/notifications/notifications.service.ts.
--                Service: createMany, createManyUnique, markAsRead, markAllAsRead; Reminders:
--                runReminderJobs. Once: a reminder in its window; Keeps, OneByOne, Overdue: the rentals;
--                Tests.
--   Assets       AssetsService, in apps/api/src/assets/assets.service.ts. Guards: the assertions and
--                checks; Forms: the bodies of the requests and the rows that they make; Listing:
--                create, update, remove, moderate; Requests: these as one data type, and the run
--                `serve_listings` of a sequence of them. Query: the query of a search and its `where`
--                clause; Ranking: what is shown, filtered, ordered and cut; Search: search, getById,
--                listMine. Changes: what requests write; Control: who changes and who publishes a
--                listing; Invariant: durations and windows; Sorting: the orders of a search;
--                Availability: a search for dates against RentalsService.create; Pages: the pages of
--                a search; Tests.
--   Support      SupportService, in apps/api/src/support/support.service.ts. Guards: who sees and
--                manages a ticket, the lists, and the linked entities; Service: create, assign,
--                updateStatus, addNote; Requests: these as one data type, and the run `serve_tickets`
--                of a sequence of them. Changes: what they write; Fairness: who changes a ticket and
--                how; Tests.
--   Reports      ReportsService, in apps/api/src/reports/reports.service.ts. Guards: the assertions
--                and the target of a report; Moderation: applyModerationAction; Service: create,
--                assign, updateStatus, as the requests `serve_report`. Confined: the bounds of
--                what a request may change; Actions: the moderation actions; Safety: every request;
--                Revival: a listing after a report; Tests.
--   System       all of these on one database: Events is a request to any of them or a run of the
--                reminder job; Frees, Finance, Reviews, Disputes, Listings: what the services do to
--                rentals;
--                Safety: over any sequence of events; Tests.
-- A method keeps its name in snake case. A transaction or another part of a method that a theorem
-- speaks of has a name of its own (`reserve` is the transaction of `approve`, `settle` the one of
-- `settleVerifiedPayment`), with a comment that says which part it is.
--
-- How the code is read:
--   * A table is a list of rows in the order of their creation. A query is a test on the rows; an
--     `update` of a missing row throws, and so does a `create` that violates a unique index. Of the
--     unique indexes those are kept that the methods rely on.
--   * `$transaction` gives up all changes if its body throws. Row locks are left out, since a
--     request runs to its end before the next one starts. Theorems that allow for interleavings
--     say so: they let the copies that were read before be any.
--   * Identifiers are numbers. `Env` is what a request takes from outside the code: one reading of
--     the clock, the identifiers that the database makes, random text, the configuration, the hash
--     of a contract, and the text of an identifier. Nothing is assumed of them: an identifier that
--     is not fresh makes the `create` throw.
--   * Times are milliseconds, money is a natural number, and configured numbers are natural numbers.
--     The column of an amount is an Int of 32 bits; that a number does not fit it is modelled for the
--     late fee, which grows with time, and not for the amounts that come from prices.
--     `Math.round(a * p / 100)` is `(a * p + 50) / 100`.
--   * The trust score is an integer, and so is the net amount of a payout.
--   * Calls of sibling services are recorded in the field `effects` in their order, with whom they
--     concern and what they refer to; they return. So are the calls of `createMany` and, but in
--     ReviewsService, of `recalculateUserTrustScore`, though the methods themselves are modelled. The
--     texts of messages and events, the JSON metadata and the address of the bank QR image are left
--     out.
--   * Quotients that the code takes in floating point, an average of ratings, an age in days, are
--     compared and rounded exactly.
--   * What a search asks of the text search of the database, of the averages of ratings, of the
--     distance on the globe, of the order of texts and of the order in which it takes up the rows of
--     a query, which decides between rows that `orderBy` makes equal, is in the record `SearchTools`,
--     a parameter.
--     Its numbers are natural numbers: coordinates, ratings and distances are counts of some fixed
--     fraction.
--   * The HMAC that signs a webhook is a parameter of its configuration.
--   * A rental, a handover or a payment that a foreign key points to is there; where the code has no
--     branch for a missing one, the model answers `not_found`.
-- No function runs on fuel but `show`, which prints a number by its digits; 21 of them are enough
-- for every number that the API takes.
--
-- Not modelled: the analysis of images in DisputesService, which calls outside AI services; the
-- reminder of favourite assets, which reads the local calendar; a reference date that is no date; in AssetsService the upload of an
-- image, which is a call of the storage, and the mark of a favourite; the list of reports; the
-- texts of notifications.
-- Of the other services of apps/api/src, those for risk, identity checks, administration, users, chat,
-- categories, favourites, analytics and audit; the guards that sign users in, input validation by
-- class-validator but for the rating of a review; and the mobile app (apps/mobile), which shows
-- screens and calls the API.
pub mod Common
pub mod Schema
pub mod Store
pub mod Rentals
pub mod Assets
pub mod Disputes
pub mod Finance
pub mod Notifications
pub mod Payments
pub mod Reports
pub mod Reviews
pub mod Support
pub mod System
pub mod TrustScore
