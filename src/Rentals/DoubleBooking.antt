-- ===== src/Rentals/DoubleBooking.antt =====
-- No asset is promised twice: two rentals of one asset that reserve it have disjoint periods.
-- apps/api/src/rentals/rentals.service.ts, `create` and `approve`.
pub mod Calm
pub mod Approval
