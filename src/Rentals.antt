-- ===== src/Rentals.antt =====
-- RentalsService: apps/api/src/rentals/rentals.service.ts. One child module for each group of
-- methods, and below them what is proved.
pub mod Guards
pub mod Booking
pub mod Intent
pub mod Settlement
pub mod Cancellation
pub mod Signing
pub mod Handovers
pub mod Issues
pub mod Requests
pub mod Lifecycle
pub mod DoubleBooking
pub mod Access
pub mod Once
pub mod Results
pub mod Tests
