-- ===== src/Rentals/Results.antt =====
-- What the methods of RentalsService do when they succeed.
pub mod Booking
pub mod Intent
pub mod Cancellation
pub mod Signing
pub mod Sessions
pub mod Settlement
