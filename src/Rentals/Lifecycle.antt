-- ===== src/Rentals/Lifecycle.antt =====
-- The life of a rental, over the requests of RentalsService.
pub mod Defs
pub mod Rules
pub mod Booking
mod Payments
mod Closing
pub mod Handovers
pub mod Requests
