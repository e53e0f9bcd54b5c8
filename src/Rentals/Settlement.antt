-- ===== src/Rentals/Settlement.antt =====
-- RentalsService: settleVerifiedPayment, recordPayment, confirmDemoPayment.
mod Rows
mod Methods
unfoldable pub use Rows.*
unfoldable pub use Methods.*
