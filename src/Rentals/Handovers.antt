-- ===== src/Rentals/Handovers.antt =====
-- RentalsService: startHandover, confirmHandover, generateHandoverQr, confirmHandoverByQr.
mod Confirmation
mod QrCodes
unfoldable pub use Confirmation.*
unfoldable pub use QrCodes.*
