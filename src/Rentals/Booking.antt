-- ===== src/Rentals/Booking.antt =====
-- RentalsService: create, listMine, approve, decline, requestReturn.
mod Terms
mod Creation
mod Approval
unfoldable pub use Terms.*
unfoldable pub use Creation.*
unfoldable pub use Approval.*
