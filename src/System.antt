-- ===== src/System.antt =====
-- The services together, on one database.
pub mod Frees
mod Finance
mod Reviews
mod Listings
mod Disputes
pub mod Events
pub mod Safety
mod Tests
