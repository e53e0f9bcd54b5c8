-- ===== src/Rentals/Tests.antt =====
-- A small database, runs of the methods on it, and the theorems at concrete inputs.
pub mod Fixture
mod Runs
mod Witnesses
