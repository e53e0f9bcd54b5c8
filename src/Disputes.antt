-- ===== src/Disputes.antt =====
-- DisputesService: apps/api/src/disputes/disputes.service.ts.
pub mod Guards
pub mod Opening
pub mod Handling
pub mod Requests
pub mod Access
pub mod Machine
mod Writes
pub mod Refinement
pub mod Sequences
pub mod Results
mod Tests
