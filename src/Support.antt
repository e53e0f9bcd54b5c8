-- ===== src/Support.antt =====
-- SupportService: the tickets of the support. apps/api/src/support/support.service.ts
pub mod Guards
pub mod Service
pub mod Requests
mod Changes
pub mod Fairness
mod Tests
