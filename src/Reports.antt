-- ===== src/Reports.antt =====
-- ReportsService: reports of users, listings, reviews and messages.
-- apps/api/src/reports/reports.service.ts
pub mod Guards
pub mod Moderation
pub mod Service
pub mod Confined
pub mod Actions
pub mod Safety
pub mod Revival
mod Tests
