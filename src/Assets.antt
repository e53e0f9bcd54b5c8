-- ===== src/Assets.antt =====
-- AssetsService: the listings of assets. apps/api/src/assets/assets.service.ts
pub mod Guards
pub mod Forms
pub mod Listing
pub mod Requests
mod Changes
pub mod Invariant
pub mod Control
pub mod Query
pub mod Ranking
pub mod Search
pub mod Sorting
pub mod Availability
pub mod Pages
mod Tests
