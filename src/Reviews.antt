-- ===== src/Reviews.antt =====
-- ReviewsService: apps/api/src/reviews/reviews.service.ts.
pub mod Service
pub mod Requests
pub mod Changes
pub mod Invariant
pub mod Window
mod Tests
