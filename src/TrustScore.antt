-- ===== src/TrustScore.antt =====
-- TrustScoreService: apps/api/src/trust-score/trust-score.service.ts.
pub mod Score
pub mod Results
mod Tests
