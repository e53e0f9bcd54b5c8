-- ===== src/Finance.antt =====
-- FinanceService: apps/api/src/finance/finance.service.ts.
pub mod Refunds
pub mod Payouts
pub mod Requests
pub mod Balance
pub mod Results
mod Tests
