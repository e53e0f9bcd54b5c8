-- ===== src/Payments.antt =====
-- PaymentService: apps/api/src/payment/payment.service.ts.
pub mod Code
pub mod Webhook
pub mod Results
pub mod Once
mod RoundTrip
mod Tests
