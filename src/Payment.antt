-- ===== src/Payment.antt =====
-- internal/payment
pub mod Model
pub mod Repository
pub mod Publisher
pub mod Subscriber
pub mod Server
pub mod Refund
pub mod Books
mod Tests
