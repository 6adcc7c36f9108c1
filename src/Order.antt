-- ===== src/Order.antt =====
-- internal/order
pub mod Model
pub mod Services
pub mod Aggregate
pub mod EventStore
pub mod Publisher
pub mod ReadRepository
pub mod Projector
pub mod Command
pub mod Query
pub mod PaymentSubscriber
pub mod Server
pub mod Keeps
pub mod Reservations
pub mod Samples
pub mod Tests
pub mod History
