-- ===== src/Wiring.antt =====
-- cmd: the services as they are connected to each other.
pub mod ProductClient
pub mod Statements
pub mod Stock
pub mod Ledger
pub mod Orders
pub mod Payments
pub mod Sessions
mod Tests
