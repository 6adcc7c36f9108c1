-- ===== src/Product.antt =====
-- internal/product
pub mod Model
pub mod Repository
pub mod Service
pub mod Server
pub mod Stock
pub mod Oversell
pub mod Paging
mod Tests
