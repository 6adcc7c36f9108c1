-- ===== src/User.antt =====
-- internal/user
pub mod Model
pub mod Repository
pub mod Service
pub mod Server
pub mod Login
pub mod Registration
mod Tests
