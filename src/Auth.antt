-- ===== src/Auth.antt =====
-- pkg/auth
pub mod Jwt
pub mod Resolver
pub mod Interceptor
pub mod Guard
pub mod Revocation
pub mod Samples
mod Tests
