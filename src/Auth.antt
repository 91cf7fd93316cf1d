-- ===== src/Auth.antt =====
-- packages/auth-utils: refresh tokens and their families.
pub mod Token
pub mod Family
pub mod Store
pub mod Refresh
pub mod RateLimit
mod Tests
