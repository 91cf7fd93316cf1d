-- ===== src/Http.antt =====
-- packages/http-client: requests that are tried again, and URLs.
pub mod Retry
pub mod Path
mod Tests
