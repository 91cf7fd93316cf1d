-- ===== src/Cache.antt =====
-- packages/cache-kit: the cache in memory.
pub mod Memory
pub mod Client
mod Tests
