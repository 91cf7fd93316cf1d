-- ===== src/Bootstrap.antt =====
-- packages/bootstrap: the lifecycle of a service and its health checks.
pub mod Checks
pub mod Service
pub mod Probes
pub mod Env
mod Tests
