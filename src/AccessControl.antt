-- ===== src/AccessControl.antt =====
-- packages/access-control: the role- and attribute-based permission engine.
pub mod Truth
pub mod Values
pub mod Resolve
pub mod Evaluate
pub mod Roles
pub mod Policy
pub mod Engine
pub mod Guard
pub mod Validate
mod Tests
