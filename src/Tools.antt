-- ===== src/Tools.antt =====
-- The tool server: app/tools/enforcement.py with what it stands on, the verification of tokens and the
-- policy client of the SDK, and the workload check with its denylist.
pub mod Tokens
pub mod Revocation
pub mod Workload
pub mod Policy
pub mod Enforcement
pub mod Backends
pub mod Catalog
mod Tests
