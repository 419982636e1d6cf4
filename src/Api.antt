-- ===== src/Api.antt =====
-- The platform's API: who a caller is and what the routes do.
pub mod Authz
pub mod State
pub mod Approvals
pub mod Workloads
pub mod Oversight
pub mod Users
pub mod Main
