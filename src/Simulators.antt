-- ===== src/Simulators.antt =====
-- The simulated systems behind the tools.
pub mod Data
pub mod Payments
pub mod Tickets
pub mod Crm
pub mod Demo
pub mod Systems
