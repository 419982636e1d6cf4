-- ===== src/Approvals.antt =====
-- app/approvals/store.py: the approval store of high-risk actions. `Store` is the in-memory backend,
-- `Postgres` the durable one, `Args` the comparison of arguments; the rest are proofs.
pub mod Args
pub mod Store
pub mod Binding
pub mod Safety
pub mod Postgres
pub mod Granted
mod Tests
