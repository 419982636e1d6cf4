-- ===== src/Gateway.antt =====
-- app/gateway: the rate and cost limits of the model gateway. `Limits` is the in-memory limiter,
-- `Durable` the one in PostgreSQL.
pub mod Limits
pub mod Durable
pub mod Chat
mod Tests
