-- ===== src/Idempotency.antt =====
-- app/core/idempotency: a POST with an Idempotency-Key is run once, and its reply is kept.
pub mod Store
pub mod Middleware
pub mod Rows
pub mod Sessions
pub mod Dispatch
pub mod Sequential
pub mod Tests
