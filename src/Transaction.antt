-- ===== src/Transaction.antt =====
-- The transaction domain (app/domain/transaction): requests and their validation, the queries,
-- and the service. The proofs are in the modules below.
pub mod Schema
pub mod Repository
pub mod Sums
pub mod Validation
pub mod Response
pub mod Rules
pub mod Service
pub mod Paging
pub mod Ledger
pub mod Tests
