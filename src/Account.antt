-- ===== src/Account.antt =====
-- app/domain/account: accounts, their balances, the cascade of a deletion, and the report.
pub mod Schema
pub mod Repository
pub mod Paging
pub mod Balance
pub mod Service
pub mod Report
pub mod Tests
