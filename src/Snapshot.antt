-- ===== src/Snapshot.antt =====
-- app/domain/account_snapshot: the balance and the holdings of each account at the end of a month.
pub mod Holdings
pub mod Histories
pub mod Service
pub mod Report
pub mod Scans
pub mod Months
pub mod Single
pub mod Apart
pub mod Kept
pub mod Prices
pub mod Valuation
pub mod Tests
