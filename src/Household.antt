-- ===== src/Household.antt =====
-- app/domain/household: households, their members, and who may do what.
pub mod Repository
pub mod Schema
pub mod Service
pub mod Rules
pub mod Steps
pub mod Runs
pub mod Closed
pub mod Closing
pub mod Access
pub mod Tests
