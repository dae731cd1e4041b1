-- ===== src/Portfolio.antt =====
-- app/domain/portfolio: holdings, trades, the replay that derives one from the other.
pub mod Schema
pub mod Repository
pub mod Replay
pub mod Response
pub mod Service
pub mod Holdings
pub mod Books
pub mod Tests
