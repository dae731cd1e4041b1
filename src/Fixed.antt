-- ===== src/Fixed.antt =====
-- app/domain/fixed.
pub mod Schema
pub mod Service
pub mod Pages
pub mod Tests
