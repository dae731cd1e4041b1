-- ===== src/Category.antt =====
-- app/domain/category.
pub mod Service
pub mod Labels
pub mod Tests
