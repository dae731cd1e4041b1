-- ===== src/Model.antt =====
-- The tables of the database, one record for each ORM class.
mod Enums
mod Entities
mod Tables
unfoldable pub use Enums.*
unfoldable pub use Entities.*
unfoldable pub use Tables.*
