-- ===== src/Core.antt =====
-- The shared kernel of the backend (app/core): error codes and results, the calendar, text
-- trimming, and the database session of one request.
mod Errors
mod Dates
mod Decimals
mod Text
mod Session
unfoldable pub use Errors.*
unfoldable pub use Dates.*
unfoldable pub use Decimals.*
unfoldable pub use Text.*
unfoldable pub use Session.*
