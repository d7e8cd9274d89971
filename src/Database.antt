-- ===== src/Database.antt =====
-- sqlagent/db.py: access to the database.
mod ReadOnly
mod JsonSafe
pub mod Words
unfoldable pub use ReadOnly.*
unfoldable pub use JsonSafe.*
