-- ===== src/Composer.antt =====
-- sqlagent/composer.py: the deterministic assembler of one SELECT from a JSON query plan.
mod Quote
mod Check
mod Parts
mod Assemble
pub mod Scan
mod Examples
pub mod Query
pub mod Sound
mod Joins
mod Ordered
pub mod Scope
unfoldable pub use Quote.*
unfoldable pub use Check.*
unfoldable pub use Parts.*
unfoldable pub use Assemble.*
