-- ===== src/Analytical/Scoped.antt =====
-- sqlagent/analytical.py: the names that the compiled SQL reads are in scope.
pub mod Sets
mod Sourced
mod Defs
pub mod Inputs
pub mod Shaped
pub mod Grouped
pub mod Windowed
pub mod Chain
pub use Defs.*
