-- ===== src/Evolution.antt =====
-- sqlagent/evolution/graph.py: from failed queries to a change of the skill workspace.
mod Surface
mod Mutation
mod Evolve
pub mod Bounded
pub mod Guarded
pub mod Reported
mod Tests
unfoldable pub use Surface.*
unfoldable pub use Mutation.*
unfoldable pub use Evolve.*
