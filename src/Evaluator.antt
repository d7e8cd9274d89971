-- ===== src/Evaluator.antt =====
-- sqlagent/evaluator/engine.py: the gate between an evolved skill and the main branch.
mod Gate
pub mod Promotion
pub mod Promote
mod Tests
unfoldable pub use Gate.*
