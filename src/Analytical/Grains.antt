-- ===== src/Analytical/Grains.antt =====
-- sqlagent/analytical.py: the grain of a stage, the columns that tell its rows apart.
mod Kinds
pub mod Plan
pub use Kinds.*
