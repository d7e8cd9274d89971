-- ===== src/Analytical.antt =====
-- sqlagent/analytical.py: the compiler of analytical plans, a DAG of stages, to one WITH query or to
-- a sequence of scratch queries.
mod Terms
mod Expressions
mod Tables
mod Stages
mod Derived
mod Plan
mod Candidates
mod Scratch
pub mod Lexer
pub mod Floats
pub mod Names
mod JoinRun
pub mod Scoped
pub mod Grains
mod Chosen
pub mod Choice
pub mod Setup
mod Tests
unfoldable pub use Terms.*
unfoldable pub use Expressions.*
unfoldable pub use Tables.*
unfoldable pub use Stages.*
unfoldable pub use Derived.*
unfoldable pub use Plan.*
unfoldable pub use Candidates.*
unfoldable pub use Scratch.*
