-- ===== src/Scratch.antt =====
-- sqlagent/scratch.py: ScratchExecutor, which runs the queries of a scratch plan on one connection.
mod Session
mod Executor
pub mod Issued
mod Tests
unfoldable pub use Session.*
unfoldable pub use Executor.*
