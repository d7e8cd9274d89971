-- ===== src/FailureQueue.antt =====
-- sqlagent/failure_queue.py: the durable queue of failures.
mod Table
mod Operations
pub mod Updates
pub mod Keys
pub mod Unique
pub mod Skill
mod Count
pub mod Reach
pub mod Worker
pub mod Drain
mod Tests
unfoldable pub use Table.*
unfoldable pub use Operations.*
