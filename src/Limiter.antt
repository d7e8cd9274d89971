-- ===== src/Limiter.antt =====
-- sqlagent/concurrency.py: the adaptive limiter of concurrent calls.
mod Slots
mod Turns
pub mod Reached
pub mod Recovery
mod Tests
unfoldable pub use Slots.*
