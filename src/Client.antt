-- ===== src/Client.antt =====
-- sqlagent/llm.py: the checked answer of a language model.
mod Schema
mod Chat
mod Provider
pub mod Conforms
pub mod Answered
pub mod Refused
mod Tests
unfoldable pub use Schema.*
unfoldable pub use Chat.*
unfoldable pub use Provider.*
