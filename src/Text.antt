-- ===== src/Text.antt =====
-- Python's `str` operations that the code uses, over the native texts. Letters are the ASCII and
-- the Cyrillic ones (the repository's two languages): other characters have no case.
mod Search
mod Shape
mod Replace
pub mod Laws
pub mod Words
mod Tests
unfoldable pub use Search.*
unfoldable pub use Shape.*
unfoldable pub use Replace.*
