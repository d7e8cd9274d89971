-- ===== src/Workspace.antt =====
-- sqlagent/workspace.py: the manifest of a workspace and its paths.
mod Paths
mod Manifest
pub mod Canonical
pub mod Inside
mod Tests
unfoldable pub use Paths.*
unfoldable pub use Manifest.*
