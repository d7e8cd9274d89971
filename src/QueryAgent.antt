-- ===== src/QueryAgent.antt =====
-- sqlagent/query_agent/graph.py: the graph that answers one question.
mod Question
mod State
mod Repair
mod Generator
mod Nodes
mod Graph
mod Response
mod Attempts
pub mod Budget
pub mod Safety
mod Blame
pub mod Acceptance
mod Tests
unfoldable pub use Question.*
unfoldable pub use State.*
unfoldable pub use Repair.*
unfoldable pub use Generator.*
unfoldable pub use Nodes.*
unfoldable pub use Graph.*
unfoldable pub use Response.*
