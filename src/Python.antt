-- ===== src/Python.antt =====
-- The values of a dynamic program: what `json.loads` and `yaml.safe_load` return, with Python's
-- truth test, `str`, `repr`, `dict.get`, iteration and `int`.
mod Data
mod Show
mod Number
mod Tests
unfoldable pub use Data.*
unfoldable pub use Show.*
unfoldable pub use Number.*
