-- ===== src/Analytical/Lexer.antt =====
-- What a SQL text holds to a lexer, written from PostgreSQL's rules: a double quote opens and closes
-- a name, a single quote opens and closes a text, and a semicolon outside both ends the statement.
-- A doubled quote closes one token and opens the next, so a text with quotes inside stays closed.
mod Pieces
mod Number
mod Words
pub use Pieces.*
pub use Number.*
pub use Words.*
unfoldable pub use Defs.*
mod Defs
