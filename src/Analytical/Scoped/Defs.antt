-- ===== src/Analytical/Scoped/Defs.antt =====
-- What a name in the SQL of a stage may be.
use po_c_sqlagent.Base.{String, true, ◌≡◌, List, In}
use po_c_sqlagent.Composer.{Schema}
use po_c_sqlagent.Composer.Query.{TableOf, ColumnOf}
use po_c_sqlagent.Analytical.Terms.{is_identifier}
use po_c_sqlagent.Analytical.Tables.{Stages}
use po_c_sqlagent.Analytical.Stages.{Compiled}
use po_c_sqlagent.Analytical.Lexer.{Piece}

-- A table of the schema or a column of one, a stage compiled before or a column of one, or a column
-- of the stage's own output.
pub data InScope (schema : Schema) (outputs : Stages) (columns : List String) (n : String)
    : Type 0 where
  table : TableOf schema n → InScope schema outputs columns n
  column : (t : String) → ColumnOf schema t n → InScope schema outputs columns n
  stage : TableOf outputs n → InScope schema outputs columns n
  stage_column : (s : String) → ColumnOf outputs s n → InScope schema outputs columns n
  derived : In n columns → InScope schema outputs columns n

-- An identifier that needs no quoting and is in scope.
abbrev pub Name : Schema → Stages → List String → String → Type 0
Name schema outputs columns n = (is_identifier n ≡ true) × InScope schema outputs columns n

abbrev pub ScopedSql : Schema → Stages → Compiled → Type 0
ScopedSql schema outputs (sql, columns, grain) = Piece (Name schema outputs columns) sql
