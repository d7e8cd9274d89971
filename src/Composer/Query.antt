-- ===== src/Composer/Query.antt =====
-- What an assembled query says: its parts as data, their SQL text, and when they keep to a schema.
use Prim.Native.String.{◌++◌}
use po_c_sqlagent.Base.{
  ◌≤◌, String, true, ◌≡◌, ◌≢◌, ◌⊎◌, Option, none, some, List, [], ◌∷◌, map, All, In, length,
}
use po_c_sqlagent.Python.{ℤ, Value}
use po_c_sqlagent.Composer.Quote.{quote_ident, quote_literal}
use po_c_sqlagent.Composer.Check.{Schema, columns?}
use po_c_sqlagent.Composer.Parts.{
  aggregations, filter_ops, qualified, add, join_clause, measure_expression,
}
use po_c_sqlagent.Composer.Assemble.{render, is_positive, max_joins, max_measures}

pub record JoinPart : Type 0 where
  pub table : String
  pub left_table : String
  pub left : String
  pub right : String

pub record MeasurePart : Type 0 where
  pub agg : String
  pub table : String
  pub column : String
  pub alias : String

pub record FilterPart : Type 0 where
  pub table : String
  pub column : String
  pub op : String
  pub value : Value

pub record OrderPart : Type 0 where
  pub by : String
  pub direction : String

pub record Query : Type 0 where
  pub base : String
  pub joins : List JoinPart
  pub dims : List (String × String)
  pub measures : List MeasurePart
  pub filters : List FilterPart
  pub order : Option OrderPart
  pub limit : Option ℤ

abbrev pub join_sql : JoinPart → String
join_sql j = join_clause j.left_table j.left j.table j.right

abbrev pub measure_sql : MeasurePart → String × String
measure_sql m = (measure_expression m.agg m.table m.column, m.alias)

abbrev pub filter_sql : FilterPart → String
filter_sql f = qualified f.table f.column ++ (" " ++ (f.op ++ (" " ++ quote_literal f.value)))

abbrev pub order_sql : Option OrderPart → String
order_sql none = ""
order_sql (some o) = " ORDER BY " ++ (quote_ident o.by ++ (" " ++ o.direction))

unfoldable pub sql_of : Query → String
sql_of q =
    render q.base (map join_sql q.joins) q.dims (map measure_sql q.measures)
      (map filter_sql q.filters) (order_sql q.order) q.limit

-- The schema has the table, and the column in it.
abbrev pub TableOf : Schema → String → Type 0
TableOf schema t = (cols : List String) × (columns? t schema ≡ some cols)

abbrev pub ColumnOf : Schema → String → String → Type 0
ColumnOf schema t c = (cols : List String) × (columns? t schema ≡ some cols) × In c cols

-- A column of the schema, or the star, which the code lets pass at every place.
abbrev pub ColumnOrStar : Schema → String → String → Type 0
ColumnOrStar schema t c = (c ≡ "*") ⊎ ColumnOf schema t c

-- Each join names a table of the schema and a column of it, and joins it to a column of a table
-- that was there before; `last` is the list of tables after all joins.
abbrev pub JoinsFrom : Schema → List String → List JoinPart → List String → Type 0
JoinsFrom schema known [] last = known ≡ last
JoinsFrom schema known (j ∷ js) last =
    (In j.left_table known × ColumnOf schema j.left_table j.left)
    × (TableOf schema j.table × ColumnOrStar schema j.table j.right)
    × JoinsFrom schema (add j.table known) js last

-- No alias occurs twice, nor in `before`.
abbrev pub FreshFrom : List String → List MeasurePart → Type 0
FreshFrom before [] = Unit
FreshFrom before (m ∷ ms) = (¬ In m.alias before) × FreshFrom (m.alias ∷ before) ms

abbrev pub MeasureOf : Schema → List String → MeasurePart → Type 0
MeasureOf schema known m =
    In m.agg aggregations × In m.table known × ColumnOrStar schema m.table m.column

abbrev pub FilterOf : Schema → List String → FilterPart → Type 0
FilterOf schema known f =
    In f.op filter_ops × In f.table known × ColumnOrStar schema f.table f.column

abbrev pub DimOf : Schema → List String → String × String → Type 0
DimOf schema known (t, c) = In t known × ColumnOrStar schema t c

abbrev pub OrderOf : List String → List String → Option OrderPart → Type 0
OrderOf columns aliases none = Unit
OrderOf columns aliases (some o) =
    (In o.by columns ⊎ In o.by aliases) × ((o.direction ≡ "ASC") ⊎ (o.direction ≡ "DESC"))

abbrev pub PositiveLimit : Option ℤ → Type 0
PositiveLimit none = Unit
PositiveLimit (some n) = is_positive n ≡ true

abbrev pub column_of : String × String → String
column_of (t, c) = c

abbrev pub alias_of : MeasurePart → String
alias_of m = m.alias

-- The query keeps to the schema: every table and column that it names is there or is the star.
pub record IsSound (schema : Schema) (q : Query) : Type 0 where
  pub known : List String
  pub base_known : TableOf schema q.base
  pub joins_known : JoinsFrom schema (q.base ∷ []) q.joins known
  pub few_joins : length q.joins ≤ max_joins
  pub dims_known : All (DimOf schema known) q.dims
  pub measures_known : All (MeasureOf schema known) q.measures
  pub aliases_fresh : FreshFrom [] q.measures
  pub few_measures : length q.measures ≤ max_measures
  pub selects : (q.dims ≢ []) ⊎ (q.measures ≢ [])
  pub filters_known : All (FilterOf schema known) q.filters
  pub order_selected : OrderOf (map column_of q.dims) (map alias_of q.measures) q.order
  pub limit_positive : PositiveLimit q.limit
