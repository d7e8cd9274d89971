-- ===== src/Analytical/Stages.antt =====
-- sqlagent/analytical.py: AnalyticalPlanCompiler._compile_stage, a function for each kind of stage.
use Prim.Native.String.{◌++◌}
use po_c_sqlagent.Base.{
  String, not, ◌&&◌, ◌||◌, List, [], ◌∷◌, ◌++◌ as append, ok, err, ◌>>=◌, ◌>>◌, guard,
  if◌then◌else◌,
}
use po_c_sqlagent.Text.{◌=ₛ◌, member, lower, upper, join}
use po_c_sqlagent.Python.{Value, dict, Fields, attribute_error, Py, truthy, get, repr_str}
use po_c_sqlagent.Composer.{Schema, has_table, entries, text_or, sorted}
use po_c_sqlagent.Analytical.Terms.{plan_error, ident}
use po_c_sqlagent.Analytical.Expressions.{compile_at}
use po_c_sqlagent.Analytical.Tables.{
  Stages, item, include, is_empty, to_set, union, subset, intersect, minus_set, names_at,
  show_names, schema_columns,
}

-- The SQL of a stage, the set of its columns and its grain.
abbrev pub Compiled : Type 0
Compiled = String × List String × List String

-- `[_ident(item) for item in names]`.
unfoldable pub idents : List String → Py (List String)
unfolding ident
idents [] = ok []
idents (x ∷ xs) = do one ← ident x; more ← idents xs; ok (one ∷ more)

-- `_input`: the stage that is read, and its columns.
unfoldable pub input : Fields → Stages → Py (String × List String)
unfolding text_or has_table item
input stage outputs = do
  let source = text_or "input" "" stage
  guard (has_table outputs source)
      (plan_error ("unknown or forward input stage " ++ repr_str source))
  columns ← item source outputs
  ok (source, columns)

-- `[str(item) for item in stage.get("columns") or sorted(self.schema[table])]`.
unfoldable pub selected_columns : Schema → String → Fields → Py (List String)
unfolding truthy get names_at sorted schema_columns
selected_columns schema table stage =
    if truthy (get "columns" stage)
    then names_at "columns" stage
    else ok (sorted (schema_columns schema table))

unfoldable pub select_from : List String → String → String
unfolding join
select_from parts source = "SELECT " ++ (join ", " parts ++ (" FROM " ++ source))

unfoldable pub compile_scan : Schema → Fields → Py Compiled
unfolding text_or has_table selected_columns minus_set subset names_at idents select_from
compile_scan schema stage = do
  let table = text_or "table" "" stage
  guard (has_table schema table) (plan_error ("unknown table " ++ repr_str table))
  selected ← selected_columns schema table stage
  guard (subset selected (schema_columns schema table)) (
      plan_error (
        "unknown columns in "
        ++ (table
            ++ (": " ++ show_names (minus_set (to_set selected) (schema_columns schema table))))))
  grain ← names_at "grain" stage
  guard (subset grain selected) (plan_error "scan grain must be present in selected columns")
  parts ← idents selected
  source ← ident table
  ok (select_from parts source, to_set selected, grain)

unfoldable pub compile_filter : Fields → Stages → Stages → Py Compiled
unfolding input compile_at ident item
compile_filter stage outputs grains = do
  (source, columns) ← input stage outputs
  predicate ← compile_at columns "where" stage
  from ← ident source
  grain ← item source grains
  ok ("SELECT * FROM " ++ (from ++ (" WHERE " ++ predicate)), columns, grain)

abbrev pub cardinalities : List String
cardinalities = "one_to_one" ∷ "many_to_one" ∷ "one_to_many" ∷ []

abbrev pub join_kinds : List String
join_kinds = "inner" ∷ "left" ∷ []

unfoldable pub join_sql : String → String → String → String → String → String
unfolding upper
join_sql left how right left_key right_key =
    "SELECT l.*, r.* FROM "
    ++ (left
        ++ (" AS l "
            ++ (upper how
                ++ (" JOIN "
                    ++ (right ++ (" AS r ON l." ++ (left_key ++ (" = r." ++ right_key))))))))

-- A fan-out gives up the grain of the left side.
unfoldable pub join_grain : String → String → Stages → Py (List String)
unfolding item
join_grain cardinality left grains =
    if cardinality =ₛ "one_to_one" || cardinality =ₛ "many_to_one" then item left grains else ok []

unfoldable pub compile_join : (String → String → String) → Fields → Stages → Stages → Py Compiled
unfolding text_or has_table item truthy get intersect is_empty lower ident join_sql join_grain union
compile_join known stage outputs grains = do
  let left = text_or "left" "" stage
  let right = text_or "right" "" stage
  guard (has_table outputs left && has_table outputs right)
      (plan_error "join inputs must reference prior stages")
  let left_key = text_or "left_key" "" stage
  let right_key = text_or "right_key" "" stage
  left_columns ← item left outputs
  right_columns ← item right outputs
  guard (member left_key left_columns && member right_key right_columns)
      (plan_error "join key is not present in its input")
  let cardinality = text_or "cardinality" (known left right) stage
  guard (member cardinality cardinalities) (plan_error "join cardinality must be declared")
  guard (not (cardinality =ₛ "one_to_many" && not (truthy (get "allow_fanout" stage))))
      (plan_error "one_to_many join requires explicit allow_fanout")
  let overlap = intersect left_columns right_columns
  guard (is_empty overlap)
      (plan_error ("join has ambiguous output columns: " ++ show_names overlap))
  let how = lower (text_or "how" "inner" stage)
  guard (member how join_kinds) (plan_error "only inner and left joins are supported")
  left_from ← ident left
  right_from ← ident right
  left_on ← ident left_key
  right_on ← ident right_key
  grain ← join_grain cardinality left grains
  ok (join_sql left_from how right_from left_on right_on, union left_columns right_columns, grain)

abbrev pub aggregates : List String
aggregates = "sum" ∷ "count" ∷ "count_distinct" ∷ "avg" ∷ "min" ∷ "max" ∷ []

-- "*", or the quoted column.
unfoldable pub argument_of : String → Py String
unfolding ident
argument_of column = if column =ₛ "*" then ok "*" else ident column

unfoldable pub aggregate_sql : String → String → String
unfolding upper
aggregate_sql agg argument =
    if agg =ₛ "count_distinct"
    then "COUNT(DISTINCT " ++ (argument ++ ")")
    else upper agg ++ ("(" ++ (argument ++ ")"))

unfoldable pub named : String → String → String
named expression alias = expression ++ (" AS " ++ alias)

-- One measure: its part of the SELECT and its alias.
unfoldable pub compile_measure : List String → Value → Py (String × String)
unfolding text_or lower member argument_of aggregate_sql named ident
compile_measure columns (dict measure) = do
  let agg = lower (text_or "agg" "" measure)
  let alias = text_or "alias" "" measure
  let column = text_or "column" "*" measure
  guard (member agg aggregates && not (alias =ₛ ""))
      (plan_error "unsupported aggregate or missing alias")
  guard (column =ₛ "*" || member column columns)
      (plan_error ("unknown aggregate column " ++ repr_str column))
  argument ← argument_of column
  name ← ident alias
  ok (named (aggregate_sql agg argument) name, alias)
compile_measure columns _ = err attribute_error

-- The loop over the measures: their parts, and the columns with their aliases.
unfoldable pub compile_measures :
    List String → List String → List Value → Py (List String × List String)
unfolding compile_measure include
compile_measures columns output [] = ok ([], output)
compile_measures columns output (v ∷ vs) = do
  (part, alias) ← compile_measure columns v
  (parts, out) ← compile_measures columns (include alias output) vs
  ok (part ∷ parts, out)

unfoldable pub group_clause : List String → String
unfolding join
group_clause [] = ""
group_clause (x ∷ xs) = " GROUP BY " ++ join ", " (x ∷ xs)

unfoldable pub compile_aggregate : Fields → Stages → Stages → Py Compiled
unfolding input names_at subset idents is_empty to_set entries compile_measures ident select_from
    group_clause
compile_aggregate stage outputs grains = do
  (source, columns) ← input stage outputs
  group_by ← names_at "group_by" stage
  guard (subset group_by columns) (plan_error "aggregate group_by contains an unknown column")
  keys ← idents group_by
  wanted ← entries "measures" stage
  (parts, output) ← compile_measures columns (to_set group_by) wanted
  guard (not (is_empty (append keys parts))) (plan_error "aggregate selects nothing")
  from ← ident source
  ok (select_from (append keys parts) from ++ group_clause keys, output, group_by)
