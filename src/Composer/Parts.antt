-- ===== src/Composer/Parts.antt =====
-- sqlagent/composer.py, assemble_spec: the loops over joins, dimensions, measures and filters.
use Prim.Native.Char.{code}
use Prim.Native.String.{◌++◌}
use po_c_sqlagent.Base.{
  String, not, ◌&&◌, Option, none, some, List, [], ◌∷◌, ok, err, ◌>>=◌, ◌>>◌, guard, ◌==◌,
  if◌then◌else◌,
}
use po_c_sqlagent.Text.{
  ◌=ₛ◌, member, lower, upper, strip, lstrip, rstrip, is_space, sub_non_words, after_last,
}
use po_c_sqlagent.Python.{
  Value, str, list, dict, nil, cons, Fields, Py, value_error, either, get, get?, show, repr,
}
use po_c_sqlagent.Composer.Quote.{quote_ident, quote_literal}
use po_c_sqlagent.Composer.Check.{Schema, check_table, check_column, owner_of}

abbrev pub aggregations : List String
aggregations = "sum" ∷ "avg" ∷ "min" ∷ "max" ∷ "count" ∷ "count_distinct" ∷ []

abbrev pub filter_ops : List String
filter_ops = "=" ∷ "!=" ∷ ">" ∷ ">=" ∷ "<" ∷ "<=" ∷ []

-- `str(entry.get(key) or default)`.
unfoldable pub text_or : String → String → Fields → String
unfolding either get show
text_or key default entry = show (either (get key entry) (str default))

-- `a."b"` of the code's f-strings.
unfoldable pub qualified : String → String → String
unfolding quote_ident
qualified t c = quote_ident t ++ ("." ++ quote_ident c)

-- `re.split(r"\s*=\s*", s, maxsplit=1)`: the two sides of the first equals sign.
split_from : String → String → Option (String × String)
split_from before String.[] = none
split_from before (String.◌∷◌ c s) =
    if code c == 61
    then some (rstrip is_space before, lstrip is_space s)
    else split_from (before ++ String.◌∷◌ c "") s

unfoldable pub split_equals : String → Option (String × String)
unfolding split_from rstrip lstrip is_space
split_equals s = split_from "" s

-- `join.get("join", join.get("on", ""))`.
get_or : String → Value → Fields → Value
get_or key default entry = elim (get? key entry) [ none ↦ default | some v ↦ v ]

first_item : Value → Value
first_item (list nil) = str ""
first_item (list (cons v vs)) = v
first_item v = v

sides_of : Option (String × String) → String × String → String × String
sides_of none given = given
sides_of (some (l, r)) given =
    if not (l =ₛ "") && not (r =ₛ "") then (after_last "." l, after_last "." r) else given

-- The columns of a join, also from a model's "join" or "on" spelling.
unfoldable pub join_sides : Fields → String × String
unfolding text_or get_or first_item sides_of split_equals after_last get? show
join_sides entry =
    let left = text_or "left" "" entry in
    let right = text_or "right" "" entry in
    let expr = first_item (get_or "join" (get_or "on" (str "") entry) entry) in
    if not (left =ₛ "") && not (right =ₛ "")
    then (left, right)
    else sides_of (split_equals (show expr)) (left, right)

-- `known.add(table)`.
unfoldable pub add : String → List String → List String
unfolding member
add t known = if member t known then known else t ∷ known

-- One join: the tables known after it and its clause.
pub join_clause : String → String → String → String → String
join_clause left_table left table right =
    "JOIN "
    ++ (quote_ident table
        ++ (" ON " ++ (qualified left_table left ++ (" = " ++ qualified table right))))

unfoldable pub owner_or_error : Option String → String → Fields → Py String
owner_or_error (some t) left entry = ok t
owner_or_error none left entry =
    err (value_error ("unknown join column: " ++ (if left =ₛ "" then repr (dict entry) else left)))

unfoldable pub join_on :
    Schema → List String → Fields → String → String × String → Py (List String × String)
join_on schema known entry table (left, right) = do
  check_table schema table
  left_table ← owner_or_error (owner_of schema known left) left entry
  check_column schema table right
  ok (add table known, join_clause left_table left table right)

unfoldable pub assemble_join : Schema → List String → Value → Py (List String × String)
unfolding join_on owner_or_error join_clause text_or join_sides check_table check_column owner_of
    add
assemble_join schema known (dict entry) =
    join_on schema known entry (text_or "table" "" entry) (join_sides entry)
assemble_join schema known _ = err (value_error "join is not an object")

unfoldable pub assemble_joins : Schema → List String → List Value → Py (List String × List String)
unfolding assemble_join
assemble_joins schema known [] = ok (known, [])
assemble_joins schema known (v ∷ vs) = do
  (known', clause) ← assemble_join schema known v
  (all_known, clauses) ← assemble_joins schema known' vs
  ok (all_known, clause ∷ clauses)

-- A dimension: the table and the column of a group_by entry.
unfoldable pub assemble_dim : Schema → List String → String → Value → Py (String × String)
unfolding text_or member check_column
assemble_dim schema known base (dict entry) = do
  let table = text_or "table" base entry
  let column = text_or "column" "" entry
  guard (member table known) (value_error ("group_by table not joined: " ++ table))
  check_column schema table column
  ok (table, column)
assemble_dim schema known base _ = err (value_error "group_by entry is not an object")

unfoldable pub assemble_dims :
    Schema → List String → String → List Value → Py (List (String × String))
unfolding assemble_dim
assemble_dims schema known base [] = ok []
assemble_dims schema known base (v ∷ vs) = do
  dim ← assemble_dim schema known base v
  dims ← assemble_dims schema known base vs
  ok (dim ∷ dims)

-- A measure: its expression and its alias.
unfoldable pub measure_alias : Fields → String → String → String
unfolding text_or strip sub_non_words
measure_alias entry agg column =
    let name =
      strip (λ c. code c == 95) (sub_non_words (text_or "alias" (agg ++ ("_" ++ column)) entry)) in
    if name =ₛ "" then "measure" else name

unfoldable pub measure_expression : String → String → String → String
unfolding qualified upper
measure_expression agg table column =
    if (agg =ₛ "count") && (column =ₛ "*")
    then "COUNT(*)"
    else if agg =ₛ "count_distinct"
    then "COUNT(DISTINCT " ++ (qualified table column ++ ")")
    else upper agg ++ ("(" ++ (qualified table column ++ ")"))

unfoldable pub assemble_measure :
    Schema → List String → String → List String → Value → Py (String × String)
unfolding text_or lower member check_column measure_alias measure_expression
assemble_measure schema known base aliases (dict entry) = do
  let agg = lower (text_or "agg" "count" entry)
  guard (member agg aggregations) (value_error ("unsupported aggregation: " ++ agg))
  let column = text_or "column" "*" entry
  let table = text_or "table" base entry
  guard (member table known) (value_error ("measure table not joined: " ++ table))
  check_column schema table column
  let alias = measure_alias entry agg column
  guard (not (member alias aliases)) (value_error ("duplicate measure alias: " ++ alias))
  ok (measure_expression agg table column, alias)
assemble_measure schema known base aliases _ = err (value_error "measure is not an object")

unfoldable pub assemble_measures :
    Schema → List String → String → List String → List Value → Py (List (String × String))
unfolding assemble_measure
assemble_measures schema known base aliases [] = ok []
assemble_measures schema known base aliases (v ∷ vs) = do
  (expression, alias) ← assemble_measure schema known base aliases v
  measures ← assemble_measures schema known base (alias ∷ aliases) vs
  ok ((expression, alias) ∷ measures)

unfoldable pub assemble_filter : Schema → List String → String → Value → Py String
unfolding text_or strip is_space member check_column qualified quote_literal get
assemble_filter schema known base (dict entry) = do
  let table = text_or "table" base entry
  let column = text_or "column" "" entry
  let op = strip is_space (text_or "op" "=" entry)
  guard (member table known) (value_error ("filter table not joined: " ++ table))
  check_column schema table column
  guard (member op filter_ops) (value_error ("unsupported filter operator: " ++ op))
  ok (qualified table column ++ (" " ++ (op ++ (" " ++ quote_literal (get "value" entry)))))
assemble_filter schema known base _ = err (value_error "filter is not an object")

unfoldable pub assemble_filters : Schema → List String → String → List Value → Py (List String)
unfolding assemble_filter
assemble_filters schema known base [] = ok []
assemble_filters schema known base (v ∷ vs) = do
  part ← assemble_filter schema known base v
  parts ← assemble_filters schema known base vs
  ok (part ∷ parts)
