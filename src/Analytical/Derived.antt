-- ===== src/Analytical/Derived.antt =====
-- sqlagent/analytical.py: the stages union_all, window, rank and project of _compile_stage, and the
-- choice by kind.
use Prim.Native.String.{◌++◌}
use po_c_sqlagent.Base.{
  String, Bool, true, not, ◌&&◌, ◌||◌, List, [], ◌∷◌, ◌++◌ as append, ok, err, ◌>>=◌, ◌>>◌, guard,
  ltb, length, all, if◌then◌else◌,
}
use po_c_sqlagent.Text.{◌=ₛ◌, member, lower, upper, join}
use po_c_sqlagent.Python.{
  get_default, Value, bool, dict, Fields, key_error, attribute_error, Py, truthy, repr_str,
}
use po_c_sqlagent.Composer.{Schema, has_table, entries, text_or, sorted}
use po_c_sqlagent.Analytical.Terms.{plan_error, ident}
use po_c_sqlagent.Analytical.Expressions.{compile_at}
use po_c_sqlagent.Analytical.Tables.{
  Stages, item, include, is_empty, subset, same_set, same_names, names_at,
}
use po_c_sqlagent.Analytical.Stages.{
  Compiled, idents, input, select_from, named, compile_scan, compile_filter, compile_join,
  compile_aggregate,
}

-- `any(outputs[item] != first for item in inputs)`, negated.
unfoldable pub same_columns : List String → Stages → List String → Py Bool
unfolding item same_set
same_columns first outputs [] = ok true
same_columns first outputs (x ∷ xs) = do
  columns ← item x outputs
  rest ← same_columns first outputs xs
  ok (same_set columns first && rest)

-- `all(grains[item] == first for item in inputs)`.
unfoldable pub same_grains : List String → Stages → List String → Py Bool
unfolding item same_names
same_grains first grains [] = ok true
same_grains first grains (x ∷ xs) = do
  grain ← item x grains
  rest ← same_grains first grains xs
  ok (same_names grain first && rest)

-- One SELECT of the same columns for each input.
unfoldable pub union_parts : List String → List String → Py (List String)
unfolding idents ident select_from
union_parts ordered [] = ok []
union_parts ordered (x ∷ xs) = do
  columns ← idents ordered
  source ← ident x
  rest ← union_parts ordered xs
  ok (select_from columns source ∷ rest)

unfoldable pub later_inputs : List String → List String
later_inputs [] = []
later_inputs (x ∷ xs) = xs

-- The list is not empty where this is called: at least two inputs are there.
unfoldable pub first_input : List String → Py String
first_input [] = err key_error
first_input (x ∷ xs) = ok x

unfoldable pub compile_union : Fields → Stages → Stages → Py Compiled
unfolding names_at all has_table first_input later_inputs item same_columns union_parts sorted
    same_grains join
compile_union stage outputs grains = do
  inputs ← names_at "inputs" stage
  guard (not (ltb (length inputs) 2) && all (has_table outputs) inputs)
      (plan_error "union_all requires at least two prior inputs")
  head ← first_input inputs
  first ← item head outputs
  identical ← same_columns first outputs (later_inputs inputs)
  guard identical (plan_error "union_all inputs must expose identical columns")
  parts ← union_parts (sorted first) inputs
  grain ← item head grains
  same ← same_grains grain grains inputs
  ok (join " UNION ALL " parts, first, if same then grain else [])

abbrev pub windows : List String
windows = "row_number" ∷ "rank" ∷ "dense_rank" ∷ "lag" ∷ "lead" ∷ "sum" ∷ "avg" ∷ "count" ∷ []

abbrev pub ranking : List String
ranking = "row_number" ∷ "rank" ∷ "dense_rank" ∷ []

-- The words of an OVER clause, left out where no column stands in it.
unfoldable pub over_part : String → List String → List String
unfolding join
over_part word [] = []
over_part word (x ∷ xs) = (word ++ join ", " (x ∷ xs)) ∷ []

unfoldable pub window_sql : String → String → List String → List String → String
unfolding upper join over_part
window_sql function argument partition order =
    upper function
    ++ ("("
        ++ (argument
            ++ (") OVER ("
                ++ (join " "
                      (append (over_part "PARTITION BY " partition) (over_part "ORDER BY " order))
                    ++ ")"))))

-- `item.get("function") or ("rank" if kind == "rank" else "")`, in lower case.
unfoldable pub function_of : String → Fields → String
unfolding lower text_or
function_of kind entry = lower (text_or "function" (if kind =ₛ "rank" then "rank" else "") entry)

unfoldable pub window_argument : List String → String → Fields → Py String
unfolding member compile_at
window_argument columns function entry =
    if member function ranking then ok "" else compile_at columns "value" entry

unfoldable pub compile_window : List String → String → Fields → Py String
unfolding function_of member window_argument names_at subset idents window_sql
compile_window columns kind entry = do
  let function = function_of kind entry
  guard (member function windows) (plan_error ("unsupported window function " ++ repr_str function))
  argument ← window_argument columns function entry
  partition ← names_at "partition_by" entry
  order ← names_at "order_by" entry
  guard (subset (append partition order) columns) (plan_error "window references an unknown column")
  partition_by ← idents partition
  order_by ← idents order
  ok (window_sql function argument partition_by order_by)

unfoldable pub is_windowed : String → Bool
is_windowed kind = kind =ₛ "window" || kind =ₛ "rank"

unfoldable pub derived_sql : List String → String → Fields → Py String
unfolding is_windowed compile_window compile_at
derived_sql columns kind entry =
    if is_windowed kind then compile_window columns kind entry else compile_at columns "expr" entry

-- One derived column: its part of the SELECT and its alias.
unfoldable pub compile_derived : List String → String → Value → Py (String × String)
unfolding text_or derived_sql ident named
compile_derived columns kind (dict entry) = do
  let alias = text_or "alias" "" entry
  guard (not (alias =ₛ "")) (plan_error "derived expression requires alias")
  compiled ← derived_sql columns kind entry
  name ← ident alias
  ok (named compiled name, alias)
compile_derived columns kind _ = err attribute_error

-- The loop over the expressions: their parts, and the columns with their aliases.
unfoldable pub compile_deriveds :
    List String → String → List String → List Value → Py (List String × List String)
unfolding compile_derived include
compile_deriveds columns kind output [] = ok ([], output)
compile_deriveds columns kind output (v ∷ vs) = do
  (part, alias) ← compile_derived columns kind v
  (parts, out) ← compile_deriveds columns kind (include alias output) vs
  ok (part ∷ parts, out)

-- `stage.get("keep", True)`.
unfoldable pub keeps : Fields → Bool
unfolding truthy get_default
keeps stage = truthy (get_default "keep" (bool true) stage)

unfoldable pub compile_project : String → Fields → Stages → Stages → Py Compiled
unfolding input entries keeps compile_deriveds is_empty ident item select_from
compile_project kind stage outputs grains = do
  (source, columns) ← input stage outputs
  expressions ← entries "expressions" stage
  (parts, output) ← compile_deriveds columns kind (if keeps stage then columns else []) expressions
  let selected = if keeps stage then "*" ∷ parts else parts
  guard (not (is_empty selected)) (plan_error "project selects nothing")
  from ← ident source
  grain ← item source grains
  ok (select_from selected from, output, grain)

-- `_compile_stage`, for a kind that `compile` has let pass.
unfoldable pub compile_stage :
    Schema → (String → String → String) → String → Fields → Stages → Stages → Py Compiled
unfolding compile_scan compile_filter compile_join compile_aggregate compile_union compile_project
compile_stage schema known kind stage outputs grains =
    if kind =ₛ "scan"
    then compile_scan schema stage
    else if kind =ₛ "filter"
    then compile_filter stage outputs grains
    else if kind =ₛ "join"
    then compile_join known stage outputs grains
    else if kind =ₛ "aggregate"
    then compile_aggregate stage outputs grains
    else if kind =ₛ "union_all"
    then compile_union stage outputs grains
    else compile_project kind stage outputs grains
