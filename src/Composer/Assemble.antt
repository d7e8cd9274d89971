-- ===== src/Composer/Assemble.antt =====
-- sqlagent/composer.py, assemble_spec: order, limit and the whole query.
use Prim.Native.Nat.{zero, suc}
use Prim.Native.String.{◌++◌}
use po_c_sqlagent.Base.{
  ℕ, String, Bool, true, false, not, ◌&&◌, ◌||◌, Option, none, some, List, [], ◌∷◌, map,
  ◌++◌ as append, ok, err, ◌>>=◌, ◌>>◌, guard, leb, length, if◌then◌else◌,
}
use po_c_sqlagent.Text.{◌=ₛ◌, member, lower, join}
use po_c_sqlagent.Python.{
  ℤ, pos, negsuc, Value, null, int, list, dict, nil, cons, Fields, Error, value_error, type_error,
  Py, truthy, either, get, get?, iterate, show, show_int, to_int,
}
use po_c_sqlagent.Composer.Quote.{quote_ident}
use po_c_sqlagent.Composer.Check.{Schema, check_table}
use po_c_sqlagent.Composer.Parts.{
  text_or, qualified, assemble_joins, assemble_dims, assemble_measures, assemble_filters,
}

abbrev pub max_joins : ℕ
max_joins = 4

abbrev pub max_measures : ℕ
max_measures = 4

-- `spec.get(key) or []`, ready for a loop.
unfoldable pub entries : String → Fields → Py (List Value)
unfolding iterate either get
entries key spec = iterate (either (get key spec) (list nil))

-- "measures", or the one "measure" in a list.
unfoldable pub measures_of : Fields → Value
unfolding truthy either get
measures_of spec =
    if not (truthy (get "measures" spec)) && truthy (get "measure" spec)
    then list (cons (get "measure" spec) nil)
    else either (get "measures" spec) (list nil)

unfoldable pub first_or : String → List String → String
first_or by [] = by
first_or by (a ∷ as') = a

unfoldable pub order_by : List String → List String → Fields → Py String
unfolding first_or
order_by group_columns aliases order =
    let asked = show (get "by" order) in
    let by = if asked =ₛ "measure" then first_or asked aliases else asked in
    let direction = if lower (text_or "dir" "desc" order) =ₛ "desc" then "DESC" else "ASC" in
    do
      guard (member by group_columns || member by aliases)
          (value_error ("order column is not selected: " ++ by))
      ok (" ORDER BY " ++ (quote_ident by ++ (" " ++ direction)))

unfoldable pub assemble_order : List String → List String → Value → Py String
unfolding order_by truthy get show lower text_or member quote_ident
assemble_order group_columns aliases (dict order) =
    if truthy (get "by" order) then order_by group_columns aliases order else ok ""
assemble_order group_columns aliases _ = ok ""

-- `int(raw_limit)` with ValueError and TypeError turned into one ValueError.
abbrev limit_error : Error
limit_error = value_error "limit must be a positive integer"

unfoldable pub checked_int : Py ℤ → Py ℤ
checked_int (ok n) = ok n
checked_int (err (value_error m)) = err limit_error
checked_int (err type_error) = err limit_error
checked_int (err e) = err e

unfoldable pub is_positive : ℤ → Bool
is_positive (pos zero) = false
is_positive (pos (suc n)) = true
is_positive (negsuc n) = false

unfoldable pub min_ℤ : ℤ → ℤ → ℤ
min_ℤ (pos a) (pos b) = if leb a b then pos a else pos b
min_ℤ (pos a) (negsuc b) = negsuc b
min_ℤ (negsuc a) (pos b) = negsuc a
min_ℤ (negsuc a) (negsuc b) = if leb a b then negsuc b else negsuc a

unfoldable pub capped : Option ℤ → ℤ → ℤ
capped none n = n
capped (some m) n = min_ℤ n m

unfoldable pub positive_limit : Option ℤ → Py ℤ → Py (Option ℤ)
unfolding checked_int is_positive capped min_ℤ
positive_limit max_limit read = do
  n ← checked_int read
  guard (is_positive n) limit_error
  ok (some (capped max_limit n))

unfoldable pub limit_of : Option ℤ → Value → Py (Option ℤ)
unfolding positive_limit to_int
limit_of max_limit null = ok none
limit_of max_limit v = positive_limit max_limit (to_int v)

unfoldable pub default_value : Option ℤ → Value
default_value none = null
default_value (some n) = int n

-- `spec.get("limit", default_limit)`.
unfoldable pub raw_limit : Option ℤ → Fields → Value
unfolding default_value get?
raw_limit default_limit spec = elim (get? "limit" spec) [
  | none ↦ default_value default_limit
  | some v ↦ v
]

unfoldable pub assemble_limit : Option ℤ → Option ℤ → Fields → Py (Option ℤ)
unfolding limit_of raw_limit
assemble_limit default_limit max_limit spec = limit_of max_limit (raw_limit default_limit spec)

-- The texts of the parts, joined as the code joins them: a part that is empty is left out.
clause : String → String → List String → String
clause word sep [] = ""
clause word sep (x ∷ xs) = word ++ join sep (x ∷ xs)

limit_clause : Option ℤ → String
limit_clause none = ""
limit_clause (some n) = " LIMIT " ++ show_int n

abbrev dim_part : String × String → String
dim_part (t, c) = qualified t c ++ (" AS " ++ quote_ident c)

abbrev dim_expr : String × String → String
dim_expr (t, c) = qualified t c

abbrev measure_part : String × String → String
measure_part (expression, alias) = expression ++ (" AS " ++ quote_ident alias)

unfoldable pub render :
    String
    → List String
    → List (String × String)
    → List (String × String)
    → List String
    → String
    → Option ℤ
    → String
unfolding clause limit_clause join show_int qualified quote_ident
render base joins dims measures filters order limit =
    "SELECT "
    ++ (join ", " (append (map dim_part dims) (map measure_part measures))
        ++ (" FROM "
            ++ (quote_ident base
                ++ (clause " " " " joins
                    ++ (clause " WHERE " " AND " filters
                        ++ (clause " GROUP BY " ", " (map dim_expr dims)
                            ++ (order ++ limit_clause limit)))))))

unfoldable pub selects_something : List (String × String) → List (String × String) → Bool
selects_something [] [] = false
selects_something _ _ = true

abbrev pub snd : String × String → String
snd p = p.1

unfoldable pub assemble_query : Schema → Option ℤ → Option ℤ → Fields → Py String
assemble_query schema default_limit max_limit spec = do
  let base = text_or "from" "" spec
  check_table schema base
  joins ← entries "joins" spec
  guard (leb (length joins) max_joins) (value_error "too many joins (max 4)")
  (known, join_clauses) ← assemble_joins schema (base ∷ []) joins
  group_by ← entries "group_by" spec
  dims ← assemble_dims schema known base group_by
  wanted ← iterate (measures_of spec)
  guard (leb (length wanted) max_measures) (value_error "too many measures (max 4)")
  measures ← assemble_measures schema known base [] wanted
  guard (selects_something dims measures)
      (value_error "query plan selects nothing: add group_by or a measure")
  filters ← entries "filters" spec
  where_parts ← assemble_filters schema known base filters
  order ← assemble_order (map snd dims) (map snd measures) (get "order" spec)
  limit ← assemble_limit default_limit max_limit spec
  ok (render base join_clauses dims measures where_parts order limit)

unfoldable pub assemble_spec : Schema → Option ℤ → Option ℤ → Value → Py String
assemble_spec schema default_limit max_limit (dict spec) =
    assemble_query schema default_limit max_limit spec
assemble_spec schema default_limit max_limit _ = err (value_error "query plan is not an object")
