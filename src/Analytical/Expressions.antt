-- ===== src/Analytical/Expressions.antt =====
-- sqlagent/analytical.py: compile_expression.
use Prim.Native.String.{◌++◌}
use po_c_sqlagent.Base.{String, List, [], ◌∷◌, ok, err, ◌>>=◌, ◌>>◌, guard, if◌then◌else◌}
use po_c_sqlagent.Text.{◌=ₛ◌}
use po_c_sqlagent.Python.{
  Value, str, list, dict, Values, nil, cons, Fields, end, field, type_error, attribute_error, Py,
  get?, show, repr_str,
}
use po_c_sqlagent.Analytical.Terms.{
  plan_error, literal, no_expression, compile_column, operator, binary_sql, unit_of, when_sql,
  case_sql, trunc_sql, some_clause,
}

-- The members of the block follow `value.get(key)` down the fields, so that each of them recurs on
-- a part of the expression.
unfoldable mutual
  unfolding compile_column literal operator binary_sql unit_of case_sql when_sql trunc_sql
      some_clause show repr_str get?

  pub compile_expression : List String → Value → Py String
  compile_expression available (str name) = compile_column available name
  compile_expression available (dict (field kind value end)) =
      let binary = compile_binary available value in
      let cases = compile_case available value in
      let trunc = compile_trunc available value in
      if kind =ₛ "literal"
      then ok (literal value)
      else if kind =ₛ "column"
      then compile_column available (show value)
      else if kind =ₛ "binary"
      then binary
      else if kind =ₛ "case"
      then cases
      else if kind =ₛ "date_trunc"
      then trunc
      else err (plan_error ("unsupported expression kind " ++ repr_str kind))
  compile_expression available _ = err no_expression

  -- `compile_expression(fields.get(key), available)`.
  pub compile_at : List String → String → Fields → Py String
  compile_at available key end = err no_expression
  compile_at available key (field j v fs) =
      let here = compile_expression available v in
      let later = compile_at available key fs in if j =ₛ key then here else later

  pub compile_binary : List String → Value → Py String
  compile_binary available (dict fs) = do
    op ← operator fs
    left ← compile_at available "left" fs
    right ← compile_at available "right" fs
    ok (binary_sql op left right)
  compile_binary available _ = err (plan_error "unsupported binary expression")

  pub compile_case : List String → Value → Py String
  compile_case available (dict fs) = do
    clauses ← compile_whens available fs
    guard (some_clause clauses) (plan_error "CASE requires at least one WHEN")
    otherwise ← compile_else available fs
    ok (case_sql clauses otherwise)
  compile_case available _ = err (plan_error "CASE must be an object")

  -- The loop over `value.get("when", [])`.
  pub compile_whens : List String → Fields → Py (List String)
  compile_whens available end = ok []
  compile_whens available (field j v fs) =
      let here = compile_when_value available v in
      let later = compile_whens available fs in if j =ₛ "when" then here else later

  -- The characters of a text and the keys of a dict are texts, which have no `get`.
  pub compile_when_value : List String → Value → Py (List String)
  compile_when_value available (list vs) = compile_when_items available vs
  compile_when_value available (str s) = if s =ₛ "" then ok [] else err attribute_error
  compile_when_value available (dict end) = ok []
  compile_when_value available (dict (field k v fs)) = err attribute_error
  compile_when_value available _ = err type_error

  pub compile_when_items : List String → Values → Py (List String)
  compile_when_items available nil = ok []
  compile_when_items available (cons v vs) = do
    clause ← compile_when available v
    clauses ← compile_when_items available vs
    ok (clause ∷ clauses)

  pub compile_when : List String → Value → Py String
  compile_when available (dict fs) = do
    condition ← compile_at available "if" fs
    result ← compile_at available "then" fs
    ok (when_sql condition result)
  compile_when available _ = err attribute_error

  -- `compile_expression(value.get("else", {"literal": None}), available)`.
  pub compile_else : List String → Fields → Py String
  compile_else available end = ok "NULL"
  compile_else available (field j v fs) =
      let here = compile_expression available v in
      let later = compile_else available fs in if j =ₛ "else" then here else later

  pub compile_trunc : List String → Value → Py String
  compile_trunc available (dict fs) = do
    unit ← unit_of (get? "unit" fs)
    value ← compile_at available "value" fs
    ok (trunc_sql unit value)
  compile_trunc available _ = err (plan_error "unsupported date_trunc unit")
