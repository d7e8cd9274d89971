-- ===== src/Analytical/Terms.antt =====
-- sqlagent/analytical.py: identifiers, literals and compile_expression. AnalyticalPlanError is a
-- ValueError, and the compiler raises no other ValueError.
use Prim.Native.Char.{Char, code}
use Prim.Native.String.{[], ◌∷◌, ◌++◌}
use po_c_sqlagent.Base.{
  String, Bool, true, false, ◌&&◌, ◌||◌, Option, some, List, ok, err, ◌>>◌, guard, ◌==◌,
  if◌then◌else◌,
}
use po_c_sqlagent.Text.{◌=ₛ◌, member, lower, upper, join, is_ascii_letter, is_digit}
use po_c_sqlagent.Python.{
  get_default, Value, null, bool, int, float, str, list, dict, Fields, Error, value_error,
  type_error, Py, show, show_int, repr_str,
}
use po_c_sqlagent.Composer.{quote_text}

-- `raise AnalyticalPlanError(message)`.
abbrev pub plan_error : String → Error
plan_error message = value_error message

-- `^[A-Za-z_][A-Za-z0-9_]*$` as a full match.
unfoldable pub is_ident_start : Char → Bool
unfolding is_ascii_letter
is_ident_start c = is_ascii_letter c || code c == 95

unfoldable pub ident_tail : String → Bool
unfolding is_ident_start is_digit
ident_tail [] = true
ident_tail (c ∷ s) = (is_ident_start c || is_digit c) && ident_tail s

unfoldable pub is_identifier : String → Bool
unfolding is_ident_start ident_tail
is_identifier [] = false
is_identifier (c ∷ s) = is_ident_start c && ident_tail s

-- The text of `_ident` where it raises nothing.
unfoldable pub quoted : String → String
quoted name = "\"" ++ (name ++ "\"")

unfoldable pub ident : String → Py String
unfolding is_identifier quoted repr_str
ident name = do
  guard (is_identifier name) (plan_error ("unsafe identifier: " ++ repr_str name))
  ok (quoted name)

unfoldable pub literal : Value → String
unfolding quote_text show show_int
literal null = "NULL"
literal (bool b) = if b then "TRUE" else "FALSE"
literal (int n) = show_int n
literal (float f) = f.text
literal v = quote_text (show v)

abbrev pub binary_ops : List String
binary_ops = List.◌∷◌ "+" (
    List.◌∷◌ "-" (
      List.◌∷◌ "*" (
        List.◌∷◌ "/" (
          List.◌∷◌ "=" (
            List.◌∷◌ "!=" (
              List.◌∷◌ "<>" (
                List.◌∷◌ "<" (
                  List.◌∷◌ "<="
                    (List.◌∷◌ ">" (List.◌∷◌ ">=" (List.◌∷◌ "and" (List.◌∷◌ "or" List.[]))))))))))))

abbrev pub units : List String
units =
    List.◌∷◌ "day"
      (List.◌∷◌ "week" (List.◌∷◌ "month" (List.◌∷◌ "quarter" (List.◌∷◌ "year" List.[]))))

abbrev pub no_expression : Error
no_expression = plan_error "expression must be a column name or a one-key expression object"

-- A bare column name.
unfoldable pub compile_column : List String → String → Py String
unfolding ident
compile_column available name = do
  guard (member name available) (plan_error ("unknown column " ++ repr_str name))
  ident name

-- The operator of a binary expression, in upper case.
unfoldable pub operator : Fields → Py String
unfolding get_default show lower upper member
operator fs =
    let op = show (get_default "op" (str "") fs) in
    do
      guard (member (lower op) binary_ops) (plan_error "unsupported binary expression")
      ok (upper op)

-- A division by zero gives NULL.
unfoldable pub divisor : String → String → String
divisor op right = if op =ₛ "/" then "NULLIF(" ++ (right ++ ", 0)") else right

unfoldable pub binary_sql : String → String → String → String
unfolding divisor
binary_sql op left right = "(" ++ (left ++ (" " ++ (op ++ (" " ++ (divisor op right ++ ")")))))

abbrev unit_error : Error
unit_error = plan_error "unsupported date_trunc unit"

-- `value.get("unit")` of a date_trunc: a list or a dict cannot be looked up in a set.
unfoldable pub unit_of : Option Value → Py String
unfolding member
unit_of (some (str s)) = do guard (member s units) unit_error; ok s
unit_of (some (list vs)) = err type_error
unit_of (some (dict fs)) = err type_error
unit_of _ = err unit_error

unfoldable pub when_sql : String → String → String
when_sql condition result = "WHEN " ++ (condition ++ (" THEN " ++ result))

unfoldable pub case_sql : List String → String → String
unfolding join
case_sql clauses otherwise = "CASE " ++ (join " " clauses ++ (" ELSE " ++ (otherwise ++ " END")))

unfoldable pub trunc_sql : String → String → String
unfolding quote_text
trunc_sql unit value = "DATE_TRUNC(" ++ (quote_text unit ++ (", " ++ (value ++ ")")))

unfoldable pub some_clause : List String → Bool
some_clause List.[] = false
some_clause (List.◌∷◌ c cs) = true
