-- ===== src/Python/Show.antt =====
-- `str` and `repr`. A character outside the control range is taken to be printable.
use Prim.Native.Char.{Char, code}
use Prim.Native.String.{[], ◌∷◌, ◌++◌, slice}
use po_c_sqlagent.Base.{
  ℕ, ◌+◌, ◌/◌, ◌%◌, String, Bool, true, false, not, ◌&&◌, ◌||◌, List, ◌==◌, ltb, if◌then◌else◌,
}
use po_c_sqlagent.Text.{contains, join, show_nat}
use po_c_sqlagent.Python.Data.{
  ℤ, pos, negsuc, Value, null, bool, int, float, str, list, dict, Values, nil, cons, Fields, end,
  field,
}

hex_digit : ℕ → String
hex_digit n = slice "0123456789abcdef" n (n + 1)

escape_char : String → Char → String
unfolding hex_digit
escape_char quote c =
    if code c == 92
    then "\\\\"
    else if contains (c ∷ []) quote
    then "\\" ++ (c ∷ [])
    else if code c == 10
    then "\\n"
    else if code c == 13
    then "\\r"
    else if code c == 9
    then "\\t"
    else if ltb (code c) 32 || code c == 127
    then "\\x" ++ (hex_digit (code c / 16) ++ hex_digit (code c % 16))
    else c ∷ []

escape : String → String → String
unfolding escape_char contains
escape quote [] = []
escape quote (c ∷ s) = escape_char quote c ++ escape quote s

-- Single quotes, unless the text has a single quote and no double quote.
unfoldable pub repr_str : String → String
unfolding escape contains
repr_str s =
    let quote = if contains "'" s && not (contains "\"" s) then "\"" else "'" in
    quote ++ (escape quote s ++ quote)

unfoldable pub show_int : ℤ → String
unfolding show_nat
show_int (pos n) = show_nat n
show_int (negsuc n) = "-" ++ show_nat (n + 1)

abbrev show_bool : Bool → String
show_bool true = "True"
show_bool false = "False"

unfoldable mutual
  unfolding join repr_str show_int

  pub repr : Value → String
  repr null = "None"
  repr (bool b) = show_bool b
  repr (int n) = show_int n
  repr (float f) = f.text
  repr (str s) = repr_str s
  repr (list vs) = "[" ++ (join ", " (repr_items vs) ++ "]")
  repr (dict fs) = "{" ++ (join ", " (repr_fields fs) ++ "}")

  pub repr_items : Values → List String
  repr_items nil = List.[]
  repr_items (cons v vs) = List.◌∷◌ (repr v) (repr_items vs)

  pub repr_fields : Fields → List String
  repr_fields end = List.[]
  repr_fields (field k v fs) = List.◌∷◌ (repr_str k ++ (": " ++ repr v)) (repr_fields fs)

-- `str(v)`.
unfoldable pub show : Value → String
unfolding repr
show (str s) = s
show v = repr v
