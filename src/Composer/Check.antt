-- ===== src/Composer/Check.antt =====
-- sqlagent/composer.py: the checks of a table and of a column against the surveyed schema, and the
-- table that owns a join column.
use Prim.Native.Nat.{Ordering}
use Prim.Native.String.{◌++◌, compare}
use po_c_sqlagent.Base.{
  String, Bool, true, false, ◌||◌, Option, none, some, List, [], ◌∷◌, ◌>>◌, guard, if◌then◌else◌,
}
use po_c_sqlagent.Text.{◌=ₛ◌, member}
use po_c_sqlagent.Python.{Py, value_error}

-- `dict[str, list[str]]`: table name and its columns.
abbrev pub Schema : Type 0
Schema = List (String × List String)

-- `schema.get(table)`.
unfoldable pub columns? : String → Schema → Option (List String)
columns? t [] = none
columns? t ((u, cols) ∷ rest) = if u =ₛ t then some cols else columns? t rest

unfoldable pub has_table : Schema → String → Bool
unfolding columns?
has_table schema t = elim (columns? t schema) [ none ↦ false | some cols ↦ true ]

-- `column in schema.get(table, [])`.
unfoldable pub has_column : Schema → String → String → Bool
unfolding columns? member
has_column schema t c = elim (columns? t schema) [ none ↦ false | some cols ↦ member c cols ]

abbrev or_missing : String → String
or_missing t = if t =ₛ "" then "(missing)" else t

unfoldable pub check_table : Schema → String → Py (Unit {0})
unfolding has_table
check_table schema t = guard (has_table schema t) (value_error ("unknown table: " ++ or_missing t))

unfoldable pub check_column : Schema → String → String → Py (Unit {0})
unfolding check_table has_column
check_column schema t c = do
  check_table schema t
  guard (c =ₛ "*" || has_column schema t c) (value_error ("unknown column: " ++ (t ++ ("." ++ c))))

-- `sorted(names)`.
abbrev pub le_text : String → String → Bool
le_text s t = elim (compare s t) [ Ordering.gt ↦ false | _ ↦ true ]

unfoldable pub insert_sorted : String → List String → List String
insert_sorted x [] = x ∷ []
insert_sorted x (y ∷ ys) = if le_text x y then x ∷ y ∷ ys else y ∷ insert_sorted x ys

unfoldable pub sorted : List String → List String
unfolding insert_sorted
sorted [] = []
sorted (x ∷ xs) = insert_sorted x (sorted xs)

unfoldable pub first_owner : Schema → String → List String → Option String
unfolding has_column
first_owner schema c [] = none
first_owner schema c (t ∷ ts) = if has_column schema t c then some t else first_owner schema c ts

-- The first of the known tables, in sorted order, that has the column.
unfoldable pub owner_of : Schema → List String → String → Option String
unfolding first_owner sorted
owner_of schema known c = first_owner schema c (sorted known)
