-- ===== src/Analytical/Tables.antt =====
-- sqlagent/analytical.py: the sets of columns and the dicts of stages that the compiler keeps. A set
-- is a list that holds each name once; a dict keeps the order in which its keys came.
use Prim.Native.String.{◌++◌}
use po_c_sqlagent.Base.{
  String, Bool, true, false, ◌&&◌, not, Option, none, some, List, [], ◌∷◌, ◌++◌ as append, map, ok,
  err, ◌>>=◌, all, select, if◌then◌else◌,
}
use po_c_sqlagent.Text.{◌=ₛ◌, member, join}
use po_c_sqlagent.Python.{Fields, Py, key_error, show, repr_str}
use po_c_sqlagent.Composer.{Schema, columns?, entries, sorted}

-- `outputs: dict[str, set[str]]` and `grains: dict[str, tuple[str, ...]]`.
abbrev pub Stages : Type 0
Stages = List (String × List String)

-- `d[k] = v`.
unfoldable pub assign : String → List String → Stages → Stages
assign k v [] = (k, v) ∷ []
assign k v ((j, w) ∷ rest) = if j =ₛ k then (k, v) ∷ rest else (j, w) ∷ assign k v rest

-- `d[k]`.
unfoldable pub item : String → Stages → Py (List String)
unfolding columns?
item k d = elim (columns? k d) [ none ↦ err key_error | some v ↦ ok v ]

-- `s.add(x)`, with the new name at the end.
unfoldable pub include : String → List String → List String
unfolding member
include x s = if member x s then s else append s (x ∷ [])

-- `a | set(xs)`, and `set(xs)`.
unfoldable pub union : List String → List String → List String
unfolding include
union a [] = a
union a (x ∷ xs) = union (include x a) xs

unfoldable pub to_set : List String → List String
unfolding union
to_set xs = union [] xs

-- `set(xs) <= b`.
unfoldable pub subset : List String → List String → Bool
unfolding all member
subset xs b = all (λ x. member x b) xs

-- `a == b`.
unfoldable pub same_set : List String → List String → Bool
unfolding subset
same_set a b = subset a b && subset b a

-- `a & b` and `set(a) - b`.
unfoldable pub intersect : List String → List String → List String
unfolding select member
intersect a b = select (λ x. member x b) a

unfoldable pub minus_set : List String → List String → List String
unfolding select member
minus_set a b = select (λ x. not (member x b)) a

-- `not names`.
unfoldable pub is_empty : List String → Bool
is_empty [] = true
is_empty (x ∷ xs) = false

-- The two tuples are equal.
unfoldable pub same_names : List String → List String → Bool
same_names [] [] = true
same_names (x ∷ xs) (y ∷ ys) = x =ₛ y && same_names xs ys
same_names _ _ = false

-- `[str(item) for item in stage.get(key) or []]`.
unfoldable pub names_at : String → Fields → Py (List String)
unfolding entries show
names_at key stage = do items ← entries key stage; ok (map show items)

-- The text of a sorted list, as an error message shows it.
unfoldable pub show_names : List String → String
unfolding sorted join repr_str
show_names names = "[" ++ (join ", " (map repr_str (sorted names)) ++ "]")

unfoldable pub set_or_none : Option (List String) → List String
unfolding to_set
set_or_none none = []
set_or_none (some columns) = to_set columns

-- The columns of a table, `self.schema[table]`.
unfoldable pub schema_columns : Schema → String → List String
unfolding columns? set_or_none
schema_columns schema table = set_or_none (columns? table schema)
