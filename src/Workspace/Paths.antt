-- ===== src/Workspace/Paths.antt =====
-- sqlagent/workspace.py, Workspace._safe_path, and what it uses of pathlib. A path is the list of
-- its components below the root of the file system. What the symbolic links of the file system lead to
-- is an argument: the place of a component that is no link is the component itself.
use Prim.Native.Char.{code}
use Prim.Native.String as Text
use Prim.Native.String.{◌++◌}
use po_c_sqlagent.Base.{
  String, Bool, true, false, not, ◌&&◌, ◌||◌, Option, none, some, List, [], ◌∷◌, ◌++◌ as append, ok,
  ◌>>◌, guard, ◌==◌, select, if◌then◌else◌,
}
use po_c_sqlagent.Text.{◌=ₛ◌, contains, split, starts_with}
use po_c_sqlagent.Python.{Py, runtime_error}

-- The components of a path: empty ones and "." stand for nothing.
abbrev is_step : String → Bool
is_step part = not (part =ₛ "") && not (part =ₛ ".")

unfoldable pub components : String → List String
unfolding split select
components path = select is_step (split "/" path)

-- `Path(path).name`, and its `stem`: the name without its last suffix.
unfoldable pub last_of : List String → String
last_of [] = ""
last_of (x ∷ []) = x
last_of (x ∷ y ∷ ys) = last_of (y ∷ ys)

-- What stands before the last dot, where something stands before it and after it.
before_dot : String → String → Option String
unfolding contains
before_dot seen Text.[] = none
before_dot seen (Text.◌∷◌ c s) =
    let later = before_dot (seen ++ Text.◌∷◌ c "") s in
    if code c == 46 && not (contains "." s)
    then (if seen =ₛ "" || s =ₛ "" then none else some seen)
    else later

unfoldable pub stem_of : String → String
unfolding before_dot contains
stem_of name = elim (before_dot "" name) [ none ↦ name | some stem ↦ stem ]

unfoldable pub path_stem : String → String
unfolding stem_of last_of components
path_stem path = stem_of (last_of (components path))

unfoldable pub drop_last : List String → List String
drop_last [] = []
drop_last (x ∷ []) = []
drop_last (x ∷ y ∷ ys) = x ∷ drop_last (y ∷ ys)

-- `".."` goes one component up; at the root of the file system it stays there.
unfoldable pub resolve_from : (List String → List String) → List String → List String → List String
unfolding drop_last
resolve_from links seen [] = seen
resolve_from links seen (part ∷ parts) =
    resolve_from links (if part =ₛ ".." then drop_last seen else links (append seen (part ∷ [])))
      parts

-- `(root / relative).resolve()`, for a root that is resolved: an absolute path replaces the root.
unfoldable pub resolve : (List String → List String) → List String → String → List String
unfolding resolve_from components starts_with
resolve links root relative =
    resolve_from links (if starts_with relative "/" then [] else root) (components relative)

-- `path == root or root in path.parents`.
unfoldable pub is_under : List String → List String → Bool
is_under [] path = true
is_under (x ∷ root) [] = false
is_under (x ∷ root) (y ∷ path) = x =ₛ y && is_under root path

unfoldable pub safe_path : (List String → List String) → List String → String → Py (List String)
unfolding resolve is_under
safe_path links root relative = do
  guard (is_under root (resolve links root relative))
      (runtime_error ("path escapes workspace: " ++ relative))
  ok (resolve links root relative)
