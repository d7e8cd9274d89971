-- ===== src/Analytical/Lexer/Defs.antt =====
-- The lexer, and the predicate of a text whose names satisfy a predicate.
use Prim.Native.Char.{Char, code}
use Prim.Native.String.{[], ◌∷◌, ◌++◌}
use po_c_sqlagent.Base.{
  String, Bool, true, not, ◌&&◌, ◌≡◌, Option, none, some, List, All, ◌==◌, if◌then◌else◌,
}

-- Outside quotes, within a name whose characters so far are kept, or within a text.
pub data Mode : Type 0 where
  outside within_text : Mode
  within_name : String → Mode

unfoldable pub next : Mode → Char → Mode
next outside c =
    if code c == 34 then within_name "" else if code c == 39 then within_text else outside
next within_text c = if code c == 39 then outside else within_text
next (within_name s) c = if code c == 34 then outside else within_name (s ++ (c ∷ []))

unfoldable pub push : String → Option (List String) → Option (List String)
push s none = none
push s (some names) = some (List.◌∷◌ s names)

-- What a character adds to the names that follow it.
unfoldable pub emit : Mode → Char → Option (List String) → Option (List String)
unfolding push
emit outside c later = if code c == 59 then none else later
emit within_text c later = later
emit (within_name s) c later = if code c == 34 then push s later else later

-- The quoted names of a text; none where a quote stays open or a semicolon ends the statement.
unfoldable pub names_from : Mode → String → Option (List String)
unfolding next emit
names_from outside [] = some List.[]
names_from within_text [] = none
names_from (within_name s) [] = none
names_from m (c ∷ s) = emit m c (names_from (next m c) s)

unfoldable pub quoted_names : String → Option (List String)
unfolding names_from
quoted_names sql = names_from outside sql

-- One statement all of whose quoted names satisfy a predicate.
abbrev pub NamesAre : (String → Type 0) → String → Type 0
NamesAre P sql = (names : List String) × (quoted_names sql ≡ some names) × All P names

-- No quote and no semicolon.
abbrev pub is_inert : Char → Bool
is_inert c = not (code c == 34) && not (code c == 39) && not (code c == 59)

unfoldable pub is_plain : String → Bool
is_plain [] = true
is_plain (c ∷ s) = is_inert c && is_plain s
