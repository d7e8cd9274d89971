-- ===== src/Database/Words.antt =====
-- sqlagent/db.py, validate_read_only: what an accepted query holds as words.
use Prim.Native.String.{◌++◌}
use po_c_sqlagent.Base.{String, false, ◌≡◌, ◌⊎◌, List, ◌++◌ as append, map, In}
use po_c_sqlagent.Text.{◌=ₛ◌, lower}
use po_c_sqlagent.Text.Words.{HasWord}
use po_c_sqlagent.Database.ReadOnly.{forbidden_keywords, default_forbidden_tables}

-- A text that begins with SELECT or WITH, and in which no forbidden keyword and no blocked table stands
-- as a word, in small or in capital letters.
pub record OnlyReads (forbidden_tables : List String) (query : String) : Type 0 where
  pub begins : (rest : String) × ((lower query ≡ "select" ++ rest) ⊎ (lower query ≡ "with" ++ rest))
  pub no_keyword : (k : String) → In k forbidden_keywords → ¬ HasWord k (lower query)
  pub no_table :
      (t : String)
      → In t (append default_forbidden_tables (map lower forbidden_tables))
      → (t =ₛ "") ≡ false
      → ¬ HasWord t (lower query)
