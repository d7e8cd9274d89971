-- ===== src/Text/Replace.antt =====
-- `s.replace(old, new)` for a text `old` that is not empty.
use Prim.Native.Nat.{zero, suc}
use Prim.Native.String.{[], ◌∷◌, ◌++◌}
use po_c_sqlagent.Base.{ℕ, ◌-◌, String, true, false}
use po_c_sqlagent.Text.Search.{starts_with}

unfoldable pub text_length : String → ℕ
text_length [] = 0
text_length (c ∷ s) = suc (text_length s)

-- From the left; the number says how many characters of a match are still to be dropped.
replace_from : String → String → ℕ → String → String
unfolding starts_with text_length
replace_from old new skip [] = []
replace_from old new (suc skip) (c ∷ s) = replace_from old new skip s
replace_from old new zero (c ∷ s) = elim (starts_with (c ∷ s) old) [
  | true ↦ new ++ replace_from old new (text_length old - 1) s
  | false ↦ c ∷ replace_from old new 0 s
]

unfoldable pub replace_text : String → String → String → String
unfolding replace_from
replace_text old new s = replace_from old new 0 s
