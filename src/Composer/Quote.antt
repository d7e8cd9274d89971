-- ===== src/Composer/Quote.antt =====
-- sqlagent/composer.py: quoting of identifiers and literals.
use Prim.Native.String.{◌++◌}
use po_c_sqlagent.Base.{String, true, false}
use po_c_sqlagent.Text.{replace}
use po_c_sqlagent.Python.{Value, bool, int, float, show, show_int}

unfoldable pub quote_ident : String → String
unfolding replace
quote_ident name = "\"" ++ (replace "\"" "\"\"" name ++ "\"")

-- A text literal: single quotes, doubled inside.
unfoldable pub quote_text : String → String
unfolding replace
quote_text s = "'" ++ (replace "'" "''" s ++ "'")

unfoldable pub quote_literal : Value → String
unfolding quote_text
quote_literal (bool true) = "true"
quote_literal (bool false) = "false"
quote_literal (int n) = show_int n
quote_literal (float f) = f.text
quote_literal v = quote_text (show v)
