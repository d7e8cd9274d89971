-- ===== src/Python/Number.antt =====
-- `int(v)`. The digits of a text are the ASCII ones.
use Prim.Native.Char.{code}
use Prim.Native.String.{[], ◌∷◌}
use po_c_sqlagent.Base.{
  ℕ, zero, suc, ◌+◌, ◌-◌, ◌*◌, String, Bool, true, false, ◌&&◌, Option, none, some, ok, err, ◌==◌,
  if◌then◌else◌,
}
use po_c_sqlagent.Text.{is_digit, is_space, strip}
use po_c_sqlagent.Python.Data.{
  ℤ, pos, negsuc, Whole, whole, nan, infinite, Value, bool, int, float, str, value_error,
  type_error, overflow_error, Py,
}

-- Digits with single underscores between them; the flag says that a digit stands before.
decimal_from : Bool → ℕ → String → Option ℕ
decimal_from after n [] = if after then some n else none
decimal_from after n (c ∷ s) =
    let more = decimal_from true (n * 10 + (code c - 48)) s in
    let skip = decimal_from false n s in
    if is_digit c then more else if after && code c == 95 then skip else none

minus : ℕ → ℤ
minus zero = pos 0
minus (suc n) = negsuc n

signed : String → Option ℤ
unfolding decimal_from minus is_digit
signed [] = none
signed (c ∷ s) =
    if code c == 45
    then elim (decimal_from false 0 s) [ none ↦ none | some n ↦ some (minus n) ]
    else if code c == 43
    then elim (decimal_from false 0 s) [ none ↦ none | some n ↦ some (pos n) ]
    else elim (decimal_from false 0 (c ∷ s)) [ none ↦ none | some n ↦ some (pos n) ]

from_text : Option ℤ → Py ℤ
from_text none = err (value_error "invalid literal for int()")
from_text (some n) = ok n

from_float : Whole → Py ℤ
from_float (whole n) = ok n
from_float nan = err (value_error "cannot convert float NaN to integer")
from_float infinite = err overflow_error

unfoldable pub to_int : Value → Py ℤ
unfolding signed from_text from_float strip is_space
to_int (bool true) = ok (pos 1)
to_int (bool false) = ok (pos 0)
to_int (int n) = ok n
to_int (float f) = from_float f.as_int
to_int (str s) = from_text (signed (strip is_space s))
to_int _ = err type_error
