-- ===== src/Analytical/Floats.antt =====
-- Python prints a float with digits, letters, a sign and a point. The model's floats carry any text,
-- so the theorems on the SQL ask that the floats of a plan hold no quote and no semicolon.
use po_c_sqlagent.Base.{
  String, Bool, true, false, ◌≡◌, List, All, ok, ok-injective, if◌then◌else◌, subst,
}
use po_c_sqlagent.Text.{◌=ₛ◌}
use po_c_sqlagent.Python.{
  Value, float, str, list, dict, Values, nil, cons, Fields, end, field, get, either, iterate,
  to_list, keys, characters, truthy,
}
use po_c_sqlagent.Composer.{entries}
use po_c_sqlagent.Analytical.Lexer.{is_plain}
use Prim.Native.String as Text

unfoldable mutual
  pub PlainFloats : Value → Type 0
  PlainFloats (float f) = is_plain f.text ≡ true
  PlainFloats (list vs) = PlainItems vs
  PlainFloats (dict fs) = PlainFields fs
  PlainFloats _ = Unit

  pub PlainItems : Values → Type 0
  PlainItems nil = Unit
  PlainItems (cons v vs) = PlainFloats v × PlainItems vs

  pub PlainFields : Fields → Type 0
  PlainFields end = Unit
  PlainFields (field k v fs) = PlainFloats v × PlainFields fs

if-PlainFloats :
    (b : Bool) (v w : Value) → PlainFloats v → PlainFloats w → PlainFloats (if b then v else w)
if-PlainFloats true v w h k = h
if-PlainFloats false v w h k = k

pub get-PlainFloats : (k : String) (fs : Fields) → PlainFields fs → PlainFloats (get k fs)
unfolding get PlainFloats
get-PlainFloats k end h = tt
get-PlainFloats k (field j v fs) h =
    if-PlainFloats (j =ₛ k) v (get k fs) h.0 (get-PlainFloats k fs h.1)

pub either-PlainFloats : (v w : Value) → PlainFloats v → PlainFloats w → PlainFloats (either v w)
unfolding either
either-PlainFloats v w h k = if-PlainFloats (truthy v) v w h k

pub to_list-All : (vs : Values) → PlainItems vs → All PlainFloats (to_list vs)
unfolding to_list PlainFloats
to_list-All nil h = tt
to_list-All (cons v vs) h = (h.0, to_list-All vs h.1)

keys-All : (fs : Fields) → All PlainFloats (keys fs)
unfolding keys PlainFloats
keys-All end = tt
keys-All (field k v fs) = (tt, keys-All fs)

characters-All : (s : String) → All PlainFloats (characters s)
unfolding characters PlainFloats
characters-All Text.[] = tt
characters-All (Text.◌∷◌ c s) = (tt, characters-All s)

pub iterate-All :
    (v : Value) (vs : List Value) → PlainFloats v → iterate v ≡ ok vs → All PlainFloats vs
unfolding iterate PlainFloats
iterate-All (list xs) vs h e = subst (All PlainFloats) (ok-injective e) (to_list-All xs h)
iterate-All (str s) vs h e = subst (All PlainFloats) (ok-injective e) (characters-All s)
iterate-All (dict fs) vs h e = subst (All PlainFloats) (ok-injective e) (keys-All fs)
iterate-All _ vs h e = absurd (cc e)

pub entries-All :
    (key : String) (fs : Fields) (vs : List Value)
    → PlainFields fs
    → entries key fs ≡ ok vs
    → All PlainFloats vs
unfolding entries PlainFloats
entries-All key fs vs h e =
    iterate-All (either (get key fs) (list nil)) vs
      (either-PlainFloats (get key fs) (list nil) (get-PlainFloats key fs h) tt) e
