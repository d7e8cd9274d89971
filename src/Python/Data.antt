-- ===== src/Python/Data.antt =====
-- Values, exceptions, the truth test and `dict.get`.
use Prim.Native.Nat.{zero, suc}
use po_c_sqlagent.Base.{
  ℕ, String, Bool, true, false, Option, none, some, List, [], ◌∷◌, Result, ok, err, if◌then◌else◌,
}
use po_c_sqlagent.Text.{◌=ₛ◌}

-- `negsuc n` is -(n + 1).
pub data ℤ : Type 0 where
  pos : ℕ → ℤ
  negsuc : ℕ → ℤ

-- What `int(x)` makes of a float.
pub data Whole : Type 0 where
  whole : ℤ → Whole
  nan infinite : Whole

-- What the code reads of a float: its `str`, its truth and its `int`.
pub record Float : Type 0 where
  pub text : String
  pub nonzero : Bool
  pub as_int : Whole

-- `null` is None.
mutual
  pub data Value : Type 0 where
    null : Value
    bool : Bool → Value
    int : ℤ → Value
    float : Float → Value
    str : String → Value
    list : Values → Value
    dict : Fields → Value

  pub data Values : Type 0 where
    nil : Values
    cons : Value → Values → Values

  pub data Fields : Type 0 where
    end : Fields
    field : String → Value → Fields → Fields

-- The exceptions that the code raises or lets pass. The message is kept where the code writes it.
pub data Error : Type 0 where
  value_error runtime_error timeout_error : String → Error
  llm_unavailable : String → Error
  type_error overflow_error attribute_error key_error : Error

abbrev pub Py : Type 0 → Type 0
Py A = Result Error A

-- `bool(v)`.
unfoldable pub truthy : Value → Bool
truthy null = false
truthy (bool b) = b
truthy (int (pos zero)) = false
truthy (int (pos (suc n))) = true
truthy (int (negsuc n)) = true
truthy (float f) = f.nonzero
truthy (str s) = if s =ₛ "" then false else true
truthy (list nil) = false
truthy (list (cons v vs)) = true
truthy (dict end) = false
truthy (dict (field k v fs)) = true

-- `v or w`.
unfoldable pub either : Value → Value → Value
unfolding truthy
either v w = if truthy v then v else w

-- `d.get(k)` with a missing key kept apart, and `d.get(k)` with None for it.
unfoldable pub get? : String → Fields → Option Value
get? k end = none
get? k (field j v fs) = if j =ₛ k then some v else get? k fs

unfoldable pub get : String → Fields → Value
get k end = null
get k (field j v fs) = if j =ₛ k then v else get k fs

-- `d.get(k, default)`.
unfoldable pub get_default : String → Value → Fields → Value
unfolding get?
get_default k default fs = elim (get? k fs) [ none ↦ default | some v ↦ v ]

-- `d[k] = v`.
unfoldable pub set_field : String → Value → Fields → Fields
set_field k v end = field k v end
set_field k v (field j w fs) = if j =ₛ k then field j v fs else field j w (set_field k v fs)

unfoldable pub to_list : Values → List Value
to_list nil = []
to_list (cons v vs) = v ∷ to_list vs

unfoldable pub keys : Fields → List Value
keys end = []
keys (field k v fs) = str k ∷ keys fs

unfoldable pub characters : String → List Value
characters String.[] = []
characters (String.◌∷◌ c s) = str (String.◌∷◌ c "") ∷ characters s

-- `for x in v`, and with it `len(v)`: a list gives its items, a text its characters and a dict its
-- keys; anything else is a TypeError.
unfoldable pub iterate : Value → Py (List Value)
unfolding to_list keys characters
iterate (list vs) = ok (to_list vs)
iterate (str s) = ok (characters s)
iterate (dict fs) = ok (keys fs)
iterate _ = err type_error
