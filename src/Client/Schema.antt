-- ===== src/Client/Schema.antt =====
-- sqlagent/llm.py: _validate_schema.
use Prim.Native.String.{◌++◌}
use po_c_sqlagent.Base.{
  ℕ, suc, String, Bool, true, false, List, [], ◌∷◌, any, Option, none, some, ok, err, ◌>>=◌, ◌>>◌,
  guard, not, ◌||◌, if◌then◌else◌,
}
use po_c_sqlagent.Text.{◌=ₛ◌, member, contains, show_nat}
use po_c_sqlagent.Python.{
  Value, null, bool, int, float, str, list, dict, Values, nil, cons, Fields, end, field, Error,
  value_error, type_error, attribute_error, Py, truthy, either, get, get?, to_list, iterate, show,
}

abbrev pub json_types : List String
json_types = "object" ∷ "array" ∷ "string" ∷ "number" ∷ "integer" ∷ "boolean" ∷ "null" ∷ []

-- `matches[expected]`: an integer is a number, a Boolean is neither.
unfoldable pub has_type : String → Value → Bool
has_type t null = t =ₛ "null"
has_type t (bool b) = t =ₛ "boolean"
has_type t (int n) = (t =ₛ "integer") || (t =ₛ "number")
has_type t (float f) = t =ₛ "number"
has_type t (str s) = t =ₛ "string"
has_type t (list vs) = t =ₛ "array"
has_type t (dict fs) = t =ₛ "object"

-- LLMSchemaViolation, a ValueError.
abbrev pub violation : String → String → Error
violation path what = value_error ("LLM schema violation at " ++ (path ++ (": " ++ what)))

-- A type that is no text is none of the seven; a list or a dict has no hash.
unfoldable pub check_type : String → Value → Value → Py (Unit {0})
unfolding member has_type
check_type path (str t) v =
    guard (not (member t json_types) || has_type t v) (violation path ("expected " ++ t))
check_type path (list vs) v = err type_error
check_type path (dict fs) v = err type_error
check_type path _ v = ok tt

abbrev pub is_there : {A : Type 0} → Option A → Bool
is_there none = false
is_there (some v) = true

unfoldable pub check_required : String → Fields → List Value → Py (Unit {0})
unfolding get? show
check_required path fs [] = ok tt
check_required path fs (str k ∷ vs) =
    guard (is_there (get? k fs)) (violation path ("missing " ++ k)) >> check_required path fs vs
check_required path fs (list ws ∷ vs) = err type_error
check_required path fs (dict gs ∷ vs) = err type_error
check_required path fs (v ∷ vs) = err (violation path ("missing " ++ show v))

unfoldable pub is_key : String → Value → Bool
is_key k (str s) = s =ₛ k
is_key k v = false

-- `if key in properties: properties[key]`, for what stands under "properties".
unfoldable pub property_of : Value → String → Py (Option Value)
unfolding get? is_key to_list any contains
property_of (dict properties) k = ok (get? k properties)
property_of (list vs) k = if any (is_key k) (to_list vs) then err type_error else ok none
property_of (str s) k = if contains k s then err type_error else ok none
property_of _ k = err type_error

-- A schema that is true of nothing checks nothing; any other has to be an object.
unfoldable pub check_schema : Value → String → Value → (Fields → Py (Unit {0})) → Py (Unit {0})
unfolding truthy check_type get
check_schema (dict end) path v go = ok tt
check_schema (dict (field k w fs)) path v go =
    check_type path (get "type" (field k w fs)) v >> go (field k w fs)
check_schema schema path v go = if truthy schema then err attribute_error else ok tt

-- `schema.get("properties") or {}`.
abbrev pub properties_of : Fields → Value
properties_of schema = either (get "properties" schema) (dict end)

-- `for required in schema.get("required") or []`.
unfoldable pub check_all_required : String → Fields → Fields → Py (Unit {0})
unfolding iterate either get check_required
check_all_required path schema fs =
    iterate (either (get "required" schema) (list nil)) >>= check_required path fs

abbrev pub check_property : Option Value → (Value → Py (Unit {0})) → Py (Unit {0})
check_property none go = ok tt
check_property (some schema) go = go schema

unfoldable mutual
  unfolding check_schema check_all_required property_of either get truthy show_nat

  pub validate_schema : Value → Value → String → Py (Unit {0})
  validate_schema (dict fs) schema path =
      check_schema schema path (dict fs)
        λ s. check_all_required path s fs >> validate_fields fs (properties_of s) path
  validate_schema (list vs) schema path =
      check_schema schema path (list vs)
        λ s. if truthy (get "items" s) then validate_items vs (get "items" s) path 0 else ok tt
  validate_schema v schema path = check_schema schema path v (λ s. ok tt)

  pub validate_fields : Fields → Value → String → Py (Unit {0})
  validate_fields end properties path = ok tt
  validate_fields (field k v fs) properties path =
      (property_of properties k >>= λ found.
      check_property found (λ schema. validate_schema v schema (path ++ ("." ++ k))))
      >> validate_fields fs properties path

  pub validate_items : Values → Value → String → ℕ → Py (Unit {0})
  validate_items nil schema path i = ok tt
  validate_items (cons v vs) schema path i =
      validate_schema v schema (path ++ ("[" ++ (show_nat i ++ "]")))
      >> validate_items vs schema path (suc i)
