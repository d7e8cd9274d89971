-- ===== src/Client/Conforms.antt =====
-- sqlagent/llm.py: what a value that _validate_schema accepts looks like.
use Prim.Native.String.{◌++◌}
use po_c_sqlagent.Base.{
  ◌∙◌, ℕ, suc, String, true, false, ◌≡◌, refl, List, [], ◌∷◌, All, In, Option, none, some, ok, err,
  ◌⊎◌, inl, inr, ◌>>=◌, >>=-eq-ok, guard-eq-ok, Bool-cases, subst, sym, ap,
}
use po_c_sqlagent.Text.{member, show_nat}
use po_c_sqlagent.Python.{
  Value, null, bool, int, float, str, list, dict, Values, nil, cons, Fields, end, field, Py, truthy,
  get, get?, either, to_list, iterate,
}
use po_c_sqlagent.Client.Schema.{
  json_types, has_type, check_type, check_required, check_all_required, property_of, check_schema,
  properties_of, check_property, is_there, validate_schema, validate_fields, validate_items,
}

-- The type that a schema names, where it names one of the seven.
abbrev pub Typed : Fields → Value → Type 0
Typed s v = (t : String) → get "type" s ≡ str t → member t json_types ≡ true → has_type t v ≡ true

abbrev pub Requires : Fields → Fields → Type 0
Requires s fs =
    (vs : List Value) × (iterate (either (get "required" s) (list nil)) ≡ ok vs)
    × All (λ v. (k : String) × (v ≡ str k) × (is_there (get? k fs) ≡ true)) vs

abbrev pub InFields : String → Value → Fields → Type 0
InFields k v end = ⊥
InFields k v (field j w fs) = ((j ≡ k) × (w ≡ v)) ⊎ InFields k v fs

abbrev pub IsPlain : Value → Type 0
IsPlain (list vs) = ⊥
IsPlain (dict fs) = ⊥
IsPlain _ = Unit

-- A value conforms to a schema: to none, or to its type and, all the way down, to its required keys,
-- its properties and its items.
pub data Conforms : Value → Value → Type 0 where
  anything : (schema v : Value) → truthy schema ≡ false → Conforms schema v
  plain : (s : Fields) (v : Value) → IsPlain v → Typed s v → Conforms (dict s) v
  object :
      (s fs : Fields)
      → Typed s (dict fs)
      → Requires s fs
      → ((k : String) (v p : Value)
          → InFields k v fs
          → property_of (properties_of s) k ≡ ok (some p)
          → Conforms p v)
      → Conforms (dict s) (dict fs)
  array :
      (s : Fields) (vs : Values)
      → Typed s (list vs)
      → (truthy (get "items" s) ≡ true
          → (v : Value) → In v (to_list vs)
          → Conforms (get "items" s) v)
      → Conforms (dict s) (list vs)

check_type-Typed :
    (path : String) (found v : Value)
    → check_type path found v ≡ ok tt
    → (t : String) → found ≡ str t
    → member t json_types ≡ true
    → has_type t v ≡ true
unfolding check_type
check_type-Typed path (str t) v h u e k = elim (Bool-cases (has_type t v)) [
  | inl fits ↦ cc
  | inr other ↦ absurd (cc)
]
check_type-Typed path _ v h u e k = absurd (cc e)

required-All :
    (path : String) (fs : Fields) (vs : List Value)
    → check_required path fs vs ≡ ok tt
    → All (λ v. (k : String) × (v ≡ str k) × (is_there (get? k fs) ≡ true)) vs
unfolding check_required
required-All path fs [] h = tt
required-All path fs (str k ∷ vs) h =
    let (there, h₁) = guard-eq-ok (is_there (get? k fs)) _ _ h in
    ((k, refl, there), required-All path fs vs h₁)
required-All path fs (_ ∷ vs) h = absurd (cc h)

all_required-Requires :
    (path : String) (s fs : Fields) → check_all_required path s fs ≡ ok tt → Requires s fs
unfolding check_all_required
all_required-Requires path s fs h =
    let (vs, e, h₁) =
      >>=-eq-ok (iterate (either (get "required" s) (list nil))) (check_required path fs) h in
    (vs, e, required-All path fs vs h₁)

check_schema-cases :
    (schema v : Value) (path : String) (go : Fields → Py (Unit {0}))
    → check_schema schema path v go ≡ ok tt
    → (truthy schema ≡ false) ⊎ ((s : Fields) × (schema ≡ dict s) × Typed s v × (go s ≡ ok tt))
unfolding check_schema
check_schema-cases (dict end) v path go h = inl (unfold truthy in refl)
check_schema-cases (dict (field k w fs)) v path go h =
    let (u, e, h₁) = >>=-eq-ok (check_type path (get "type" (field k w fs)) v) _ h in
    inr (field k w fs, refl, check_type-Typed path (get "type" (field k w fs)) v e, h₁)
check_schema-cases schema v path go h = elim (Bool-cases (truthy schema)) [
  | inl there ↦ absurd (cc)
  | inr absent ↦ inl absent
]

by_schema :
    (schema v : Value) (path : String) (go : Fields → Py (Unit {0}))
    → check_schema schema path v go ≡ ok tt
    → ((s : Fields) → Typed s v → go s ≡ ok tt → Conforms (dict s) v)
    → Conforms schema v
by_schema schema v path go h k = elim (check_schema-cases schema v path go h) [
  | inl none_needed ↦ anything schema v none_needed
  | inr (s, e, typed, h₁) ↦ subst (λ t. Conforms t v) (sym e) (k s typed h₁)
]

found-ok :
    (r : Py (Option Value)) (p : Value) (go : Value → Py (Unit {0}))
    → r ≡ ok (some p)
    → (r >>= λ found. check_property found go) ≡ ok tt
    → go p ≡ ok tt
found-ok (err e) p go h k = absurd (cc h)
found-ok (ok none) p go h k = absurd (cc h)
found-ok (ok (some q)) p go h k = let same : q ≡ p = cc in subst (λ x. go x ≡ ok tt) same k

mutual
  unfolding validate_schema validate_fields validate_items to_list

  value-Conforms :
      (v schema : Value) (path : String) → validate_schema v schema path ≡ ok tt → Conforms schema v
  value-Conforms (dict fs) schema path h = by_schema schema (dict fs) path _ h λ s typed h₁.
      let (u, e, h₂) = >>=-eq-ok (check_all_required path s fs) _ h₁ in
      object s fs typed (all_required-Requires path s fs e)
        (fields-Conforms fs (properties_of s) path h₂)
  value-Conforms (list vs) schema path h = by_schema schema (list vs) path _ h λ s typed h₁.
      array s vs typed λ some_items. items-Conforms vs (get "items" s) path 0 (rw some_items at h₁)
  value-Conforms null schema path h =
      by_schema schema null path _ h λ s typed h₁. plain s null tt typed
  value-Conforms (bool b) schema path h =
      by_schema schema (bool b) path _ h λ s typed h₁. plain s (bool b) tt typed
  value-Conforms (int n) schema path h =
      by_schema schema (int n) path _ h λ s typed h₁. plain s (int n) tt typed
  value-Conforms (float f) schema path h =
      by_schema schema (float f) path _ h λ s typed h₁. plain s (float f) tt typed
  value-Conforms (str s) schema path h =
      by_schema schema (str s) path _ h λ t typed h₁. plain t (str s) tt typed

  fields-Conforms :
      (fs : Fields) (properties : Value) (path : String)
      → validate_fields fs properties path ≡ ok tt
      → (k : String) (v p : Value) → InFields k v fs
      → property_of properties k ≡ ok (some p)
      → Conforms p v
  fields-Conforms end properties path h k v p is e = elim is [ ]
  fields-Conforms (field j w fs) properties path h k v p is e =
      let (u, e₁, h₁) =
        >>=-eq-ok
          (property_of properties j >>= λ found.
            check_property found (λ schema. validate_schema w schema (path ++ ("." ++ j))))
          _ h in
      elim is [
        | inl (same, e₂) ↦ subst (Conforms p) e₂ (
            value-Conforms w p (path ++ ("." ++ j))
              (found-ok (property_of properties j) p _ (ap (property_of properties) same ∙ e) e₁))
        | inr later ↦ fields-Conforms fs properties path h₁ k v p later e
      ]

  items-Conforms :
      (vs : Values) (schema : Value) (path : String) (i : ℕ)
      → validate_items vs schema path i ≡ ok tt
      → (v : Value) → In v (to_list vs)
      → Conforms schema v
  items-Conforms nil schema path i h v is = elim is [ ]
  items-Conforms (cons w vs) schema path i h v is =
      let (u, e₁, h₁) =
        >>=-eq-ok (validate_schema w schema (path ++ ("[" ++ (show_nat i ++ "]")))) _ h in
      elim is [
        | inl same ↦
            subst (Conforms schema) same
              (value-Conforms w schema (path ++ ("[" ++ (show_nat i ++ "]"))) e₁)
        | inr later ↦ items-Conforms vs schema path (suc i) h₁ v later
      ]

-- A value that validation accepts conforms to the schema: to none, or all the way down to the types,
-- the required keys, the properties and the items that the schema names.
pub validate_schema-Conforms :
    (v schema : Value) (path : String) → validate_schema v schema path ≡ ok tt → Conforms schema v
validate_schema-Conforms v schema path h = value-Conforms v schema path h
