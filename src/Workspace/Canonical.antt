-- ===== src/Workspace/Canonical.antt =====
-- sqlagent/workspace.py: what normalize_manifest makes of a manifest, and what lint_manifest says of it.
use mathlib.Core.List.{append-nil}
use text.Mathlib.TextEquality.{eq_iff}
use text.Mathlib.TextPositions.{eq_refl}
use po_c_sqlagent.Base.{
  All, some-injective, String, true, false, ◌≡◌, refl, sym, ap, ◌∙◌, inl, inr, Option, none, some,
  [], ◌++◌ as append, arith, Bool-cases, if◌then◌else◌,
}
use po_c_sqlagent.Text.{◌=ₛ◌}
use po_c_sqlagent.Python.{
  truthy, to_list, Value, null, bool, int, float, str, list, dict, Values, nil, cons, Fields, end,
  field, get, get?, set_field,
}
use po_c_sqlagent.Composer.{text_or}
use po_c_sqlagent.Database.{append_not_empty}
use Prim.Native.String.{◌++◌}
use po_c_sqlagent.Workspace.Manifest.{
  lint_templates, lint_manifest, unless_list, unless_dict, template_name, template_meta,
  set_default, set_unless, without, add_template, add_templates, normalize_templates,
  normalize_manifest, lint_template, lint_entries,
}

-- No templates, or a mapping.
abbrev pub IsMapping : Value → Type 0
IsMapping null = Unit
IsMapping (dict fs) = Unit
IsMapping _ = ⊥

pub get-set_field : (k : String) (v : Value) (fs : Fields) → get k (set_field k v fs) ≡ v
unfolding get set_field
get-set_field k v end = rw eq_refl
get-set_field k v (field j w fs) = elim (Bool-cases (j =ₛ k)) [
  | inl same ↦ rw (same, same) refl
  | inr other ↦ rw (other, other) (get-set_field k v fs)
]

templates-IsMapping :
    (v : Value) (fs : Fields)
    → get "templates" fs ≡ v
    → IsMapping (get "templates" (normalize_templates v fs))
unfolding normalize_templates
templates-IsMapping null fs e = rw e tt
templates-IsMapping (dict t) fs e = rw e tt
templates-IsMapping (list vs) fs e = rw get-set_field tt
templates-IsMapping (bool b) fs e = rw get-set_field tt
templates-IsMapping (int n) fs e = rw get-set_field tt
templates-IsMapping (float f) fs e = rw get-set_field tt
templates-IsMapping (str s) fs e = rw get-set_field tt

pub normalize-IsMapping : (m : Value) → IsMapping (get "templates" (normalize_manifest m))
unfolding normalize_manifest get
normalize-IsMapping (dict fs) = templates-IsMapping (get "templates" fs) fs refl
normalize-IsMapping null = tt
normalize-IsMapping (bool b) = tt
normalize-IsMapping (int n) = tt
normalize-IsMapping (float f) = tt
normalize-IsMapping (str s) = tt
normalize-IsMapping (list vs) = tt

-- A manifest whose templates have the shape is left as it is.
canonical_kept : (v : Value) (fs : Fields) → IsMapping v → normalize_templates v fs ≡ fs
unfolding normalize_templates
canonical_kept null fs h = refl
canonical_kept (dict t) fs h = refl
canonical_kept (list vs) fs h = elim h [ ]
canonical_kept (bool b) fs h = elim h [ ]
canonical_kept (int n) fs h = elim h [ ]
canonical_kept (float f) fs h = elim h [ ]
canonical_kept (str s) fs h = elim h [ ]

normalize_again : (fs : Fields) → IsMapping (get "templates" fs) → normalize_manifest (dict fs) ≡ fs
unfolding normalize_manifest
normalize_again fs h = canonical_kept (get "templates" fs) fs h

-- A mapping whose path is true.
abbrev pub HasPath : Value → Type 0
HasPath (dict fs) = truthy (get "path" fs) ≡ true
HasPath _ = ⊥

-- A path that an entry of a list names is true.
abbrev pub HasPathOrNone : Value → Type 0
HasPathOrNone (dict fs) = (v : Value) → get? "path" fs ≡ some v → truthy v ≡ true
HasPathOrNone _ = Unit

abbrev pub AllFields : (Value → Type 0) → Fields → Type 0
AllFields P end = Unit
AllFields P (field k v fs) = P v × AllFields P fs

get-get? : (k : String) (fs : Fields) (v : Value) → get? k fs ≡ some v → get k fs ≡ v
unfolding get get?
get-get? k end v e = absurd (cc e)
get-get? k (field j w fs) v e = elim (Bool-cases (j =ₛ k)) [
  | inl same ↦ rw same (some-injective (rw same at e))
  | inr other ↦ rw other (get-get? k fs v (rw other at e))
]

get?-without : (k j : String) (fs : Fields) → (k =ₛ j) ≡ false → get? k (without j fs) ≡ get? k fs
unfolding get? without
get?-without k j end h = refl
get?-without k j (field i w fs) h = elim (Bool-cases (i =ₛ j)) [
  | inl same ↦
      let off : (i =ₛ k) ≡ false = ground (arith, same, h, eq_iff i j, eq_iff i k, eq_iff k j) in
      rw (same, off) (get?-without k j fs h)
  | inr other ↦ elim (Bool-cases (i =ₛ k)) [
    | inl here ↦ rw (other, here) refl
    | inr later ↦ rw (other, later) (get?-without k j fs h)
  ]
]

default_true :
    (found : Option Value) (k : String) (v : Value) (fs : Fields)
    → get? k fs ≡ found
    → truthy v ≡ true
    → ((w : Value) → found ≡ some w → truthy w ≡ true)
    → truthy (get k (set_unless found k v fs)) ≡ true
unfolding set_unless
default_true none k v fs e h k' = rw (get-set_field k v fs) h
default_true (some w) k v fs e h k' = rw (get-get? k fs w e) (k' w refl)

path_true :
    (path name : String)
    → truthy (str (if path =ₛ "" then "templates/" ++ (name ++ ".sql") else path)) ≡ true
unfolding truthy
path_true path name = elim (Bool-cases (path =ₛ "")) [
  | inl empty ↦ rw (empty, append_not_empty "t" "emplates/" (name ++ ".sql")) refl
  | inr full ↦ rw (full, full) refl
]

set_field-AllFields :
    (P : Value → Type 0) (k : String) (v : Value) (fs : Fields)
    → P v
    → AllFields P fs
    → AllFields P (set_field k v fs)
unfolding set_field
set_field-AllFields P k v end p h = (p, tt)
set_field-AllFields P k v (field j w fs) p h = elim (Bool-cases (j =ₛ k)) [
  | inl same ↦ rw same (p, h.1)
  | inr other ↦ rw other (h.0, set_field-AllFields P k v fs p h.1)
]

add-AllFields :
    (v : Value) (fs : Fields)
    → HasPathOrNone v
    → AllFields HasPath fs
    → AllFields HasPath (add_template v fs)
unfolding add_template template_meta set_default
add-AllFields (dict item) fs own h = elim (Bool-cases (template_name item =ₛ "")) [
  | inl nameless ↦ rw nameless h
  | inr called ↦
      let kept = get?-without "path" "name" item refl in
      rw called (
        set_field-AllFields HasPath (template_name item) _ fs
          (default_true (get? "path" (without "name" item)) "path" _ (without "name" item) refl
            (path_true (text_or "path" "" item) (template_name item)) (λ w e. own w (sym kept ∙ e)))
          h)
]
add-AllFields null fs own h = h
add-AllFields (bool b) fs own h = h
add-AllFields (int n) fs own h = h
add-AllFields (float f) fs own h = h
add-AllFields (str s) fs own h = h
add-AllFields (list vs) fs own h = h

add_templates-AllFields :
    (vs : Values) (fs : Fields)
    → All HasPathOrNone (to_list vs)
    → AllFields HasPath fs
    → AllFields HasPath (add_templates vs fs)
unfolding add_templates to_list
add_templates-AllFields nil fs own h = h
add_templates-AllFields (cons v vs) fs own h =
    add_templates-AllFields vs (add_template v fs) own.1 (add-AllFields v fs own.0 h)

lint_template-HasPath : (name : String) (v : Value) → HasPath v → lint_template name v ≡ []
unfolding lint_template
lint_template-HasPath name (dict meta) h = rw h refl
lint_template-HasPath name null h = elim h [ ]
lint_template-HasPath name (bool b) h = elim h [ ]
lint_template-HasPath name (int n) h = elim h [ ]
lint_template-HasPath name (float f) h = elim h [ ]
lint_template-HasPath name (str s) h = elim h [ ]
lint_template-HasPath name (list vs) h = elim h [ ]

lint_entries-AllFields : (fs : Fields) → AllFields HasPath fs → lint_entries fs ≡ []
unfolding lint_entries
lint_entries-AllFields end h = refl
lint_entries-AllFields (field name v fs) h =
    rw (lint_template-HasPath name v h.0) (lint_entries-AllFields fs h.1)

get-set_other :
    (k j : String) (v : Value) (fs : Fields)
    → (k =ₛ j) ≡ false
    → get k (set_field j v fs) ≡ get k fs
unfolding get set_field
get-set_other k j v end h = ground (arith, eq_iff j k, eq_iff k j)
get-set_other k j v (field i w fs) h =
    ground (arith, eq_iff i j, eq_iff i k, eq_iff k j, get-set_other k j v fs)

templates-kept :
    (k : String) (v : Value) (fs : Fields)
    → (k =ₛ "templates") ≡ false
    → get k (normalize_templates v fs) ≡ get k fs
unfolding normalize_templates
templates-kept k null fs h = refl
templates-kept k (dict t) fs h = refl
templates-kept k (list vs) fs h = get-set_other k "templates" _ fs h
templates-kept k (bool b) fs h = get-set_other k "templates" _ fs h
templates-kept k (int n) fs h = get-set_other k "templates" _ fs h
templates-kept k (float f) fs h = get-set_other k "templates" _ fs h
templates-kept k (str s) fs h = get-set_other k "templates" _ fs h

-- Whatever a manifest that is a mapping has under "templates": after normalization there is nothing or
-- a mapping, normalizing again changes nothing, and every other key is as it was.
pub normalize_manifest-IsMapping :
    (fs : Fields) (k : String)
    → (k =ₛ "templates") ≡ false
    → IsMapping (get "templates" (normalize_manifest (dict fs)))
      × (normalize_manifest (dict (normalize_manifest (dict fs))) ≡ normalize_manifest (dict fs))
      × (get k (normalize_manifest (dict fs)) ≡ get k fs)
normalize_manifest-IsMapping fs k h = (
  normalize-IsMapping (dict fs),
  normalize_again (normalize_manifest (dict fs)) (normalize-IsMapping (dict fs)),
  unfold normalize_manifest in templates-kept k (get "templates" fs) fs h,
)

list_clean :
    (fs : Fields) (vs : Values)
    → get "templates" fs ≡ list vs
    → All HasPathOrNone (to_list vs)
    → lint_templates (get "templates" (normalize_templates (get "templates" fs) fs)) ≡ []
unfolding normalize_templates lint_templates
list_clean fs vs e own =
    rw (e, get-set_field)
      (lint_entries-AllFields (add_templates vs end) (add_templates-AllFields vs end own tt))

-- Where a manifest has a list under "templates", and no mapping of it names a path that is null or
-- empty: what lint reports of the normalized manifest is what it reports of the tables and the domains
-- of the manifest, and nothing of the templates.
pub lint_manifest-normalize_manifest :
    (fs : Fields) (vs : Values)
    → get "templates" fs ≡ list vs
    → All HasPathOrNone (to_list vs)
    → lint_manifest (dict (normalize_manifest (dict fs)))
      ≡ append
          (unless_list "tables must be a list of table names" (get "tables" fs))
          (unless_dict "domains must be a mapping of domain -> tables" (get "domains" fs))
unfolding lint_manifest normalize_manifest
lint_manifest-normalize_manifest fs vs e own =
    let tables = templates-kept "tables" (get "templates" fs) fs refl in
    let domains = templates-kept "domains" (get "templates" fs) fs refl in
    rw (tables, domains, list_clean fs vs e own) (ap (append _) (append-nil _))
