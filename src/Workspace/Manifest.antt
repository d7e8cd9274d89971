-- ===== src/Workspace/Manifest.antt =====
-- sqlagent/workspace.py: normalize_manifest and lint_manifest.
use Prim.Native.String.{◌++◌}
use po_c_sqlagent.Base.{String, Option, List, [], ◌∷◌, ◌++◌ as append, if◌then◌else◌, none, some}
use po_c_sqlagent.Text.{◌=ₛ◌}
use po_c_sqlagent.Python.{
  Value, null, str, list, dict, Values, nil, cons, Fields, end, field, get, get?, set_field, truthy,
}
use po_c_sqlagent.Composer.{text_or}
use po_c_sqlagent.Workspace.Paths.{path_stem}

-- `str(item.get("name") or "") or (Path(path).stem if path else "")`.
unfoldable pub template_name : Fields → String
unfolding text_or path_stem
template_name item =
    let path = text_or "path" "" item in
    let name = text_or "name" "" item in
    if name =ₛ "" then (if path =ₛ "" then "" else path_stem path) else name

-- `{key: value for key, value in item.items() if key != "name"}`.
unfoldable pub without : String → Fields → Fields
without k end = end
without k (field j v fs) = if j =ₛ k then without k fs else field j v (without k fs)

-- `meta.setdefault(k, v)`.
unfoldable pub set_unless : Option Value → String → Value → Fields → Fields
unfolding set_field
set_unless none k v fs = set_field k v fs
set_unless (some w) k v fs = fs

unfoldable pub set_default : String → Value → Fields → Fields
unfolding get? set_unless
set_default k v fs = set_unless (get? k fs) k v fs

unfoldable pub template_meta : String → Fields → Fields
unfolding without set_default text_or
template_meta name item =
    let path = text_or "path" "" item in
    set_default "path" (str (if path =ₛ "" then "templates/" ++ (name ++ ".sql") else path))
      (without "name" item)

-- The loop over a list of templates; an entry without a name is left out.
unfoldable pub add_template : Value → Fields → Fields
unfolding template_name template_meta set_field
add_template (dict item) normalized =
    if template_name item =ₛ ""
    then normalized
    else set_field (template_name item) (dict (template_meta (template_name item) item)) normalized
add_template v normalized = normalized

unfoldable pub add_templates : Values → Fields → Fields
unfolding add_template
add_templates nil normalized = normalized
add_templates (cons v vs) normalized = add_templates vs (add_template v normalized)

unfoldable pub normalize_templates : Value → Fields → Fields
unfolding add_templates set_field
normalize_templates (list vs) manifest =
    set_field "templates" (dict (add_templates vs end)) manifest
normalize_templates null manifest = manifest
normalize_templates (dict templates) manifest = manifest
normalize_templates v manifest = set_field "templates" (dict end) manifest

unfoldable pub normalize_manifest : Value → Fields
unfolding normalize_templates get
normalize_manifest (dict manifest) = normalize_templates (get "templates" manifest) manifest
normalize_manifest v = end

-- `value is not None and not isinstance(value, list)`, and the same for a mapping.
unfoldable pub unless_list : String → Value → List String
unless_list issue null = []
unless_list issue (list vs) = []
unless_list issue v = issue ∷ []

unfoldable pub unless_dict : String → Value → List String
unless_dict issue null = []
unless_dict issue (dict fs) = []
unless_dict issue v = issue ∷ []

unfoldable pub lint_template : String → Value → List String
unfolding truthy get
lint_template name (dict meta) =
    if truthy (get "path" meta) then [] else ("templates." ++ (name ++ " is missing path")) ∷ []
lint_template name v = ("templates." ++ (name ++ " must be a mapping")) ∷ []

unfoldable pub lint_entries : Fields → List String
unfolding lint_template
lint_entries end = []
lint_entries (field name meta fs) = append (lint_template name meta) (lint_entries fs)

unfoldable pub lint_templates : Value → List String
unfolding lint_entries
lint_templates null = []
lint_templates (list vs) =
    "templates is a list; expected a name -> meta mapping (auto-repaired on read)" ∷ []
lint_templates (dict templates) = lint_entries templates
lint_templates v = "templates must be a mapping" ∷ []

unfoldable pub lint_manifest : Value → List String
unfolding unless_list unless_dict lint_templates get
lint_manifest (dict manifest) =
    append (unless_list "tables must be a list of table names" (get "tables" manifest)) (
      append (unless_dict "domains must be a mapping of domain -> tables" (get "domains" manifest))
        (lint_templates (get "templates" manifest)))
lint_manifest v = "manifest is not a mapping" ∷ []
