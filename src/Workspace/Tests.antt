-- ===== src/Workspace/Tests.antt =====
-- Manifests and paths at concrete inputs.
use po_c_sqlagent.Base.{
  All, ◌++◌, String, List, if◌then◌else◌, ◌↔◌, ◌≡◌, refl, [], ◌∷◌, ◌++◌, ok, err,
}
use po_c_sqlagent.Text.{◌=ₛ◌}
use po_c_sqlagent.Python.{
  null, get?, to_list, str, list, dict, nil, cons, Fields, end, field, get, runtime_error,
}
use po_c_sqlagent.Workspace.{
  unless_list, unless_dict, resolve, last_of, normalize_manifest, lint_manifest, safe_path,
  path_stem,
}
use po_c_sqlagent.Workspace.Canonical.{
  IsMapping, normalize_manifest-IsMapping, HasPathOrNone, lint_manifest-normalize_manifest,
}
use po_c_sqlagent.Workspace.Inside.{Inside, safe_path-Inside}

abbrev listed : Fields
listed =
    field "templates"
      (list (
        cons (dict (field "path" (str "templates/regions.v2.sql") end))
          (cons (dict (field "name" (str "top") end)) (cons (str "x") nil))))
      (field "tables" (list nil) end)

normalized_listed :
    normalize_manifest (dict listed)
    ≡ field "templates"
        (dict (
          field "regions.v2"
            (dict (field "path" (str "templates/regions.v2.sql") end))
            (field "top" (dict (field "path" (str "templates/top.sql") end)) end)))
        (field "tables" (list nil) end)
unfolding normalize_manifest
normalized_listed = refl

lint_clean : lint_manifest (dict (normalize_manifest (dict listed))) ≡ []
unfolding lint_manifest normalize_manifest
lint_clean = refl

stems :
    path_stem "templates/.hidden" ∷ path_stem "a/b.c." ∷ path_stem "x.y.z" ∷ []
    ≡ ".hidden" ∷ "b.c." ∷ "x.y" ∷ []
unfolding path_stem
stems = refl

abbrev no_links : List String → List String
no_links place = place

-- "out" is a link that leads out of the workspace.
abbrev shared : List String → List String
shared place = if last_of place =ₛ "out" then "tmp" ∷ [] else place

link_refused :
    safe_path shared ("srv" ∷ []) "out/a.yaml"
    ≡ err (runtime_error "path escapes workspace: out/a.yaml")
unfolding safe_path last_of
link_refused = refl

-- A path that starts with an allowed prefix may lead elsewhere in the workspace.
prefix_left :
    safe_path no_links ("srv" ∷ "skill" ∷ []) "domains/../manifest.yaml"
    ≡ ok ("srv" ∷ "skill" ∷ "manifest.yaml" ∷ [])
unfolding safe_path
prefix_left = refl

escape_refused :
    safe_path no_links ("srv" ∷ "skill" ∷ []) "domains/../../x"
    ≡ err (runtime_error "path escapes workspace: domains/../../x")
unfolding safe_path
escape_refused = refl

normalize_manifest-IsMapping_example :
    IsMapping (get "templates" (normalize_manifest (dict listed)))
    × (normalize_manifest (dict (normalize_manifest (dict listed)))
        ≡ normalize_manifest (dict listed))
    × (get "tables" (normalize_manifest (dict listed)) ≡ get "tables" listed)
normalize_manifest-IsMapping_example = normalize_manifest-IsMapping listed "tables" refl

abbrev one_template : Fields
one_template = field "templates" (list (cons (dict (field "name" (str "top") end)) nil)) end

all_named : All HasPathOrNone (to_list (cons (dict (field "name" (str "top") end)) nil))
unfolding to_list get?
all_named = (λ v e. absurd (cc e), tt)

lint_manifest-normalize_manifest_example :
    lint_manifest (dict (normalize_manifest (dict one_template)))
    ≡ unless_list "tables must be a list of table names" (get "tables" one_template)
      ++ unless_dict "domains must be a mapping of domain -> tables" (get "domains" one_template)
unfolding get
lint_manifest-normalize_manifest_example =
    lint_manifest-normalize_manifest one_template (cons (dict (field "name" (str "top") end)) nil)
      refl all_named

-- An entry of the list that has a null path keeps it, and lint reports it.
null_path_reported :
    lint_manifest (
      dict (
        normalize_manifest (
          dict (
            field "templates"
              (list (cons (dict (field "name" (str "a") (field "path" null end))) nil))
              end))))
    ≡ "templates.a is missing path" ∷ []
unfolding lint_manifest normalize_manifest
null_path_reported = refl

safe_path-Inside_example : (safe_path shared ("srv" ∷ []) "out/a.yaml" ≡ ok ("srv" ∷ "x" ∷ [])) ↔ (
    (resolve shared ("srv" ∷ []) "out/a.yaml" ≡ "srv" ∷ "x" ∷ [])
    × Inside ("srv" ∷ []) ("srv" ∷ "x" ∷ []))
safe_path-Inside_example = safe_path-Inside shared ("srv" ∷ []) "out/a.yaml" ("srv" ∷ "x" ∷ [])
