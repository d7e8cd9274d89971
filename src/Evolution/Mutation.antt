-- ===== src/Evolution/Mutation.antt =====
-- sqlagent/evolution/graph.py: the mutation that the model proposes, and the one that stands in for
-- it. The files that are written are kept in the order of the writes, also where an exception stops
-- the loop. The YAML printer, the YAML files that are read, and sqlparse are arguments.
use Prim.Native.String.{◌++◌}
use po_c_sqlagent.Base.{
  ℕ, String, Bool, true, false, not, ◌&&◌, ◌||◌, List, [], ◌∷◌, ◌++◌ as append, any, ok, err, ◌>>=◌,
  ◌>>◌, guard, ltb, length, if◌then◌else◌, Option, none, some,
}
use po_c_sqlagent.Text.{◌=ₛ◌, member, contains, ends_with}
use po_c_sqlagent.Python.{
  get_default, Value, pos, whole, get?, str, float, list, dict, Values, nil, cons, Fields, end,
  field, Error, value_error, type_error, attribute_error, Py, get, either, iterate, to_list,
  set_field,
}
use po_c_sqlagent.Composer.{text_or}
use po_c_sqlagent.Database.{validate_read_only}
use po_c_sqlagent.Workspace.{safe_path}
use po_c_sqlagent.Evolution.Surface.{max_mutation_files, valid_mutation_path, surface_for_path}

-- A file of the workspace and its text.
abbrev pub File : Type 0
File = String × String

-- The writes so far, with what the code came to.
abbrev pub Writing : Type 0 → Type 0
Writing A = List File × Py A

-- The workspace as the mutation sees it. What reading the two YAML files gives depends on what has
-- been written so far.
pub record Skill : Type 0 where
  pub root : List String
  pub links : List String → List String
  pub dump : Value → String
  pub learned_rules : List File → Py Value
  pub manifest : List File → Py Fields
  pub format_sql : String → String
  pub statements : String → ℕ

-- "joins" is another name of "relationships".
unfoldable pub expected_surface : String → String
expected_surface surface = if surface =ₛ "joins" then "relationships" else surface

abbrev pub preaggregate : String
preaggregate = "preaggregate known one-to-many relations before joining coarser-grain measures"

abbrev pub hint : String
hint = "load relationships/dangerous_joins.yaml for metrics on fanout-prone tables"

unfoldable pub is_text : String → Value → Bool
is_text s (str t) = t =ₛ s
is_text s v = false

-- `any(item.get("rule") == rule for item in rules)`, which stops at the first match.
unfoldable pub has_rule : List Value → Py Bool
unfolding is_text get
has_rule [] = ok false
has_rule (dict item ∷ vs) =
    let rest = has_rule vs in if is_text preaggregate (get "rule" item) then ok true else rest
has_rule (v ∷ vs) = err attribute_error

unfoldable pub snoc : Values → Value → Values
snoc nil v = cons v nil
snoc (cons w vs) v = cons w (snoc vs v)

abbrev is_there : Option Value → Bool
is_there none = false
is_there (some v) = true

-- `values.append(v)`.
unfoldable pub append_to : Value → Value → Py Value
unfolding snoc
append_to (list vs) v = ok (list (snoc vs v))
append_to values v = err attribute_error

abbrev pub new_rule : Value
new_rule = dict (
    field "rule" (str preaggregate) (
      field "source" (str "trajectory") (
        field "confidence" (float (record { text = "1.0"; nonzero = true; as_int = whole (pos 1) }))
          end)))

-- `rules or {"rules": []}`, which has to be a mapping.
unfoldable pub rules_of : Value → Py Fields
unfolding either
rules_of learned = elim (either learned (dict (field "rules" (list nil) end))) [
  | dict fs ↦ ok fs
  | _ ↦ err attribute_error
]

-- The rules with the new one; none where it is there already.
unfoldable pub rules_with : Value → Py (Option Fields)
unfolding rules_of get_default iterate has_rule append_to set_field
rules_with learned = do
  rules ← rules_of learned
  let old = get_default "rules" (list nil) rules
  items ← iterate old
  known ← has_rule items
  if known
      then ok none
      else (append_to old new_rule >>= λ extended. ok (some (set_field "rules" extended rules)))

-- `hint in hints`.
unfoldable pub has_hint : Value → Py Bool
unfolding any is_text to_list contains get?
has_hint (list vs) = ok (any (is_text hint) (to_list vs))
has_hint (str s) = ok (contains hint s)
has_hint (dict fs) = ok (is_there (get? hint fs))
has_hint v = err type_error

unfoldable pub manifest_with : Fields → Py (Option Fields)
unfolding get_default has_hint append_to set_field
manifest_with manifest = do
  let hints = get_default "router_hints" (list nil) manifest
  known ← has_hint hints
  if known
      then ok none
      else (append_to hints (str hint) >>= λ extended.
          ok (some (set_field "router_hints" extended manifest)))

module _ (skill : Skill) where
  -- Workspace.write_text, for a path that _safe_path lets pass.
  abbrev pub write_at : String → String → Py (List String) → Writing (List String)
  write_at path text (ok place) = ((path, text) ∷ [], ok (path ∷ []))
  write_at path text (err e) = ([], err e)

  unfoldable pub text_file : String → String → Writing (List String)
  unfolding safe_path
  text_file path text = write_at path text (safe_path skill.links skill.root path)

  -- A template has to be one read-only query; other files are taken as they are.
  unfoldable pub file_text : String → String → Py String
  unfolding validate_read_only ends_with
  file_text path content =
      if ends_with path ".sql"
      then (validate_read_only skill.format_sql skill.statements [] content >>= λ query.
          ok (query ++ ";\n"))
      else ok content

  -- One proposed file: its path and its text, once it has passed all checks.
  unfoldable pub checked_file : String → Fields → Py File
  unfolding text_or valid_mutation_path expected_surface surface_for_path file_text safe_path
  checked_file surface item = do
    let path = text_or "path" "" item
    let content = text_or "content" "" item
    guard (valid_mutation_path path && not (content =ₛ ""))
        (value_error ("mutation path is not allowed: " ++ path))
    guard (surface_for_path path =ₛ expected_surface surface) (
        value_error (
          "mutation crosses surfaces: expected "
          ++ (expected_surface surface ++ (", got " ++ surface_for_path path))))
    text ← file_text path content
    place ← safe_path skill.links skill.root path
    ok (path, text)

  unfoldable pub checked_item : String → Value → Py File
  unfolding checked_file
  checked_item surface (dict item) = checked_file surface item
  checked_item surface v = err attribute_error

  abbrev pub add_write : File → Writing (List String) → Writing (List String)
  add_write (path, text) (writes, ok changed) = ((path, text) ∷ writes, ok (path ∷ changed))
  add_write (path, text) (writes, err e) = ((path, text) ∷ writes, err e)

  abbrev pub go_on : Py File → Writing (List String) → Writing (List String)
  go_on (err e) rest = ([], err e)
  go_on (ok file) rest = add_write file rest

  -- The loop: each file is written before the next one is looked at.
  unfoldable pub write_files : String → List Value → Writing (List String)
  unfolding checked_item
  write_files surface [] = ([], ok [])
  write_files surface (v ∷ vs) = go_on (checked_item surface v) (write_files surface vs)

  -- The manifest is read again and written in its canonical shape.
  abbrev pub and_then : List File → List String → Writing (List String) → Writing (List String)
  and_then writes changed (more, ok paths) = (append writes more, ok changed)
  and_then writes changed (more, err e) = (append writes more, err e)

  abbrev pub rewritten : List File → List String → Py Fields → Writing (List String)
  rewritten writes changed (err e) = (writes, err e)
  rewritten writes changed (ok fs) =
      and_then writes changed (text_file "manifest.yaml" (skill.dump (dict fs)))

  abbrev pub canonical_manifest : Writing (List String) → Writing (List String)
  canonical_manifest (writes, ok changed) =
      if member "manifest.yaml" changed
      then rewritten writes changed (skill.manifest writes)
      else (writes, ok changed)
  canonical_manifest (writes, err e) = (writes, err e)

  abbrev pub count_error : Error
  count_error = value_error "mutation must touch between 1 and 3 files"

  unfoldable pub counted : String → Py (List Value) → Writing (List String)
  unfolding write_files
  counted surface (err e) = ([], err e)
  counted surface (ok []) = ([], err count_error)
  counted surface (ok (v ∷ vs)) =
      let written = write_files surface (v ∷ vs) in
      if ltb max_mutation_files (length (v ∷ vs))
      then ([], err count_error)
      else canonical_manifest written

  -- `_llm_mutation`, for what the model has answered.
  unfoldable pub llm_mutation : String → Py Value → Writing (List String)
  unfolding counted iterate either get
  llm_mutation surface (err e) = ([], err e)
  llm_mutation surface (ok (dict answer)) =
      counted surface (iterate (either (get "files" answer) (list nil)))
  llm_mutation surface (ok v) = ([], err attribute_error)

  -- `rules: [{"rule": …, "source": "failure"}]` under a key.
  abbrev rule_file : String → String → String → Writing (List String)
  rule_file path key rule = text_file path (
      skill.dump (
        dict (
          field key
            (list (cons (dict (field "rule" (str rule) (field "source" (str "failure") end))) nil))
            end)))

  -- A mapping is written where it has changed.
  unfoldable pub write_changed : String → Py (Option Fields) → Writing (List String)
  unfolding text_file
  write_changed path (err e) = ([], err e)
  write_changed path (ok none) = ([], ok [])
  write_changed path (ok (some fs)) = text_file path (skill.dump (dict fs))

  unfoldable pub add_rule : Py Value → Writing (List String)
  unfolding rules_with write_changed
  add_rule learned = write_changed "relationships/learned_rules.yaml" (learned >>= rules_with)

  unfoldable pub add_hint : Py Fields → Writing (List String)
  unfolding manifest_with write_changed
  add_hint manifest = write_changed "manifest.yaml" (manifest >>= manifest_with)

  -- `written` are the files of a refused proposal.
  unfoldable pub fallback_mutation : String → List File → Writing (List String)
  unfolding add_rule add_hint text_file
  fallback_mutation surface written =
      if surface =ₛ "domains"
      then rule_file "domains/learned_routing.yaml" "rules"
          "load the smallest domain containing every required table"
      else if surface =ₛ "semantics"
      then rule_file "semantics/learned_terms.yaml" "terms"
          "ground ambiguous business terms in observed columns before planning"
      else if surface =ₛ "metrics"
      then rule_file "metrics/learned_metrics.yaml" "rules"
          "declare metric expression and grain before joins"
      else if surface =ₛ "joins" || surface =ₛ "relationships"
      then add_rule (skill.learned_rules written)
      else if surface =ₛ "templates"
      then text_file "templates/evolution_notes.md"
          "Use indexed date predicates and preaggregate one-to-many relations before coarse-grain sums.\n"
      else if surface =ₛ "experience"
      then text_file "experience/learned_failure_rules.yaml"
          "rules:\n  - avoid_unbounded_one_to_many_joins: true\n"
      else add_hint (skill.manifest written)
