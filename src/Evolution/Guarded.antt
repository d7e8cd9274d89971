-- ===== src/Evolution/Guarded.antt =====
-- sqlagent/evolution/graph.py: every file that a mutation writes.
use Prim.Native.String.{◌++◌}
use po_c_sqlagent.Base.{
  String, Bool, true, false, not, ◌&&◌, ◌||◌, ◌≡◌, refl, ◌⊎◌, inl, inr, Option, none, some, List,
  [], ◌∷◌, ◌++◌ as append, All, ok, err, >>=-eq-ok, ◌>>=◌, guard-eq-ok, ok-injective, subst, sym,
  arith, Bool-cases, if◌then◌else◌, ltb, length,
}
use po_c_sqlagent.Text.{◌=ₛ◌, member, ends_with}
use po_c_sqlagent.Python.{
  Value, dict, list, nil, null, bool, int, float, str, Fields, Py, get, either, iterate,
  value_error, llm_unavailable, key_error, type_error, overflow_error, attribute_error,
  runtime_error, timeout_error,
}
use po_c_sqlagent.Composer.{text_or}
use po_c_sqlagent.Database.{validate_read_only, IsReadOnly, validate_read_only-IsReadOnly}
use po_c_sqlagent.Workspace.{safe_path}
use po_c_sqlagent.Workspace.Inside.{Inside, safe_path-Inside}
use po_c_sqlagent.Evolution.Surface.{valid_mutation_path, surface_for_path, max_mutation_files}
use po_c_sqlagent.Evolution.Mutation.{
  File, Writing, Skill, expected_surface, file_text, checked_file, checked_item, go_on, write_files,
  canonical_manifest, rewritten, write_at, text_file, and_then, counted, llm_mutation,
  write_changed, add_rule, add_hint, rules_with, manifest_with, fallback_mutation,
}
use po_c_sqlagent.Evolution.Evolve.{recovered, proposed, at_most_three, or_fallback, mutate}

module _ (skill : Skill) where
  -- The path is one of the allowed ones, it leads to the workspace or below it, and the text of a template is a validated query.
  abbrev pub IsGuarded : File → Type 0
  IsGuarded (path, text) =
      (valid_mutation_path path ≡ true)
      × ((place : List String) × (safe_path skill.links skill.root path ≡ ok place)
          × Inside skill.root place)
      × ((ends_with path ".sql" ≡ false)
          ⊎ ((query : String) × IsReadOnly skill.format_sql skill.statements [] query
              × (text ≡ query ++ ";\n")))

  abbrev AllGuarded : Writing (List String) → Type 0
  AllGuarded w = All IsGuarded w.0

  text-IsGuarded :
      (path content text : String)
      → file_text skill path content ≡ ok text
      → (ends_with path ".sql" ≡ false)
        ⊎ ((query : String) × IsReadOnly skill.format_sql skill.statements [] query
            × (text ≡ query ++ ";\n"))
  unfolding file_text
  text-IsGuarded path content text h = elim (Bool-cases (ends_with path ".sql")) [
    | inl template ↦
        let (query, e, h₁) =
          >>=-eq-ok (validate_read_only skill.format_sql skill.statements [] content) _
            (rw template at h) in
        inr (
          query,
          (validate_read_only-IsReadOnly skill.format_sql skill.statements [] content query e).1,
          sym (ok-injective h₁),
        )
    | inr other ↦ inl other
  ]

  file-IsGuarded :
      (surface : String) (item : Fields) (file : File)
      → checked_file skill surface item ≡ ok file
      → IsGuarded file
  unfolding checked_file
  file-IsGuarded surface item file h =
      let path = text_or "path" "" item in
      let content = text_or "content" "" item in
      let (allowed, h₁) = guard-eq-ok (valid_mutation_path path && not (content =ₛ "")) _ _ h in
      let (here, h₂) = guard-eq-ok (surface_for_path path =ₛ expected_surface surface) _ _ h₁ in
      let (text, e₃, h₃) = >>=-eq-ok (file_text skill path content) _ h₂ in
      let (place, e₄, h₄) = >>=-eq-ok (safe_path skill.links skill.root path) _ h₃ in
      subst IsGuarded (ok-injective h₄) (
        ground arith,
        (place, e₄, ((safe_path-Inside skill.links skill.root path place).0 e₄).1),
        text-IsGuarded path content text e₃,
      )

  item-IsGuarded :
      (surface : String) (v : Value) (file : File)
      → checked_item skill surface v ≡ ok file
      → IsGuarded file
  unfolding checked_item
  item-IsGuarded surface (dict item) file h = file-IsGuarded surface item file h
  item-IsGuarded surface _ file h = absurd (cc h)

  go_on-AllGuarded :
      (r : Py File) (rest : Writing (List String))
      → ((file : File) → r ≡ ok file → IsGuarded file)
      → AllGuarded rest
      → AllGuarded (go_on skill r rest)
  go_on-AllGuarded (err e) rest h k = tt
  go_on-AllGuarded (ok file) (writes, ok changed) h k = (h file refl, k)
  go_on-AllGuarded (ok file) (writes, err e) h k = (h file refl, k)

  write_files-AllGuarded :
      (surface : String) (vs : List Value) → AllGuarded (write_files skill surface vs)
  unfolding write_files
  write_files-AllGuarded surface [] = tt
  write_files-AllGuarded surface (v ∷ vs) =
      go_on-AllGuarded (checked_item skill surface v) (write_files skill surface vs)
        (item-IsGuarded surface v) (write_files-AllGuarded surface vs)

  All-append : (a b : List File) → All IsGuarded a → All IsGuarded b → All IsGuarded (append a b)
  All-append [] b h k = k
  All-append (x ∷ a) b h k = (h.0, All-append a b h.1 k)

  write_at-AllGuarded :
      (path text : String) (r : Py (List String))
      → safe_path skill.links skill.root path ≡ r
      → valid_mutation_path path ≡ true
      → ends_with path ".sql" ≡ false
      → AllGuarded (write_at skill path text r)
  write_at-AllGuarded path text (ok place) e h k =
      ((h, (place, e, ((safe_path-Inside skill.links skill.root path place).0 e).1), inl k), tt)
  write_at-AllGuarded path text (err x) e h k = tt

  text_file-AllGuarded :
      (path text : String)
      → valid_mutation_path path ≡ true
      → ends_with path ".sql" ≡ false
      → AllGuarded (text_file skill path text)
  unfolding text_file
  text_file-AllGuarded path text h k =
      write_at-AllGuarded path text (safe_path skill.links skill.root path) refl h k

  and_then-AllGuarded :
      (writes : List File) (changed : List String) (w : Writing (List String))
      → All IsGuarded writes
      → AllGuarded w
      → AllGuarded (and_then skill writes changed w)
  and_then-AllGuarded writes changed (more, ok paths) h k = All-append writes more h k
  and_then-AllGuarded writes changed (more, err e) h k = All-append writes more h k

  if-AllGuarded :
      (b : Bool) (v w : Writing (List String))
      → AllGuarded v
      → AllGuarded w
      → AllGuarded (if b then v else w)
  if-AllGuarded true v w h k = h
  if-AllGuarded false v w h k = k

  rewritten-AllGuarded :
      (writes : List File) (changed : List String) (r : Py Fields)
      → All IsGuarded writes
      → AllGuarded (rewritten skill writes changed r)
  unfolding valid_mutation_path ends_with
  rewritten-AllGuarded writes changed (err e) h = h
  rewritten-AllGuarded writes changed (ok fs) h =
      and_then-AllGuarded writes changed _ h (text_file-AllGuarded "manifest.yaml" _ refl refl)

  canonical-AllGuarded :
      (w : Writing (List String)) → AllGuarded w → AllGuarded (canonical_manifest skill w)
  canonical-AllGuarded (writes, ok changed) h =
      if-AllGuarded (member "manifest.yaml" changed) _ _
        (rewritten-AllGuarded writes changed (skill.manifest writes) h) h
  canonical-AllGuarded (writes, err e) h = h

  counted-AllGuarded :
      (surface : String) (r : Py (List Value)) → AllGuarded (counted skill surface r)
  unfolding counted
  counted-AllGuarded surface (err e) = tt
  counted-AllGuarded surface (ok []) = tt
  counted-AllGuarded surface (ok (v ∷ vs)) =
      if-AllGuarded (ltb max_mutation_files (length (v ∷ vs))) _ _ tt (
        canonical-AllGuarded (write_files skill surface (v ∷ vs))
          (write_files-AllGuarded surface (v ∷ vs)))

  llm-AllGuarded :
      (surface : String) (answer : Py Value) → AllGuarded (llm_mutation skill surface answer)
  unfolding llm_mutation
  llm-AllGuarded surface (err e) = tt
  llm-AllGuarded surface (ok (dict answer)) =
      counted-AllGuarded surface (iterate (either (get "files" answer) (list nil)))
  llm-AllGuarded surface (ok null) = tt
  llm-AllGuarded surface (ok (bool b)) = tt
  llm-AllGuarded surface (ok (int n)) = tt
  llm-AllGuarded surface (ok (float f)) = tt
  llm-AllGuarded surface (ok (str s)) = tt
  llm-AllGuarded surface (ok (list vs)) = tt

  recovered-AllGuarded : (w : Writing (List String)) → AllGuarded w → AllGuarded (recovered w)
  unfolding recovered
  recovered-AllGuarded (writes, ok changed) h = h
  recovered-AllGuarded (writes, err (value_error m)) h = h
  recovered-AllGuarded (writes, err (llm_unavailable m)) h = h
  recovered-AllGuarded (writes, err key_error) h = h
  recovered-AllGuarded (writes, err type_error) h = h
  recovered-AllGuarded (writes, err (runtime_error m)) h = h
  recovered-AllGuarded (writes, err (timeout_error m)) h = h
  recovered-AllGuarded (writes, err overflow_error) h = h
  recovered-AllGuarded (writes, err attribute_error) h = h

  changed-AllGuarded :
      (path : String) (r : Py (Option Fields))
      → valid_mutation_path path ≡ true
      → ends_with path ".sql" ≡ false
      → AllGuarded (write_changed skill path r)
  unfolding write_changed
  changed-AllGuarded path (err e) h k = tt
  changed-AllGuarded path (ok none) h k = tt
  changed-AllGuarded path (ok (some fs)) h k = text_file-AllGuarded path (skill.dump (dict fs)) h k

  fallback-AllGuarded :
      (surface : String) (written : List File)
      → AllGuarded (fallback_mutation skill surface written)
  unfolding fallback_mutation add_rule add_hint valid_mutation_path ends_with
  fallback-AllGuarded surface written =
      if-AllGuarded (surface =ₛ "domains") _ _
        (text_file-AllGuarded "domains/learned_routing.yaml" _ refl refl)
        (if-AllGuarded (surface =ₛ "semantics") _ _
          (text_file-AllGuarded "semantics/learned_terms.yaml" _ refl refl)
          (if-AllGuarded (surface =ₛ "metrics") _ _
            (text_file-AllGuarded "metrics/learned_metrics.yaml" _ refl refl)
            (if-AllGuarded (surface =ₛ "joins" || surface =ₛ "relationships") _ _
              (changed-AllGuarded "relationships/learned_rules.yaml"
                (skill.learned_rules written >>= rules_with) refl refl)
              (if-AllGuarded (surface =ₛ "templates") _ _
                (text_file-AllGuarded "templates/evolution_notes.md" _ refl refl)
                (if-AllGuarded (surface =ₛ "experience") _ _
                  (text_file-AllGuarded "experience/learned_failure_rules.yaml" _ refl refl)
                  (changed-AllGuarded "manifest.yaml" (skill.manifest written >>= manifest_with)
                    refl refl))))))

  proposed-AllGuarded :
      (surface : String) (answer : Option (Py Value)) → AllGuarded (proposed skill surface answer)
  unfolding proposed
  proposed-AllGuarded surface none = tt
  proposed-AllGuarded surface (some answer) =
      recovered-AllGuarded (llm_mutation skill surface answer) (llm-AllGuarded surface answer)

  or-AllGuarded :
      (w fallback : Writing (List String))
      → AllGuarded w
      → AllGuarded fallback
      → AllGuarded (or_fallback w fallback)
  unfolding or_fallback
  or-AllGuarded (writes, ok []) (more, r) h k = All-append writes more h k
  or-AllGuarded (writes, ok (p ∷ ps)) fallback h k = h
  or-AllGuarded (writes, err e) fallback h k = h

  three-AllGuarded : (w : Writing (List String)) → AllGuarded w → AllGuarded (at_most_three w)
  three-AllGuarded (writes, ok changed) h =
      if-AllGuarded (ltb max_mutation_files (length changed)) _ _ h h
  three-AllGuarded (writes, err e) h = h

  -- Whatever the model answers, also where the mutation stops with an exception.
  pub mutate-IsGuarded :
      (surface : String) (answer : Option (Py Value))
      → All IsGuarded (mutate skill surface answer).0
  unfolding mutate
  mutate-IsGuarded surface answer =
      let first = proposed skill surface answer in
      three-AllGuarded (or_fallback first (fallback_mutation skill surface first.0)) (
        or-AllGuarded first (fallback_mutation skill surface first.0)
          (proposed-AllGuarded surface answer) (fallback-AllGuarded surface first.0))
