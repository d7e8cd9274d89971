-- ===== src/Evolution/Bounded.antt =====
-- sqlagent/evolution/graph.py: how many files a mutation reports, and on which surface.
use text.Mathlib.TextEquality.{eq_iff}
use po_c_sqlagent.Base.{
  ◌≤◌, String, Bool, true, false, not, ◌&&◌, ◌||◌, ◌≡◌, refl, sym, inl, inr, Option, none, some,
  List, [], ◌∷◌, All, In, ok, err, >>=-eq-ok, ◌>>=◌, guard-eq-ok, ok-injective, subst, arith,
  Bool-cases, if◌then◌else◌, ltb, length,
}
use po_c_sqlagent.Text.{◌=ₛ◌, member}
use po_c_sqlagent.Python.{
  Value, dict, list, nil, null, bool, int, float, str, Fields, Py, get, either, iterate,
  value_error, llm_unavailable, key_error, type_error, overflow_error, attribute_error,
  runtime_error, timeout_error,
}
use po_c_sqlagent.Composer.{text_or}
use po_c_sqlagent.Workspace.{safe_path}
use po_c_sqlagent.Evolution.Surface.{valid_mutation_path, surface_for_path, max_mutation_files}
use po_c_sqlagent.Evolution.Mutation.{
  File, Writing, Skill, expected_surface, file_text, checked_file, checked_item, go_on, write_files,
  canonical_manifest, rewritten, write_at, text_file, and_then, counted, llm_mutation,
  write_changed, add_rule, add_hint, rules_with, manifest_with, fallback_mutation,
}
use po_c_sqlagent.Evolution.Evolve.{recovered, proposed, at_most_three, or_fallback, mutate}

-- The surfaces that attribute points to.
abbrev pub surfaces : List String
surfaces =
    "domains" ∷ "metrics" ∷ "semantics" ∷ "relationships" ∷ "experience" ∷ "templates" ∷ "router"
    ∷ []

-- An allowed path of the surface.
abbrev pub OnSurface : String → String → Type 0
OnSurface surface path = (valid_mutation_path path ≡ true) × (surface_for_path path ≡ surface)

abbrev pub Reports : (List String → Type 0) → Writing (List String) → Type 0
Reports P (writes, ok changed) = P changed
Reports P (writes, err e) = Unit

module _ (skill : Skill) (surface : String) (direct : expected_surface surface ≡ surface) where
  abbrev Here : List String → Type 0
  Here changed = All (OnSurface surface) changed

  file-OnSurface :
      (item : Fields) (file : File)
      → checked_file skill surface item ≡ ok file
      → OnSurface surface file.0
  unfolding checked_file
  file-OnSurface item file h =
      let path = text_or "path" "" item in
      let content = text_or "content" "" item in
      let (allowed, h₁) = guard-eq-ok (valid_mutation_path path && not (content =ₛ "")) _ _ h in
      let (here, h₂) = guard-eq-ok (surface_for_path path =ₛ expected_surface surface) _ _ h₁ in
      let (text, e₃, h₃) = >>=-eq-ok (file_text skill path content) _ h₂ in
      let (place, e₄, h₄) = >>=-eq-ok (safe_path skill.links skill.root path) _ h₃ in
      let same : surface_for_path path ≡ expected_surface surface = (eq_iff _ _).0 here in
      subst (λ (f : File). OnSurface surface f.0) (ok-injective h₄)
        (ground arith, subst (λ t. surface_for_path path ≡ t) direct same)

  item-OnSurface :
      (v : Value) (file : File) → checked_item skill surface v ≡ ok file → OnSurface surface file.0
  unfolding checked_item
  item-OnSurface (dict item) file h = file-OnSurface item file h
  item-OnSurface _ file h = absurd (cc h)

  go_on-Reports :
      (r : Py File) (rest : Writing (List String))
      → ((file : File) → r ≡ ok file → OnSurface surface file.0)
      → Reports Here rest
      → Reports Here (go_on skill r rest)
  go_on-Reports (err e) rest h k = tt
  go_on-Reports (ok file) (writes, ok changed) h k = (h file refl, k)
  go_on-Reports (ok file) (writes, err e) h k = tt

  write_files-Reports : (vs : List Value) → Reports Here (write_files skill surface vs)
  unfolding write_files
  write_files-Reports [] = tt
  write_files-Reports (v ∷ vs) =
      go_on-Reports (checked_item skill surface v) (write_files skill surface vs) (item-OnSurface v)
        (write_files-Reports vs)

  abbrev if-Reports :
      (P : List String → Type 0) (b : Bool) (v w : Writing (List String))
      → Reports P v
      → Reports P w
      → Reports P (if b then v else w)
  if-Reports P true v w h k = h
  if-Reports P false v w h k = k

  and_then-Reports :
      (P : List String → Type 0) (writes : List File) (changed : List String)
      (w : Writing (List String))
      → P changed
      → Reports P (and_then skill writes changed w)
  and_then-Reports P writes changed (more, ok paths) h = h
  and_then-Reports P writes changed (more, err e) h = tt

  rewritten-Reports :
      (P : List String → Type 0) (writes : List File) (changed : List String) (r : Py Fields)
      → P changed
      → Reports P (rewritten skill writes changed r)
  rewritten-Reports P writes changed (err e) h = tt
  rewritten-Reports P writes changed (ok fs) h =
      and_then-Reports P writes changed (text_file skill "manifest.yaml" (skill.dump (dict fs))) h

  canonical-Reports :
      (P : List String → Type 0) (w : Writing (List String))
      → Reports P w
      → Reports P (canonical_manifest skill w)
  canonical-Reports P (writes, ok changed) h =
      if-Reports P (member "manifest.yaml" changed) _ _
        (rewritten-Reports P writes changed (skill.manifest writes) h) h
  canonical-Reports P (writes, err e) h = tt

  counted-Reports : (r : Py (List Value)) → Reports Here (counted skill surface r)
  unfolding counted
  counted-Reports (err e) = tt
  counted-Reports (ok []) = tt
  counted-Reports (ok (v ∷ vs)) =
      if-Reports Here (ltb max_mutation_files (length (v ∷ vs))) _ _ tt
        (canonical-Reports Here (write_files skill surface (v ∷ vs)) (write_files-Reports (v ∷ vs)))

  llm-Reports : (answer : Py Value) → Reports Here (llm_mutation skill surface answer)
  unfolding llm_mutation
  llm-Reports (err e) = tt
  llm-Reports (ok (dict answer)) =
      counted-Reports (iterate (either (get "files" answer) (list nil)))
  llm-Reports (ok null) = tt
  llm-Reports (ok (bool b)) = tt
  llm-Reports (ok (int n)) = tt
  llm-Reports (ok (float f)) = tt
  llm-Reports (ok (str s)) = tt
  llm-Reports (ok (list vs)) = tt

  recovered-Reports : (w : Writing (List String)) → Reports Here w → Reports Here (recovered w)
  unfolding recovered
  recovered-Reports (writes, ok changed) h = h
  recovered-Reports (writes, err (value_error m)) h = tt
  recovered-Reports (writes, err (llm_unavailable m)) h = tt
  recovered-Reports (writes, err key_error) h = tt
  recovered-Reports (writes, err type_error) h = tt
  recovered-Reports (writes, err (runtime_error m)) h = tt
  recovered-Reports (writes, err (timeout_error m)) h = tt
  recovered-Reports (writes, err overflow_error) h = tt
  recovered-Reports (writes, err attribute_error) h = tt

  proposed-Reports : (answer : Option (Py Value)) → Reports Here (proposed skill surface answer)
  unfolding proposed
  proposed-Reports none = tt
  proposed-Reports (some answer) =
      recovered-Reports (llm_mutation skill surface answer) (llm-Reports answer)

  or-Reports :
      (w fallback : Writing (List String))
      → Reports Here w
      → Reports Here fallback
      → Reports Here (or_fallback w fallback)
  unfolding or_fallback
  or-Reports (writes, ok []) (more, ok changed) h k = k
  or-Reports (writes, ok []) (more, err e) h k = tt
  or-Reports (writes, ok (p ∷ ps)) fallback h k = h
  or-Reports (writes, err e) fallback h k = tt

  abbrev when-Reports :
      (b : Bool) (v w : Writing (List String))
      → (b ≡ true → Reports Here v)
      → (b ≡ false → Reports Here w)
      → Reports Here (if b then v else w)
  when-Reports true v w h k = h refl
  when-Reports false v w h k = k refl

  write_at-Reports :
      (path text : String) (r : Py (List String))
      → OnSurface surface path
      → Reports Here (write_at skill path text r)
  write_at-Reports path text (ok place) h = (h, tt)
  write_at-Reports path text (err e) h = tt

  text_file-Reports :
      (path text : String) → OnSurface surface path → Reports Here (text_file skill path text)
  unfolding text_file
  text_file-Reports path text h =
      write_at-Reports path text (safe_path skill.links skill.root path) h

  changed-Reports :
      (path : String) (r : Py (Option Fields))
      → OnSurface surface path
      → Reports Here (write_changed skill path r)
  unfolding write_changed
  changed-Reports path (err e) h = tt
  changed-Reports path (ok none) h = tt
  changed-Reports path (ok (some fs)) h = text_file-Reports path (skill.dump (dict fs)) h

  named : (t : String) → (surface =ₛ t) ≡ true → t ≡ surface
  named t e = sym ((eq_iff surface t).0 e)

  relations : (surface =ₛ "joins" || surface =ₛ "relationships") ≡ true → "relationships" ≡ surface
  unfolding expected_surface
  relations e = elim (Bool-cases (surface =ₛ "joins")) [
    | inl joins ↦ rw joins at direct
    | inr other ↦ named "relationships" (rw other at e)
  ]

  unnamed : (t : String) → (surface =ₛ t) ≡ false → t ≡ surface → ⊥
  unnamed t n e = cc (n, (eq_iff surface t).1 (sym e))

  fallback-Reports :
      (written : List File)
      → In surface surfaces
      → Reports Here (fallback_mutation skill surface written)
  unfolding fallback_mutation add_rule add_hint valid_mutation_path surface_for_path
  fallback-Reports written known =
      when-Reports (surface =ₛ "domains") _ _
        (λ e. text_file-Reports "domains/learned_routing.yaml" _ (refl, named "domains" e))
        λ n₁.
          when-Reports (surface =ₛ "semantics") _ _
            (λ e. text_file-Reports "semantics/learned_terms.yaml" _ (refl, named "semantics" e))
            λ n₂.
              when-Reports (surface =ₛ "metrics") _ _
                (λ e. text_file-Reports "metrics/learned_metrics.yaml" _ (refl, named "metrics" e))
                λ n₃.
                  when-Reports (surface =ₛ "joins" || surface =ₛ "relationships") _ _
                    (λ e.
                      changed-Reports "relationships/learned_rules.yaml"
                        (skill.learned_rules written >>= rules_with) (refl, relations e))
                    λ n₄.
                      when-Reports (surface =ₛ "templates") _ _
                        (λ e.
                          text_file-Reports "templates/evolution_notes.md" _
                            (refl, named "templates" e))
                        λ n₅.
                          when-Reports (surface =ₛ "experience") _ _
                            (λ e.
                              text_file-Reports "experience/learned_failure_rules.yaml" _
                                (refl, named "experience" e))
                            λ n₆.
                              changed-Reports "manifest.yaml"
                                (skill.manifest written >>= manifest_with)
                                (
                                  refl,
                                  elim known [
                                    | inl e ↦ absurd (unnamed "domains" n₁ e)
                                    | inr (inl e) ↦ absurd (unnamed "metrics" n₃ e)
                                    | inr (inr (inl e)) ↦ absurd (unnamed "semantics" n₂ e)
                                    | inr (inr (inr (inl e))) ↦
                                        absurd (unnamed "relationships" (ground (arith, n₄)) e)
                                    | inr (inr (inr (inr (inl e)))) ↦
                                        absurd (unnamed "experience" n₆ e)
                                    | inr (inr (inr (inr (inr (inl e))))) ↦
                                        absurd (unnamed "templates" n₅ e)
                                    | inr (inr (inr (inr (inr (inr (inl e)))))) ↦ e
                                    | inr (inr (inr (inr (inr (inr (inr m)))))) ↦ elim m [ ]
                                  ],
                                )

  abbrev pub Short : List String → Type 0
  Short changed = (length changed ≤ max_mutation_files) × All (OnSurface surface) changed

  three-Reports : (w : Writing (List String)) → Reports Here w → Reports Short (at_most_three w)
  three-Reports (writes, err e) h = tt
  three-Reports (writes, ok changed) h =
      elim (Bool-cases (ltb max_mutation_files (length changed))) [
        | inl many ↦ rw many tt
        | inr few ↦ rw few (ground arith, h)
      ]

  pub mutate-Reports :
      (answer : Option (Py Value))
      → In surface surfaces
      → Reports Short (mutate skill surface answer)
  unfolding mutate
  mutate-Reports answer known =
      let first = proposed skill surface answer in
      three-Reports (or_fallback first (fallback_mutation skill surface first.0)) (
        or-Reports first (fallback_mutation skill surface first.0) (proposed-Reports answer)
          (fallback-Reports first.0 known))
