-- ===== src/Evolution/Surface.antt =====
-- sqlagent/evolution/graph.py: the clusters of trajectories, and the surface that they point to.
use po_c_sqlagent.Base.{
  ok, err, ◌>>=◌, ℕ, zero, suc, String, Bool, true, false, not, ◌||◌, List, [], ◌∷◌, any,
  if◌then◌else◌, none, some,
}
use po_c_sqlagent.Text.{◌=ₛ◌, member, lower, contains, contains_word, starts_with_any, before_first}
use po_c_sqlagent.Python.{
  str, either, Py, attribute_error, type_error, Value, dict, Fields, end, get, get?, truthy,
}
use po_c_sqlagent.Composer.{text_or}

abbrev pub max_mutation_files : ℕ
max_mutation_files = 3

abbrev pub allowed_write_prefixes : List String
allowed_write_prefixes =
    "domains/" ∷ "semantics/" ∷ "metrics/" ∷ "relationships/" ∷ "templates/" ∷ "experience/" ∷ []

abbrev pub allowed_write_files : List String
allowed_write_files = "manifest.yaml" ∷ "SKILL.md" ∷ []

unfoldable pub valid_mutation_path : String → Bool
unfolding member starts_with_any
valid_mutation_path path =
    member path allowed_write_files || starts_with_any allowed_write_prefixes path

unfoldable pub surface_for_path : String → String
unfolding member before_first
surface_for_path path = if member path allowed_write_files then "router" else before_first "/" path

-- `v or {}`, before a `.get`: a value that is true and no mapping has none.
unfoldable pub mapping_of : Value → Py Fields
unfolding truthy
mapping_of (dict fs) = ok fs
mapping_of v = if truthy v then err attribute_error else ok end

-- `{"kind": …, "count": …}` for each of the three kinds.
pub record Clusters : Type 0 where
  pub join_fanout : ℕ
  pub failed : ℕ
  pub slow : ℕ

unfoldable pub passed : Value → Py Bool
unfolding mapping_of get? truthy
passed invariants = do
  fs ← mapping_of invariants
  ok (elim (get? "passed" fs) [ none ↦ true | some v ↦ truthy v ])

unfoldable pub is_failed : Fields → Py Bool
unfolding truthy get passed
is_failed item =
    if truthy (get "error" item)
    then ok true
    else (passed (get "invariants" item) >>= λ b. ok (not b))

-- The pattern of the dangerous tables, whose names are words, without regard to case.
unfoldable pub search : List String → Value → Py Bool
unfolding any contains_word lower
search dangerous (str sql) = ok (any (λ t. contains_word (lower t) (lower sql)) dangerous)
search dangerous v = err type_error

-- Without dangerous tables there is no pattern.
unfoldable pub is_fanout : List String → Fields → Py Bool
unfolding search either get
is_fanout [] item = ok false
is_fanout (t ∷ ts) item = search (t ∷ ts) (either (get "sql" item) (str ""))

-- `is_slow v` is `float(v or 0) > 500`, with its exceptions.
unfoldable pub took_long : (Value → Py Bool) → Fields → Py Bool
unfolding mapping_of get
took_long is_slow item = do
  result ← mapping_of (get "result" item)
  is_slow (get "elapsed_ms" result)

unfoldable pub count_if : (Fields → Py Bool) → List Fields → Py ℕ
count_if p [] = ok 0
count_if p (t ∷ ts) = do b ← p t; n ← count_if p ts; ok (if b then suc n else n)

unfoldable pub cluster : (Value → Py Bool) → List String → List Fields → Py Clusters
unfolding count_if is_fanout is_failed took_long
cluster is_slow dangerous trajectories = do
  failed ← count_if is_failed trajectories
  fanout ← count_if (is_fanout dangerous) trajectories
  slow ← count_if (took_long is_slow) trajectories
  ok (record { join_fanout = fanout; failed = failed; slow = slow })

-- `(state.get("trajectories") or [{}])[-1]`.
unfoldable pub latest : List Fields → Fields
latest [] = end
latest (t ∷ []) = t
latest (t ∷ u ∷ ts) = latest (u ∷ ts)

abbrev pub is_some : ℕ → Bool
is_some zero = false
is_some (suc n) = true

-- The surface to change, with the reason.
unfoldable pub surface_by : Clusters → (error_type message : String) → String × String
unfolding contains
surface_by clusters error_type message =
    if error_type =ₛ "schema_selection_failed" || contains "schema selection" message
    then ("domains", "schema routing omitted a required table")
    else if contains "metric" message || contains "measure" message
    then ("metrics", "metric definition or grain was missing")
    else if contains "semantic" message
    then ("semantics", "business terminology was not grounded")
    else if is_some clusters.join_fanout
    then ("relationships", "trajectory references a known one-to-many relation")
    else if is_some clusters.failed
    then ("experience", "failed trajectory needs a reusable correction")
    else if is_some clusters.slow
    then ("templates", "slow trajectory needs a query-shape improvement")
    else ("router", "no failures; add a routing hint for the next batch")

-- `str((latest.get("error_info") or {}).get("type") or "")`.
unfoldable pub error_type_of : Fields → Py String
unfolding mapping_of text_or get
error_type_of item = do info ← mapping_of (get "error_info" item); ok (text_or "type" "" info)

unfoldable pub attribute : Clusters → List Fields → Py (String × String)
unfolding latest error_type_of surface_by text_or lower
attribute clusters trajectories = do
  error_type ← error_type_of (latest trajectories)
  ok (surface_by clusters error_type (lower (text_or "error" "" (latest trajectories))))
