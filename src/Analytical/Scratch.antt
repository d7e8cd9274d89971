-- ===== src/Analytical/Scratch.antt =====
-- sqlagent/analytical.py: AnalyticalPlanCompiler.compile_scratch, which turns the references to
-- earlier stages into the placeholders of scratch tables.
use Prim.Native.Nat.{zero}
use Prim.Native.String as Text
use Prim.Native.String.{◌++◌}
use po_c_sqlagent.Base.{
  ℕ, suc, ◌+◌, ◌-◌, String, Bool, false, not, ◌||◌, Option, none, some, List, [], ◌∷◌,
  ◌++◌ as append, ok, err, ◌>>=◌, ◌>>◌, guard, length, take, ltb, if◌then◌else◌,
}
use po_c_sqlagent.Text.{◌=ₛ◌, lower, show_nat, is_word, is_space, after_prefix, text_length}
use po_c_sqlagent.Python.{
  Value, list, dict, Fields, Py, attribute_error, key_error, get, either, to_list, show, str,
  repr_str,
}
use po_c_sqlagent.Composer.{Schema}
use po_c_sqlagent.Analytical.Terms.{plan_error, quoted}
use po_c_sqlagent.Analytical.Tables.{Stages, assign}
use po_c_sqlagent.Analytical.Plan.{checked_stage}

-- The spaces at the head of a text, and what follows them.
unfoldable pub split_spaces : String → String × String
unfolding is_space
split_spaces Text.[] = ("", "")
split_spaces (Text.◌∷◌ c s) =
    let (spaces, rest) = split_spaces s in
    if is_space c then (Text.◌∷◌ c spaces, rest) else ("", Text.◌∷◌ c s)

-- `FROM` or `JOIN` at the head: its word as written, and what follows.
unfoldable pub split_keyword : String → Option (String × String)
unfolding lower
split_keyword (Text.◌∷◌ a (Text.◌∷◌ b (Text.◌∷◌ c (Text.◌∷◌ d s)))) =
    let word = Text.◌∷◌ a (Text.◌∷◌ b (Text.◌∷◌ c (Text.◌∷◌ d ""))) in
    if lower word =ₛ "from" || lower word =ₛ "join" then some (word, s) else none
split_keyword _ = none

-- The first group of the match at the head of a text, where `reference` follows it.
unfoldable pub match_reference : String → String → Option String
unfolding split_keyword split_spaces after_prefix lower
match_reference reference s = elim (split_keyword s) [
  | none ↦ none
  | some (word, rest) ↦
      if (split_spaces rest).0 =ₛ ""
      then none
      else elim (after_prefix (lower reference) (lower (split_spaces rest).1)) [
        | none ↦ none
        | some after ↦ some (word ++ (split_spaces rest).0)
      ]
]

-- `reference.sub(…)` from the left: the number says how many characters of a match are still to be
-- dropped, the flag that a word character stands before.
rewrite_from : String → String → ℕ → Bool → String → String
unfolding match_reference is_word text_length
rewrite_from reference by skip inside Text.[] = ""
rewrite_from reference by (suc skip) inside (Text.◌∷◌ c s) =
    rewrite_from reference by skip (is_word c) s
rewrite_from reference by zero inside (Text.◌∷◌ c s) =
    elim (if inside then none else match_reference reference (Text.◌∷◌ c s)) [
      | none ↦ Text.◌∷◌ c (rewrite_from reference by 0 (is_word c) s)
      | some group ↦
          group
          ++ (by
              ++ rewrite_from reference by (text_length group + text_length reference - 1)
                  (is_word c) s)
    ]

unfoldable pub rewrite_reference : String → String → String → String
unfolding rewrite_from
rewrite_reference reference by sql = rewrite_from reference by 0 false sql

unfoldable pub placeholder : ℕ → String
unfolding show_nat
placeholder n = "{{stage_" ++ (show_nat n ++ "}}")

-- The loop over the earlier stages, numbered from one.
unfoldable pub rewrite_references : ℕ → List String → String → String
unfolding rewrite_reference quoted placeholder
rewrite_references n [] sql = sql
rewrite_references n (previous ∷ ids) sql =
    rewrite_references (n + 1) ids (rewrite_reference (quoted previous) (placeholder n) sql)

-- The loop over the stages, with the ids and the queries so far.
unfoldable pub scratch_stages :
    Schema
    → (String → String → String)
    → List Value
    → List String
    → List String
    → Stages
    → Stages
    → Py (List String × List String)
unfolding checked_stage rewrite_references assign
scratch_stages schema known [] ids queries outputs grains = ok (ids, queries)
scratch_stages schema known (dict stage ∷ vs) ids queries outputs grains = do
  (id, (sql, columns, grain)) ← checked_stage schema known (length ids + 1) stage outputs grains
  scratch_stages schema known vs (append ids (id ∷ []))
      (append queries (rewrite_references 1 ids sql ∷ [])) (assign id columns outputs)
      (assign id grain grains)
scratch_stages schema known (v ∷ vs) ids queries outputs grains = err attribute_error

-- `stage_ids[-1]`.
unfoldable pub last_name : List String → String
last_name [] = ""
last_name (x ∷ []) = x
last_name (x ∷ y ∷ ys) = last_name (y ∷ ys)

-- `names.index(x)`, where it is there.
unfoldable pub index_of : String → List String → Option ℕ
index_of x [] = none
index_of x (y ∷ ys) =
    let later = index_of x ys in
    if y =ₛ x then some 0 else elim later [ none ↦ none | some n ↦ some (suc n) ]

unfoldable pub query_at : ℕ → List String → Py String
query_at n [] = err key_error
query_at zero (q ∷ qs) = ok q
query_at (suc n) (q ∷ qs) = query_at n qs

-- The setup queries and the final one. The output cannot be the first stage.
unfoldable pub output_at : String → List String → Option ℕ → Py (List String × String)
unfolding repr_str query_at
output_at final queries none = err (plan_error ("unknown output stage " ++ repr_str final))
output_at final queries (some zero) = err (plan_error "scratch output cannot be the first stage")
output_at final queries (some (suc n)) = do
  query ← query_at (suc n) queries
  ok (take (suc n) queries, query)

unfoldable pub scratch_output : String → List String → List String → Py (List String × String)
unfolding index_of output_at
scratch_output final ids queries = output_at final queries (index_of final ids)

unfoldable pub scratch_list :
    Schema → (String → String → String) → Fields → List Value → Py (List String × String)
unfolding scratch_stages scratch_output show either get last_name
scratch_list schema known plan stages = do
  (ids, queries) ← scratch_stages schema known stages [] [] [] []
  scratch_output (show (either (get "output" plan) (str (last_name ids)))) ids queries

unfoldable pub scratch_plan :
    Schema → (String → String → String) → Fields → Value → Py (List String × String)
unfolding scratch_list to_list
scratch_plan schema known plan (list vs) = do
  guard (not (ltb (length (to_list vs)) 2)) (plan_error "scratch plan requires at least two stages")
  scratch_list schema known plan (to_list vs)
scratch_plan schema known plan _ = err (plan_error "scratch plan requires at least two stages")

unfoldable pub compile_scratch :
    Schema → (String → String → String) → Fields → Py (List String × String)
unfolding scratch_plan get
compile_scratch schema known plan = scratch_plan schema known plan (get "stages" plan)
