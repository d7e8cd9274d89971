-- ===== src/QueryAgent/Blame.antt =====
-- sqlagent/query_agent/graph.py: the error that a repair leaves behind.
use po_c_sqlagent.Base.{
  String, Bool, true, false, not, ◌||◌, ◌≡◌, Option, none, some, List, ok, err, ◌>>=◌, ltb,
  Bool-cases, inl, inr, if◌then◌else◌,
}
use po_c_sqlagent.Text.{◌=ₛ◌}
use po_c_sqlagent.Python.{Value, Fields, Error, Py, value_error, str}
use po_c_sqlagent.Database.{append_not_empty}
use po_c_sqlagent.QueryAgent.State.{State, Services, repair_plan, repair_sql}
use po_c_sqlagent.QueryAgent.Nodes.{has_error}
use po_c_sqlagent.QueryAgent.Repair.{
  compile_model_plan, scratch_model_plan, with_scratch, stopped, retried, repaired, is_caught,
  caught, catching, plan_of, accepted, acted, plan_compiled, repair_by_plan, answered_sql,
  sql_answered, repair_by_sql, try_repair, observed, react_repair, text_of, iterate_or_none,
}

abbrev pub Blames : Py State → Type 0
Blames (ok s) = s.react_repair_ready ≡ false → has_error s ≡ true
Blames (err e) = Unit

Blames-bind :
    {A : Type 0} (m : Py A) (f : A → Py State) → ((a : A) → Blames (f a)) → Blames (m >>= f)
Blames-bind (ok a) f h = h a
Blames-bind (err e) f h = tt

Blames-choice : (b : Bool) (x y : Py State) → Blames x → Blames y → Blames (if b then x else y)
Blames-choice true x y hx hy = hx
Blames-choice false x y hx hy = hy

module _ (sv : Services) where
  caught-Blames : (error : String) (s : State) (e : Error) → Blames (caught sv error s e)
  unfolding caught
  caught-Blames error s e = elim (Bool-cases (is_caught sv e)) [
    | inl hit ↦ rw hit (λ waits. cc (append_not_empty "R" "eAct repair failed: " _))
    | inr miss ↦ rw miss tt
  ]

  catching-Blames :
      (error : String) (s : State) (r : Py State) → Blames r → Blames (catching sv error s r)
  unfolding catching
  catching-Blames error s (ok s') h = h
  catching-Blames error s (err x) h = caught-Blames error s x

  accepted-Blames :
      (sql : String) (fixed : Fields) (s : State) (o : Option (List String × String))
      → Blames (ok (with_scratch sv o (accepted sv sql fixed s)))
  unfolding with_scratch accepted repaired
  accepted-Blames sql fixed s none waits = absurd (cc waits)
  accepted-Blames sql fixed s (some (stages, final)) waits = absurd (cc waits)

  compiled-Blames :
      (error : String) (s : State) (fixed : Fields) (r : Py String)
      → Blames (plan_compiled sv error s fixed r)
  unfolding plan_compiled retried
  compiled-Blames error s fixed (ok sql) =
      let s' = acted sv "repair_plan" sql (str "schema-guided plan correction") s in
      catching-Blames error s' _
        (Blames-bind (scratch_model_plan sv fixed) _ (λ o. accepted-Blames sql fixed s' o))
  compiled-Blames error s fixed (err (value_error m)) =
      λ waits. cc (append_not_empty "r" "epaired plan still does not assemble: " m)
  compiled-Blames error s fixed (err e) = tt

  by_plan-Blames :
      (error : String) (spec : Fields) (s : State) → Blames (repair_by_plan sv error spec s)
  unfolding repair_by_plan retried
  by_plan-Blames error spec s = Blames-bind (iterate_or_none "joins" spec) _ (λ joins.
      Blames-bind (iterate_or_none "group_by" spec) _ (λ dims.
        Blames-bind (sv.chat_json repair_plan s) _ (λ answer.
          Blames-bind (plan_of sv answer) _ (λ fixed.
            Blames-choice (sv.same_plan fixed spec) _ _
              (λ waits. cc (
                append_not_empty "p"
                  "revious repair returned an unchanged query plan; change it to fix: " error))
              (compiled-Blames error s fixed (compile_model_plan sv fixed))))))

  sql_answered-Blames :
      (error : String) (s : State) (a : String × Value) → Blames (ok (sql_answered sv error s a))
  unfolding sql_answered repaired retried
  sql_answered-Blames error s (sql, rationale) =
      elim (Bool-cases (sql =ₛ "" || sql =ₛ text_of s.sql)) [
        | inl unchanged ↦ rw unchanged (λ waits. cc (
            append_not_empty "p"
              "revious repair returned unchanged SQL; propose a materially different query that fixes: "
              error))
        | inr changed ↦ rw changed (λ waits. absurd (cc waits))
      ]

  try_repair-Blames :
      (error : String) (s : State) (o : Option Fields) → Blames (try_repair sv error s o)
  unfolding try_repair repair_by_sql
  try_repair-Blames error s none =
      Blames-bind (sv.chat_json repair_sql s) _
        (λ answer. Blames-bind (answered_sql sv answer) _ (λ a. sql_answered-Blames error s a))
  try_repair-Blames error s (some spec) = by_plan-Blames error spec s

  pub repair-Blames : (s : State) → Blames (react_repair sv s)
  unfolding react_repair stopped
  repair-Blames s =
      let error = if s.error =ₛ "" then "unknown database error" else s.error in
      let s' = observed sv error s in
      Blames-choice (ltb sv.max_attempts s'.react_attempts) _ _
        (λ waits. cc (append_not_empty "R" "eAct repair budget exhausted after " _))
        (Blames-choice (not sv.has_llm) _ _
          (λ waits. cc (append_not_empty "C" "annot repair SQL without an LLM: " error))
          (catching-Blames error s' _ (try_repair-Blames error s' s.spec)))
