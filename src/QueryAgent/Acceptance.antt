-- ===== src/QueryAgent/Acceptance.antt =====
-- sqlagent/query_agent/graph.py: what the answer of a run has gone through at the critic.
use po_c_sqlagent.Base.{
  ◌⊎◌, ap, ok-injective, String, Bool, true, false, not, ◌||◌, ◌≡◌, refl, Option, none, some, List,
  ok, err, ◌>>=◌, Bool-cases, inl, inr, if◌then◌else◌, subst, some-injective,
}
use po_c_sqlagent.Text.{◌=ₛ◌}
use po_c_sqlagent.Python.{Value, dict, Fields, Py, get?, truthy, llm_unavailable}
use po_c_sqlagent.Database.{append_not_empty}
use po_c_sqlagent.QueryAgent.Question.{
  Ambiguity, detect_ambiguity, clarification_prompt, metadata_drift,
}
use po_c_sqlagent.QueryAgent.State.{State, Services, Optimized, criticise}
use po_c_sqlagent.QueryAgent.Nodes.{
  has_error, telemetry, planner, invariants, review, judged, with_verdict, verdict, critic,
  optimised, optimizer,
}
use po_c_sqlagent.QueryAgent.Repair.{text_of}
use po_c_sqlagent.QueryAgent.Response.{status}
use po_c_sqlagent.QueryAgent.Graph.{
  Node, at_router, at_loader, at_telemetry, at_planner, at_sql_generator, at_validator,
  at_explain_gate, at_react_repair, at_execute, at_invariant_check, at_critic, at_optimizer,
  at_persist, run_node, next_node,
}
use po_c_sqlagent.QueryAgent.Blame.{Blames, repair-Blames}
use po_c_sqlagent.QueryAgent.Safety.{Reached, begun, moved}

-- What holds of the state that a node returns, if it returns.
abbrev Leaves : (State → Type 0) → Py State → Type 0
Leaves P (ok s) = P s
Leaves P (err e) = Unit

Leaves-bind :
    {A : Type 0} (P : State → Type 0) (m : Py A) (f : A → Py State)
    → ((a : A) → Leaves P (f a))
    → Leaves P (m >>= f)
Leaves-bind P (ok a) f h = h a
Leaves-bind P (err e) f h = tt

prompt-asks : (a : Ambiguity) → (clarification_prompt a =ₛ "") ≡ false
unfolding clarification_prompt
prompt-asks a = append_not_empty "У" "точните, какую метрику посчитать: " _

choice_asks :
    (b : Bool) (p : String) → (p =ₛ "") ≡ false → b ≡ true → ((if b then p else "") =ₛ "") ≡ false
choice_asks true p full h = full
choice_asks false p full h = absurd (cc h)

choice_clean :
    (clear failed : Bool)
    → ◌≡◌ {A = String}
        (if not clear then "clarified" else if failed then "pipeline_failed" else "answered")
        "answered"
    → (failed ≡ false) × (clear ≡ true)
choice_clean true true h = absurd (cc h)
choice_clean true false h = (refl, refl)
choice_clean false failed h = absurd (cc h)

module _ (sv : Services) where
  -- No model could judge a state, or its own verdict accepts it: an answer that does not say
  -- "answered", or says it of a true value.
  abbrev pub Passes : State → Type 0
  Passes s =
      (sv.has_llm ≡ false)
      ⊎ ((m : String) × (sv.chat_json criticise s ≡ err (llm_unavailable m)))
      ⊎ ((answer : Fields) × (sv.chat_json criticise s ≡ ok (dict answer))
          × ((get? "answered" answer ≡ none)
              ⊎ ((v : Value) × (get? "answered" answer ≡ some v) × (truthy v ≡ true))))

  -- What the critic has judged is a state without an error, whose query reads no catalog metadata
  -- unless the question asks for it, and that passes; the state differs from it by the verdict only.
  pub record IsJudged (question : String) (s : State) : Type 0 where
    pub seen : State
    pub reached : Reached sv question at_critic seen
    pub clean : has_error seen ≡ false
    pub on_topic : metadata_drift seen.question (text_of seen.sql) ≡ false
    pub passes : Passes seen
    pub feedback : String
    pub judged_is : s ≡ record seen { critic = verdict sv true feedback }

  -- The state is a judged one, or what the optimizer makes of one: its query, plan and result are the
  -- judged ones or those that the optimizer returned.
  abbrev pub IsAccepted : String → State → Type 0
  IsAccepted question s =
      (before : State) × IsJudged question before
      × ((s ≡ before)
          ⊎ ((o : List Value × Option Optimized) × (sv.optimize before ≡ ok o)
              × (s ≡ optimised sv before o)))

  abbrev Asks : State → Type 0
  Asks s = s.clarification_requested ≡ true → (s.clarification =ₛ "") ≡ false

  abbrev Concluded : String → State → Type 0
  Concluded question s =
      has_error s ≡ false → (s.clarification =ₛ "") ≡ true → IsAccepted question s

  abbrev Fit : String → Node → State → Type 0
  Fit question at_planner s = Asks s
  Fit question at_invariant_check s = has_error s ≡ false
  Fit question at_critic s = has_error s ≡ false
  Fit question at_optimizer s = IsJudged question s
  Fit question at_persist s = Concluded question s
  Fit question _ s = Unit

  telemetry-Leaves : (s : State) → Leaves Asks (telemetry sv s)
  unfolding telemetry detect_ambiguity clarification_prompt
  telemetry-Leaves s = Leaves-bind Asks sv.known_metrics _ (λ metrics requested.
      let a = detect_ambiguity s.question metrics in
      choice_asks a.is_ambiguous (clarification_prompt a) (prompt-asks a) requested)

  invariants-Leaves :
      (s : State) → has_error s ≡ false → Leaves (λ s'. has_error s' ≡ false) (invariants sv s)
  unfolding invariants
  invariants-Leaves s good =
      rw good
        (Leaves-bind (λ s'. has_error s' ≡ false) (sv.check_invariants s.result) _ (λ v. good))

  answered_true :
      (found : Option Value)
      → elim found [ none ↦ true | some v ↦ truthy v ] ≡ true
      → (found ≡ none) ⊎ ((v : Value) × (found ≡ some v) × (truthy v ≡ true))
  answered_true none h = inl refl
  answered_true (some v) h = inr (v, refl, h)

  judged-Passes :
      (s : State) (r : Py Value) (feedback : String)
      → sv.chat_json criticise s ≡ r
      → judged sv r ≡ ok (true, feedback)
      → Passes s
  unfolding judged
  judged-Passes s (ok (dict answer)) feedback e h = inr (
      inr (
        answer,
        e,
        answered_true (get? "answered" answer) (ap (λ (p : Bool × String). p.0) (ok-injective h)),
      ))
  judged-Passes s (ok _) feedback e h = absurd (cc h)
  judged-Passes s (err (llm_unavailable m)) feedback e h = inr (inl (m, e))
  judged-Passes s (err _) feedback e h = absurd (cc h)

  review-Passes :
      (s : State) (feedback : String)
      → review sv s ≡ ok (true, feedback)
      → (metadata_drift s.question (text_of s.sql) ≡ false) × Passes s
  unfolding review
  review-Passes s feedback h = elim (Bool-cases (metadata_drift s.question (text_of s.sql))) [
    | inl drifts ↦ absurd (cc (rw drifts at h))
    | inr stays ↦ elim (Bool-cases sv.has_llm) [
      | inl asks ↦
          (stays, judged-Passes s (sv.chat_json criticise s) feedback refl (rw (stays, asks) at h))
      | inr alone ↦ (stays, inl alone)
    ]
  ]

  verdict-Leaves :
      (question : String) (s : State) (v : Bool × String)
      → Reached sv question at_critic s
      → has_error s ≡ false
      → review sv s ≡ ok v
      → Leaves (λ s'. s'.critic_rejected ≡ false → IsJudged question s') (ok (with_verdict sv s v))
  unfolding with_verdict
  verdict-Leaves question s (true, feedback) r good e kept =
      let (stays, passes) = review-Passes s feedback e in
      record {
        seen = s;
        reached = r;
        clean = good;
        on_topic = stays;
        passes = passes;
        feedback = feedback;
        judged_is = refl;
      }
  verdict-Leaves question s (false, feedback) r good e kept = absurd (cc kept)

  reviewed-Leaves :
      (question : String) (s : State) (m : Py (Bool × String))
      → Reached sv question at_critic s
      → has_error s ≡ false
      → review sv s ≡ m
      → Leaves
          (λ s'. s'.critic_rejected ≡ false → IsJudged question s')
          (m >>= λ v. ok (with_verdict sv s v))
  reviewed-Leaves question s (ok v) r good e = verdict-Leaves question s v r good e
  reviewed-Leaves question s (err x) r good e = tt

  critic-Leaves :
      (question : String) (s : State)
      → Reached sv question at_critic s
      → has_error s ≡ false
      → Leaves (λ s'. s'.critic_rejected ≡ false → IsJudged question s') (critic sv s)
  unfolding critic
  critic-Leaves question s r good = rw good (reviewed-Leaves question s (review sv s) r good refl)

  optimize-Leaves :
      (question : String) (s : State) (m : Py (List Value × Option Optimized))
      → IsJudged question s
      → sv.optimize s ≡ m
      → Leaves (IsAccepted question) (m >>= λ o. ok (optimised sv s o))
  optimize-Leaves question s (ok o) a e = (s, a, inr (o, e, refl))
  optimize-Leaves question s (err x) a e = tt

  optimizer-Leaves :
      (question : String) (s : State)
      → IsJudged question s
      → Leaves (IsAccepted question) (optimizer sv s)
  unfolding optimizer
  optimizer-Leaves question s a =
      elim (Bool-cases (has_error s || (s.critic_rejected || not sv.has_llm))) [
        | inl skips ↦ rw skips (s, a, inl refl)
        | inr runs ↦ rw runs (optimize-Leaves question s (sv.optimize s) a refl)
      ]

  Fit-choice :
      (question : String) (b : Bool) (x y : Node) (s : State)
      → (b ≡ true → Fit question x s)
      → (b ≡ false → Fit question y s)
      → Fit question (if b then x else y) s
  Fit-choice question true x y s hx hy = hx refl
  Fit-choice question false x y s hx hy = hy refl

  blamed-Concluded : (question : String) (s : State) → has_error s ≡ true → Concluded question s
  blamed-Concluded question s bad good asked = absurd (cc (bad, good))

  next-Fit :
      (question : String) (n : Node) (s s' : State)
      → Reached sv question n s
      → Fit question n s
      → run_node sv n s ≡ ok s'
      → (m : Node) → next_node n s' ≡ some m
      → Fit question m s'
  unfolding run_node next_node planner
  next-Fit question at_router s s' r g e m e' =
      subst (λ m. Fit question m s') (some-injective e') tt
  next-Fit question at_loader s s' r g e m e' =
      subst (λ m. Fit question m s') (some-injective e') tt
  next-Fit question at_telemetry s s' r g e m e' =
      subst (λ m. Fit question m s') (some-injective e')
        (subst (Leaves Asks) e (telemetry-Leaves s))
  next-Fit question at_planner s s' r g e m e' =
      subst (λ m. Fit question m s') (some-injective e')
        (Fit-choice question s'.clarification_requested at_persist at_sql_generator s'
          (λ requested good asked. absurd (cc ((subst (Leaves Asks) e g) requested, asked)))
          (λ h. tt))
  next-Fit question at_sql_generator s s' r g e m e' =
      subst (λ m. Fit question m s') (some-injective e') tt
  next-Fit question at_validator s s' r g e m e' =
      subst (λ m. Fit question m s') (some-injective e')
        (Fit-choice question (has_error s') at_react_repair at_explain_gate s' (λ h. tt) (λ h. tt))
  next-Fit question at_explain_gate s s' r g e m e' =
      subst (λ m. Fit question m s') (some-injective e')
        (Fit-choice question (has_error s') at_react_repair at_execute s' (λ h. tt) (λ h. tt))
  next-Fit question at_react_repair s s' r g e m e' =
      subst (λ m. Fit question m s') (some-injective e')
        (Fit-choice question s'.react_repair_ready at_validator _ s' (λ h. tt)
          (λ waits.
            Fit-choice question s'.react_retry at_react_repair at_persist s' (λ h. tt)
              (λ h. blamed-Concluded question s' ((subst Blames e (repair-Blames sv s)) waits))))
  next-Fit question at_execute s s' r g e m e' =
      subst (λ m. Fit question m s') (some-injective e')
        (Fit-choice question (has_error s') at_react_repair at_invariant_check s' (λ h. tt)
          (λ good. good))
  next-Fit question at_invariant_check s s' r g e m e' =
      subst (λ m. Fit question m s') (some-injective e')
        (subst (Leaves (λ x. has_error x ≡ false)) e (invariants-Leaves s g))
  next-Fit question at_critic s s' r g e m e' =
      subst (λ m. Fit question m s') (some-injective e')
        (Fit-choice question s'.critic_rejected at_react_repair at_optimizer s' (λ h. tt)
          (subst (Leaves (λ x. x.critic_rejected ≡ false → IsJudged question x)) e
            (critic-Leaves question s r g)))
  next-Fit question at_optimizer s s' r g e m e' =
      subst (λ m. Fit question m s') (some-injective e')
        (λ good asked. subst (Leaves (IsAccepted question)) e (optimizer-Leaves question s g))
  next-Fit question at_persist s s' r g e m e' = absurd (cc e')

  Reached-Fit :
      (question : String) (n : Node) (s : State) → Reached sv question n s → Fit question n s
  Reached-Fit question n s begun = tt
  Reached-Fit question m s' (moved {n = n} {s = s} r e e') =
      next-Fit question n s s' r (Reached-Fit question n s r) e m e'

  answered-clean :
      (s : State) → status s ≡ "answered" → (has_error s ≡ false) × ((s.clarification =ₛ "") ≡ true)
  unfolding status
  answered-clean s h = choice_clean (s.clarification =ₛ "") (has_error s) h

  -- Where a run comes to its last node with a state whose status is "answered": the run has come to
  -- the critic with a state without an error, whose query reads no catalog metadata unless the question
  -- asks for it, and that the model has accepted or no model could judge. The last state is that one
  -- with the verdict noted, or what the optimizer has made of it: its query and its result are those
  -- that were judged, or those that the optimizer returned for them.
  pub answered-IsAccepted :
      (question : String) (s : State)
      → Reached sv question at_persist s
      → status s ≡ "answered"
      → IsAccepted question s
  answered-IsAccepted question s r h =
      let (good, asked) = answered-clean s h in Reached-Fit question at_persist s r good asked
