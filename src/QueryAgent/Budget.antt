-- ===== src/QueryAgent/Budget.antt =====
-- Each run of the graph ends within the recursion limit that the code sets.
use po_c_sqlagent.Base.{
  ℕ, zero, suc, ◌+◌, ◌-◌, ◌*◌, ◌≤◌, ◌<◌, String, Bool, true, false, ◌≡◌, refl, ◌⊎◌, inl, inr,
  Option, none, some, arith, ok, err, Bool-cases, ap, ltb, ltb→lt, if◌then◌else◌, sym, subst,
}
use po_c_sqlagent.Python.{Py}
use po_c_sqlagent.QueryAgent.State.{State, Services}
use po_c_sqlagent.QueryAgent.Nodes.{has_error}
use po_c_sqlagent.QueryAgent.Repair.{react_repair}
use po_c_sqlagent.QueryAgent.Graph.{
  Node, at_router, at_loader, at_telemetry, at_planner, at_sql_generator, at_validator,
  at_explain_gate, at_react_repair, at_execute, at_invariant_check, at_critic, at_optimizer,
  at_persist, run_node, next_node, run, go_on, enter, answer, recursion_limit_for_attempts, Outcome,
  finished, raised, limit_reached, start,
}
use po_c_sqlagent.QueryAgent.Attempts.{Counts, GivesUp, repair-Counts, repair-GivesUp, node-Counts}

-- The steps that a run may still take from a node, where `left` repairs are left.
unfoldable steps : ℕ → Node → ℕ
steps left at_persist = 1
steps left at_optimizer = 2
steps left at_react_repair = left * 6 + 2
steps left at_critic = left * 6 + 3
steps left at_invariant_check = left * 6 + 4
steps left at_execute = left * 6 + 5
steps left at_explain_gate = left * 6 + 6
steps left at_validator = left * 6 + 7
steps left at_sql_generator = left * 6 + 8
steps left at_planner = left * 6 + 9
steps left at_telemetry = left * 6 + 10
steps left at_loader = left * 6 + 11
steps left at_router = left * 6 + 12

-- The next node, if any, needs fewer than `k` steps.
abbrev Within : ℕ → ℕ → Option Node → Type 0
Within left k none = Unit
Within left k (some n) = steps left n < k

Within-choice :
    (left k : ℕ) (b : Bool) (m n : Node)
    → steps left m < k
    → steps left n < k
    → Within left k (some (if b then m else n))
Within-choice left k true m n hm hn = hm
Within-choice left k false m n hm hn = hn

next-Within :
    (left : ℕ) (n : Node) (s : State)
    → (n ≡ at_react_repair → ⊥)
    → Within left (steps left n) (next_node n s)
unfolding steps next_node
next-Within left at_router s other = omega arith
next-Within left at_loader s other = omega arith
next-Within left at_telemetry s other = omega arith
next-Within left at_planner s other =
    Within-choice left (left * 6 + 9) s.clarification_requested at_persist at_sql_generator
      (omega arith) (omega arith)
next-Within left at_sql_generator s other = omega arith
next-Within left at_validator s other =
    Within-choice left (left * 6 + 7) (has_error s) at_react_repair at_explain_gate (omega arith)
      (omega arith)
next-Within left at_explain_gate s other =
    Within-choice left (left * 6 + 6) (has_error s) at_react_repair at_execute (omega arith)
      (omega arith)
next-Within left at_react_repair s other = absurd (other refl)
next-Within left at_execute s other =
    Within-choice left (left * 6 + 5) (has_error s) at_react_repair at_invariant_check (omega arith)
      (omega arith)
next-Within left at_invariant_check s other = omega arith
next-Within left at_critic s other =
    Within-choice left (left * 6 + 3) s.critic_rejected at_react_repair at_optimizer (omega arith)
      (omega arith)
next-Within left at_optimizer s other = omega arith
next-Within left at_persist s other = tt

-- After a repair one fewer is left, unless none was.
repaired-Within :
    (left : ℕ) (s : State)
    → Within left (steps (suc left) at_react_repair) (next_node at_react_repair s)
unfolding steps next_node
repaired-Within left s = elim (Bool-cases s.react_repair_ready) [
  | inl ready ↦ rw ready (omega arith)
  | inr waits ↦ rw waits (
      Within-choice left (suc left * 6 + 2) s.react_retry at_react_repair at_persist (omega arith)
        (omega arith))
]

spent-Within :
    (left : ℕ) (s : State)
    → s.react_repair_ready ≡ false
    → s.react_retry ≡ false
    → Within left (steps 0 at_react_repair) (next_node at_react_repair s)
unfolding steps next_node
spent-Within left s waits over = rw (waits, over) (omega arith)

Within-weaken : (left j k : ℕ) (o : Option Node) → j ≤ k → Within left j o → Within left k o
Within-weaken left j k none h w = tt
Within-weaken left j k (some n) h w = omega (arith, h, w)

steps-positive : (left : ℕ) (n : Node) → 1 ≤ steps left n
unfolding steps
steps-positive left at_router = omega arith
steps-positive left at_loader = omega arith
steps-positive left at_telemetry = omega arith
steps-positive left at_planner = omega arith
steps-positive left at_sql_generator = omega arith
steps-positive left at_validator = omega arith
steps-positive left at_explain_gate = omega arith
steps-positive left at_react_repair = omega arith
steps-positive left at_execute = omega arith
steps-positive left at_invariant_check = omega arith
steps-positive left at_critic = omega arith
steps-positive left at_optimizer = omega arith
steps-positive left at_persist = omega arith

is_repair : (n : Node) → (n ≡ at_react_repair) ⊎ (n ≡ at_react_repair → ⊥)
is_repair at_react_repair = inl refl
is_repair at_router = inr (λ e. cc e)
is_repair at_loader = inr (λ e. cc e)
is_repair at_telemetry = inr (λ e. cc e)
is_repair at_planner = inr (λ e. cc e)
is_repair at_sql_generator = inr (λ e. cc e)
is_repair at_validator = inr (λ e. cc e)
is_repair at_explain_gate = inr (λ e. cc e)
is_repair at_execute = inr (λ e. cc e)
is_repair at_invariant_check = inr (λ e. cc e)
is_repair at_critic = inr (λ e. cc e)
is_repair at_optimizer = inr (λ e. cc e)
is_repair at_persist = inr (λ e. cc e)

repair_steps : (left : ℕ) → steps left at_react_repair ≡ left * 6 + 2
unfolding steps
repair_steps left = refl

-- A run that has come to an end of its own.
abbrev pub Ends : Outcome → Type 0
Ends (finished s) = Unit
Ends (raised e) = Unit
Ends limit_reached = ⊥

module _ (sv : Services) where
  abbrev left_for : State → ℕ
  left_for s = sv.max_attempts - s.react_attempts

  enter-Ends :
      (k : ℕ) (o : Option Node) (s : State)
      → Within (left_for s) (suc k) o
      → ((m : Node) (s' : State) → steps (left_for s') m ≤ k → Ends (run sv k m s'))
      → Ends (enter (run sv k) o s)
  unfolding enter
  enter-Ends k none s h rest = tt
  enter-Ends k (some n) s h rest = rest n s (omega (arith, h))

  -- The next step of a node that counts as it should.
  counted-Ends :
      (k : ℕ) (n : Node) (s : State) (r : Py State)
      → (n ≡ at_react_repair → ⊥)
      → Counts s.react_attempts r
      → steps (left_for s) n ≤ suc k
      → ((m : Node) (s' : State) → steps (left_for s') m ≤ k → Ends (run sv k m s'))
      → Ends (go_on (run sv k) n r)
  unfolding go_on
  counted-Ends k n s (err e) other h fuel rest = tt
  counted-Ends k n s (ok s') other h fuel rest =
      enter-Ends k (next_node n s') s'
        (Within-weaken (left_for s') (steps (left_for s') n) (suc k) (next_node n s')
          (omega (arith, fuel, ap (λ a. steps (sv.max_attempts - a) n) h))
          (next-Within (left_for s') n s' other))
        rest

  -- The same for a repair: within the budget it uses up one attempt, else it gives up.
  repair-Ends :
      (k : ℕ) (s : State) (r : Py State)
      → Counts (s.react_attempts + 1) r
      → (sv.max_attempts < s.react_attempts + 1 → GivesUp r)
      → steps (left_for s) at_react_repair ≤ suc k
      → ((m : Node) (s' : State) → steps (left_for s') m ≤ k → Ends (run sv k m s'))
      → Ends (go_on (run sv k) at_react_repair r)
  unfolding go_on
  repair-Ends k s (err e) h over fuel rest = tt
  repair-Ends k s (ok s') h over fuel rest =
      enter-Ends k (next_node at_react_repair s') s' within rest
    where
      within : Within (left_for s') (suc k) (next_node at_react_repair s')
      within = elim (Bool-cases (ltb sv.max_attempts (s.react_attempts + 1))) [
        | inl spent ↦
            let (waits, stops) = over (ltb→lt _ _ spent) in
            Within-weaken (left_for s') (steps 0 at_react_repair) (suc k)
              (next_node at_react_repair s')
              (omega (arith, fuel, repair_steps 0, repair_steps (left_for s)))
              (spent-Within (left_for s') s' waits stops)
        | inr some_left ↦
            Within-weaken (left_for s') (steps (suc (left_for s')) at_react_repair) (suc k)
              (next_node at_react_repair s')
              (ground (
                arith,
                fuel,
                h,
                some_left,
                repair_steps (left_for s),
                repair_steps (suc (left_for s')),
              ))
              (repaired-Within (left_for s') s')
      ]

  repair_node-Ends :
      (k : ℕ) (s : State)
      → steps (left_for s) at_react_repair ≤ suc k
      → ((m : Node) (s' : State) → steps (left_for s') m ≤ k → Ends (run sv k m s'))
      → Ends (go_on (run sv k) at_react_repair (run_node sv at_react_repair s))
  unfolding run_node
  repair_node-Ends k s fuel rest =
      repair-Ends k s (react_repair sv s) (repair-Counts sv s) (repair-GivesUp sv s) fuel rest

  node-Ends :
      (k : ℕ) (n : Node) (s : State)
      → (n ≡ at_react_repair) ⊎ (n ≡ at_react_repair → ⊥)
      → steps (left_for s) n ≤ suc k
      → ((m : Node) (s' : State) → steps (left_for s') m ≤ k → Ends (run sv k m s'))
      → Ends (go_on (run sv k) n (run_node sv n s))
  node-Ends k n s (inr other) fuel rest =
      counted-Ends k n s (run_node sv n s) other (node-Counts sv n s other) fuel rest
  node-Ends k n s (inl e) fuel rest =
      subst (λ m. Ends (go_on (run sv k) m (run_node sv m s))) (sym e)
        (repair_node-Ends k s (subst (λ m. steps (left_for s) m ≤ suc k) e fuel) rest)

  run-Ends : (k : ℕ) (n : Node) (s : State) → steps (left_for s) n ≤ k → Ends (run sv k n s)
  unfolding run
  run-Ends zero n s fuel = absurd (omega (arith, fuel, steps-positive (left_for s) n))
  run-Ends (suc k) n s fuel = node-Ends k n s (is_repair n) fuel (λ m s' h. run-Ends k m s' h)

  -- Whatever the model, the database and the workspace answer, a run from the start ends by itself,
  -- with a final state or an exception of a node: the recursion limit that the code sets for its
  -- repair budget is never reached.
  pub answer-Ends : (question : String) → Ends (answer sv question)
  unfolding answer recursion_limit_for_attempts steps
  answer-Ends question = run-Ends _ at_router (start question) (omega arith)
