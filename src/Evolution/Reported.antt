-- ===== src/Evolution/Reported.antt =====
-- sqlagent/evolution/graph.py: what a failure leads to.
use po_c_sqlagent.Base.{
  ◌>>=◌, >>=-eq-ok, ok-injective, ℕ, ◌≤◌, String, Bool, true, false, ◌||◌, ◌≡◌, refl, ◌⊎◌, ◌∙◌,
  some, inl, inr, Option, List, [], ◌∷◌, All, In, ok, err, subst, Bool-cases, if◌then◌else◌, length,
}
use po_c_sqlagent.Text.{◌=ₛ◌, member, contains, lower}
use po_c_sqlagent.Python.{Value, Fields, Py}
use po_c_sqlagent.Composer.{text_or}
use po_c_sqlagent.FailureQueue.{is_infra, Queue, Job, claim}
use po_c_sqlagent.FailureQueue.Skill.{claim-IsSkill_job}
use po_c_sqlagent.FailureQueue.Reach.{History, History-IsValid}
use po_c_sqlagent.Evolution.Surface.{
  Clusters, cluster, attribute, surface_by, error_type_of, latest, max_mutation_files, is_some,
}
use po_c_sqlagent.Evolution.Mutation.{Writing, Skill, expected_surface}
use po_c_sqlagent.Evolution.Evolve.{
  decided, Evolved, insufficient, incident_recorded, candidate_created, created, mutate, evolved,
  incident_types, trajectory_of, evolve_failure,
}
use po_c_sqlagent.Evolution.Guarded.{IsGuarded, mutate-IsGuarded}
use po_c_sqlagent.Evolution.Bounded.{surfaces, OnSurface, Reports, mutate-Reports}

if-surface :
    (b : Bool) (v w : String × String)
    → In v.0 surfaces
    → In w.0 surfaces
    → In (if b then v else w).0 surfaces
if-surface true v w h k = h
if-surface false v w h k = k

surface_by-In :
    (c : Clusters) (error_type message : String) → In (surface_by c error_type message).0 surfaces
unfolding surface_by
surface_by-In c error_type message =
    if-surface (error_type =ₛ "schema_selection_failed" || contains "schema selection" message) _ _
      (inl refl)
      (if-surface (contains "metric" message || contains "measure" message) _ _ (inr (inl refl)) (
        if-surface (contains "semantic" message) _ _ (inr (inr (inl refl))) (
          if-surface (is_some c.join_fanout) _ _ (inr (inr (inr (inl refl)))) (
            if-surface (is_some c.failed) _ _ (inr (inr (inr (inr (inl refl))))) (
              if-surface (is_some c.slow) _ _ (inr (inr (inr (inr (inr (inl refl))))))
                (inr (inr (inr (inr (inr (inr (inl refl))))))))))))

attribute-In :
    (c : Clusters) (ts : List Fields) (why : String × String)
    → attribute c ts ≡ ok why
    → In why.0 surfaces
unfolding attribute
attribute-In c ts why h =
    let (error_type, e, h₁) = >>=-eq-ok (error_type_of (latest ts)) _ h in
    subst (λ (w : String × String). In w.0 surfaces) (ok-injective h₁)
      (surface_by-In c error_type (lower (text_or "error" "" (latest ts))))

surface_direct : (s : String) → In s surfaces → expected_surface s ≡ s
unfolding expected_surface
surface_direct s (inl e) = subst (λ t. expected_surface t ≡ t) e refl
surface_direct s (inr (inl e)) = subst (λ t. expected_surface t ≡ t) e refl
surface_direct s (inr (inr (inl e))) = subst (λ t. expected_surface t ≡ t) e refl
surface_direct s (inr (inr (inr (inl e)))) = subst (λ t. expected_surface t ≡ t) e refl
surface_direct s (inr (inr (inr (inr (inl e))))) = subst (λ t. expected_surface t ≡ t) e refl
surface_direct s (inr (inr (inr (inr (inr (inl e)))))) = subst (λ t. expected_surface t ≡ t) e refl
surface_direct s (inr (inr (inr (inr (inr (inr (inl e))))))) =
    subst (λ t. expected_surface t ≡ t) e refl
surface_direct s (inr (inr (inr (inr (inr (inr (inr m))))))) = elim m [ ]

-- A candidate changes at most three files, each by an allowed path with the prefix of its surface.
abbrev pub IsSmall : Evolved → Type 0
IsSmall (candidate_created surface reason changed) =
    (length changed ≤ max_mutation_files) × All (OnSurface surface) changed
IsSmall _ = Unit

abbrev pub Outcome : Skill → Writing Evolved → Type 0
Outcome skill (writes, ok e) = All (IsGuarded skill) writes × IsSmall e
Outcome skill (writes, err e) = All (IsGuarded skill) writes

created-Outcome :
    (skill : Skill) (why : String × String) (w : Writing (List String))
    → All (IsGuarded skill) w.0
    → Reports (λ changed. (length changed ≤ max_mutation_files) × All (OnSurface why.0) changed) w
    → Outcome skill (created why w)
created-Outcome skill (surface, reason) (writes, ok changed) h k = (h, k)
created-Outcome skill why (writes, err e) h k = h

decided-Outcome :
    (skill : Skill) (answer : Option (Py Value)) (r : Py (String × String))
    → ((why : String × String) → r ≡ ok why → In why.0 surfaces)
    → Outcome skill (decided r (λ why. created why (mutate skill why.0 answer)))
decided-Outcome skill answer (err e) h = tt
decided-Outcome skill answer (ok why) h =
    let known = h why refl in
    created-Outcome skill why (mutate skill why.0 answer) (mutate-IsGuarded skill why.0 answer)
      (mutate-Reports skill why.0 (surface_direct why.0 known) answer known)

evolved-Outcome :
    (skill : Skill) (is_slow : Value → Py Bool) (dangerous : List String)
    (answer : Option (Py Value)) (ts : List Fields)
    → Outcome skill (evolved skill is_slow dangerous answer ts)
unfolding evolved
evolved-Outcome skill is_slow dangerous answer ts =
    decided-Outcome skill answer (cluster is_slow dangerous ts >>= λ c. attribute c ts) λ why h.
      let (c, e, h₁) = >>=-eq-ok (cluster is_slow dangerous ts) _ h in attribute-In c ts why h₁

if-Outcome :
    (skill : Skill) (b : Bool) (v w : Writing Evolved)
    → Outcome skill v
    → Outcome skill w
    → Outcome skill (if b then v else w)
if-Outcome skill true v w h k = h
if-Outcome skill false v w h k = k

-- Whatever the model answers and the links of the file system lead to: every file that evolving a
-- failure writes has a path that begins with an allowed prefix or is one of two allowed files, and that
-- leads to the workspace or below it; a `.sql` file holds a query that read-only validation has passed,
-- a semicolon and a newline; all this also where an exception stops it. A candidate that it reports
-- changes at most three files, each by such a path whose prefix is that of the surface that the failure
-- points to. A ".." after the prefix is not excluded.
pub evolve_failure-Outcome :
    (skill : Skill) (is_slow : Value → Py Bool) (dangerous : List String)
    (answer : Option (Py Value)) (request_id error_type : String) (payload : Fields)
    → Outcome skill (evolve_failure skill is_slow dangerous answer request_id error_type payload)
unfolding evolve_failure
evolve_failure-Outcome skill is_slow dangerous answer request_id error_type payload =
    if-Outcome skill (member error_type incident_types) _ _ (tt, tt)
      (evolved-Outcome skill is_slow dangerous answer
        (trajectory_of request_id error_type payload ∷ []))

abbrev pub is_incident : Writing Evolved → Bool
is_incident (writes, ok (incident_recorded request_id error_type)) = true
is_incident (writes, ok (insufficient count required)) = false
is_incident (writes, ok (candidate_created surface reason changed)) = false
is_incident (writes, err e) = false

created_no_incident :
    (why : String × String) (w : Writing (List String)) → is_incident (created why w) ≡ false
created_no_incident (surface, reason) (writes, ok changed) = refl
created_no_incident why (writes, err e) = refl

decided_no_incident :
    (skill : Skill) (answer : Option (Py Value)) (r : Py (String × String))
    → is_incident (decided r (λ why. created why (mutate skill why.0 answer))) ≡ false
decided_no_incident skill answer (ok why) = created_no_incident why (mutate skill why.0 answer)
decided_no_incident skill answer (err e) = refl

evolved_no_incident :
    (skill : Skill) (is_slow : Value → Py Bool) (dangerous : List String)
    (answer : Option (Py Value)) (ts : List Fields)
    → is_incident (evolved skill is_slow dangerous answer ts) ≡ false
unfolding evolved
evolved_no_incident skill is_slow dangerous answer ts =
    decided_no_incident skill answer (cluster is_slow dangerous ts >>= λ c. attribute c ts)

-- A failure ends as an incident exactly where the failure queue takes its error for infrastructure,
-- and then nothing is written.
pub evolve_failure-is_infra :
    (skill : Skill) (is_slow : Value → Py Bool) (dangerous : List String)
    (answer : Option (Py Value)) (request_id error_type : String) (payload : Fields)
    → (is_incident (evolve_failure skill is_slow dangerous answer request_id error_type payload)
        ≡ is_infra error_type)
      × ((is_infra error_type ≡ false)
          ⊎ ((evolve_failure skill is_slow dangerous answer request_id error_type payload).0 ≡ []))
unfolding evolve_failure is_infra
evolve_failure-is_infra skill is_slow dangerous answer request_id error_type payload =
    elim (Bool-cases (member error_type incident_types)) [
      | inl infra ↦ rw infra (refl, inr refl)
      | inr other ↦ rw other (
        evolved_no_incident skill is_slow dangerous answer
            (trajectory_of request_id error_type payload ∷ []),
        inl refl,
      )
    ]

-- After any operations on the queue from an empty one, with fresh identifiers, evolving a job that is
-- claimed from it does not end as an incident, whatever its payload and the model's answer.
pub claimed_no_incident :
    {n : ℕ} {q : Queue} (stale_after now now' now'' : ℕ) (q' : Queue) (job : Job) (skill : Skill)
    (is_slow : Value → Py Bool) (dangerous : List String) (answer : Option (Py Value))
    (payload : Fields)
    → History n q
    → claim stale_after now now' now'' q ≡ (q', some job)
    → is_incident
        (evolve_failure skill is_slow dangerous answer job.request_id job.error_type payload)
      ≡ false
claimed_no_incident {q = q} stale_after now now' now'' q' job skill is_slow dangerous answer payload
      h r =
    (evolve_failure-is_infra skill is_slow dangerous answer job.request_id job.error_type payload).0
    ∙ claim-IsSkill_job stale_after now now' now'' q q' job (History-IsValid h).skill r
