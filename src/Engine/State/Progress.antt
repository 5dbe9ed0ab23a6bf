-- ===== src/Engine/State/Progress.antt =====
-- A plan that was validated does not get stuck while none of its steps fails.
use autonomous_agentic_platf.Prelude.{
  String, ◌≡◌, refl, ap, ◌∙◌, inl, inr, Bool, true, not, ◌||◌, none, some, List, [], ◌∷◌, map,
  arith, eq_iff, str_eq, Bool-cases, is_some, is_empty, all, any, select, All, contains,
}
use autonomous_agentic_platf.Engine.State.{
  PlanStep, Plan, AgentState, StepStatus, is_pending, is_satisfied, dependencies_satisfied,
  first_pending, next_pending_step, status_of, check_steps, acyclic_and_ordered,
}

-- Neither running nor failed.
abbrev pub is_unhindered : (String → StepStatus) → PlanStep → Bool
is_unhindered status s = is_pending (status s.id) || is_satisfied (status s.id)

all-imp :
    (p q : String → Bool) (xs : List String)
    → ((x : String) → p x ≡ true → q x ≡ true)
    → all p xs ≡ true
    → all q xs ≡ true
all-imp p q [] into h = refl
all-imp p q (x ∷ xs) into h = ground (arith, into x, all-imp p q xs into)

module _ (status : String → StepStatus) (ids : List String) where
  met_too :
      (seen : List String) (step_id : String)
      → ((d : String) → contains d seen ≡ true → is_satisfied (status d) ≡ true)
      → is_satisfied (status step_id) ≡ true
      → (d : String) → contains d (step_id ∷ seen) ≡ true
      → is_satisfied (status d) ≡ true
  met_too seen step_id met here d h = elim (Bool-cases (str_eq d step_id)) [
    | inl same ↦ ap (λ x. is_satisfied (status x)) ((eq_iff d step_id).0 same) ∙ here
    | inr other ↦ met d (ground arith)
  ]

  first_pending-progress :
      (seen : List String) (steps : List PlanStep)
      → ((d : String) → contains d seen ≡ true → is_satisfied (status d) ≡ true)
      → check_steps ids seen steps ≡ none
      → All (λ s. is_unhindered status s ≡ true) steps
      → any (λ s. is_pending (status s.id)) steps ≡ true
      → is_some (first_pending status steps) ≡ true
  unfolding check_steps first_pending
  first_pending-progress seen [] met valid each some_pending = absurd (cc)
  first_pending-progress seen (s ∷ steps) met valid (here, each) some_pending =
      elim (Bool-cases (is_empty (select (λ d. not (contains d ids)) s.depends_on))) [
        | inr unknown ↦ absurd (ground arith)
        | inl known ↦ elim (Bool-cases (all (λ d. contains d seen) s.depends_on)) [
          | inr later ↦ absurd (ground arith)
          | inl ordered ↦
              let ready : dependencies_satisfied status s ≡ true =
                all-imp (λ d. contains d seen) (λ d. is_satisfied (status d)) s.depends_on met
                  ordered in
              elim (Bool-cases (is_pending (status s.id))) [
                | inl waits ↦ rw (first_pending, waits, ready) refl
                | inr done ↦
                    let met_here : is_satisfied (status s.id) ≡ true = ground arith in
                    let behind : check_steps ids (s.id ∷ seen) steps ≡ none = ground arith in
                    let pending_behind : any (λ s. is_pending (status s.id)) steps ≡ true =
                      ground arith in
                    rw (first_pending, done)
                      (first_pending-progress (s.id ∷ seen) steps (met_too seen s.id met met_here)
                        behind each pending_behind)
              ]
        ]
      ]

-- A plan whose steps pass acyclic_and_ordered does not get stuck: while each of its steps is
-- pending, succeeded or skipped, and one is pending, next_pending_step gives a step.
pub next_pending_step-progress :
    {F : Type 0} (state : AgentState F) (plan : Plan F)
    → state.plan ≡ some plan
    → acyclic_and_ordered plan.steps ≡ none
    → All (λ s. is_unhindered (status_of plan state.step_status) s ≡ true) plan.steps
    → any (λ s. is_pending (status_of plan state.step_status s.id)) plan.steps ≡ true
    → is_some (next_pending_step state) ≡ true
unfolding acyclic_and_ordered next_pending_step
next_pending_step-progress state plan planned valid each some_pending =
    rw (next_pending_step, planned)
      (first_pending-progress (status_of plan state.step_status) (map (λ s. s.id) plan.steps) []
        plan.steps (λ d h. absurd (cc)) valid each some_pending)
