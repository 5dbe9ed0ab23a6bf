-- ===== src/Engine/State/History.antt =====
-- What `next_pending_step` promises.
use autonomous_agentic_platf.Prelude.{
  [], String, ◌≡◌, refl, inl, inr, Bool, true, false, ◌&&◌, none, some, List, ◌∷◌, ◌++◌, arith,
  Bool-cases, any,
}
use autonomous_agentic_platf.Engine.State.{
  PlanStep, AgentState, StepStatus, is_pending, dependencies_satisfied, first_pending,
  next_pending_step, status_of, Plan,
}

-- A step that can start: it is pending, and its dependencies succeeded or were skipped.
abbrev pub can_start : (String → StepStatus) → PlanStep → Bool
can_start status step = is_pending (status step.id) && dependencies_satisfied status step

first_pending-found :
    (status : String → StepStatus) (steps : List PlanStep) (step : PlanStep)
    → first_pending status steps ≡ some step
    → (before after : List PlanStep) × (steps ≡ before ++ step ∷ after)
      × (can_start status step ≡ true)
      × (any (can_start status) before ≡ false)
unfolding first_pending
first_pending-found status [] step h = cc
first_pending-found status (s ∷ steps) step h = elim (Bool-cases (can_start status s)) [
  | inl ready ↦ ([], steps, ground arith, ground arith, refl)
  | inr waits ↦
      let (before, after, e, ready, none_before) =
        first_pending-found status steps step (ground arith) in
      (s ∷ before, after, cc, ready, ground arith)
]

first_pending-missing :
    (status : String → StepStatus) (steps : List PlanStep)
    → first_pending status steps ≡ none
    → any (can_start status) steps ≡ false
unfolding first_pending
first_pending-missing status [] h = refl
first_pending-missing status (s ∷ steps) h = ground (arith, first_pending-missing status steps)

module _ {F : Type 0} (state : AgentState F) (plan : Plan F)
    (planned : state.plan ≡ some plan) where
  abbrev status : String → StepStatus
  status = status_of plan state.step_status

  -- The step that `next_pending_step` returns is the first step of the plan that can start: it is
  -- pending, each of its dependencies succeeded or was skipped, and no step before it can start.
  pub next_pending_step-first :
      (step : PlanStep)
      → next_pending_step state ≡ some step
      → (before after : List PlanStep) × (plan.steps ≡ before ++ step ∷ after)
        × (can_start status step ≡ true)
        × (any (can_start status) before ≡ false)
  unfolding next_pending_step
  next_pending_step-first step h = first_pending-found status plan.steps step (rw planned at h)

  -- `next_pending_step` returns none for a run with a plan only if no step of the plan can start.
  pub next_pending_step-none :
      next_pending_step state ≡ none → any (can_start status) plan.steps ≡ false
  unfolding next_pending_step
  next_pending_step-none h = first_pending-missing status plan.steps (rw planned at h)
