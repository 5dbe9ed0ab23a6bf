-- ===== src/Engine/State/Steps.antt =====
-- `Plan.step`, `next_pending_step` and `refine_cycles` of backend/app/engine/state.py.
use autonomous_agentic_platf.Prelude.{
  [], ℕ, Bool, true, false, not, Option, none, some, List, ◌∷◌, String, str_eq, find?, all,
  count_if, lookup, or_else, if◌then◌else◌,
}
use autonomous_agentic_platf.Engine.State.Enums.{
  StepStatus, pending, step_succeeded, skipped, is_pending, is_refine,
}
use autonomous_agentic_platf.Engine.State.Records.{PlanStep, Plan, Verdict}
use autonomous_agentic_platf.Engine.State.Channels.{AgentState}

-- `declared.status if declared else StepStatus.PENDING`
abbrev declared_status : Option PlanStep → StepStatus
declared_status none = pending
declared_status (some s) = s.status

module _ {F : Type 0} where
  unfoldable pub plan_step : Plan F → Option String → Option PlanStep
  plan_step plan none = none
  plan_step plan (some step_id) = find? (λ s. str_eq s.id step_id) plan.steps

  unfoldable pub status_of : Plan F → List (String × StepStatus) → String → StepStatus
  unfolding plan_step lookup
  status_of plan status step_id =
      or_else (lookup step_id status) (declared_status (plan_step plan (some step_id)))

-- `_SATISFIED`
abbrev pub is_satisfied : StepStatus → Bool
is_satisfied step_succeeded = true
is_satisfied skipped = true
is_satisfied _ = false

-- `all(status_of(dep) in _SATISFIED for dep in step.depends_on)`
abbrev pub dependencies_satisfied : (String → StepStatus) → PlanStep → Bool
dependencies_satisfied status step = all (λ d. is_satisfied (status d)) step.depends_on

-- The loop of `next_pending_step` over the steps of the plan.
unfoldable pub first_pending : (String → StepStatus) → List PlanStep → Option PlanStep
first_pending status [] = none
first_pending status (step ∷ steps) =
    let rest = first_pending status steps in
    if not (is_pending (status step.id))
    then rest
    else if dependencies_satisfied status step
    then some step
    else rest

module _ {F : Type 0} where
  unfoldable pub next_pending_step : AgentState F → Option PlanStep
  unfolding status_of first_pending
  next_pending_step state = elim state.plan [
    | none ↦ none
    | some plan ↦ first_pending (status_of plan state.step_status) plan.steps
  ]

  unfoldable pub refine_cycles : List (Verdict F) → ℕ
  refine_cycles verdicts = count_if (λ v. is_refine v.decision) verdicts
