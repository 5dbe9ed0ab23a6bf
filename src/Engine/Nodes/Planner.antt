-- ===== src/Engine/Nodes/Planner.antt =====
-- backend/app/engine/nodes/planner.py: what the node writes for a plan. The calls of the model and
-- the rounds that repair its answer are left out: the plan comes in as they left it.
pub mod Validation
pub mod Sound
use autonomous_agentic_platf.Prelude.{
  [], ℕ, suc, ◌+◌, String, not, ◌&&◌, Option, none, some, List, ◌∷◌, ltb, if◌then◌else◌, is_some,
  find?, insert,
}
use autonomous_agentic_platf.Engine.State.{
  AgentState, Update, Plan, PlanStep, StepStatus, pending, skipped, no_update, Usage,
}
use autonomous_agentic_platf.Engine.Routing.{is_executable}

-- `_normalise`, from the index of the first step on.
unfoldable pub normalise_from : ℕ → List PlanStep → List PlanStep
normalise_from index [] = []
normalise_from index (step ∷ steps) =
    record step { index = index; status = pending; attempts = 0 } ∷ normalise_from (suc index) steps

-- `_first_executable`
unfoldable pub first_executable : List PlanStep → Option PlanStep
first_executable steps = find? (λ s. is_executable s.kind) steps

-- The status that a step starts with, when `current` is the first executable one.
abbrev pub initial_status : Option PlanStep → PlanStep → StepStatus
initial_status none step = pending
initial_status (some current) step =
    if ltb step.index current.index && not (is_executable step.kind) then skipped else pending

-- `_initial_step_status`: one entry for each id, in the order of the steps.
unfoldable pub initial_step_status :
    Option PlanStep → List (String × StepStatus) → List PlanStep → List (String × StepStatus)
unfolding insert
initial_step_status current acc [] = acc
initial_step_status current acc (step ∷ steps) =
    initial_step_status current (insert step.id (initial_status current step) acc) steps

abbrev pub id_of : Option PlanStep → Option String
id_of none = none
id_of (some step) = some step.id

module _ {F : Type 0} where
  -- `(state.get("replan_count") or 0) + (1 if state.get("plan") else 0)`
  unfoldable pub next_replan_count : AgentState F → ℕ
  next_replan_count state = state.replan_count + (if is_some state.plan then 1 else 0)

  unfoldable pub numbered_plan : AgentState F → Plan F → Plan F
  unfolding next_replan_count normalise_from
  numbered_plan state plan = record plan {
    steps = normalise_from 0 plan.steps;
    revision = next_replan_count state + 1;
  }

  unfoldable pub plan_update : AgentState F → Plan F → Usage → Update F
  unfolding numbered_plan next_replan_count first_executable initial_step_status
  plan_update state proposed usage =
      let plan = numbered_plan state proposed in
      let current = first_executable plan.steps in
      record no_update {
        plan = some (some plan);
        plan_history = plan ∷ [];
        task_kind = some plan.task_kind;
        current_step_id = some (id_of current);
        step_status = initial_step_status current [] plan.steps;
        replan_count = some (next_replan_count state);
        usage = some usage;
      }
