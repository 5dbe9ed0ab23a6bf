-- ===== src/Engine/State/PlanCheck.antt =====
-- `Plan.acyclic_and_ordered`: the validator of the steps of a plan.
use autonomous_agentic_platf.Prelude.{
  String, not, Option, none, some, List, [], ◌∷◌, map, if◌then◌else◌, is_empty, all, select,
  contains,
}
use autonomous_agentic_platf.Engine.State.Records.{PlanStep}

-- What the validator raises, with the id of the step.
pub data PlanError : Type 0 where
  unknown_steps : (step_id : String) (missing : List String) → PlanError
  later_step : (step_id : String) → PlanError

-- The loop over the steps, for the ids of the plan and those that it has seen.
unfoldable pub check_steps : List String → List String → List PlanStep → Option PlanError
check_steps ids seen [] = none
check_steps ids seen (s ∷ steps) =
    let rest = check_steps ids (s.id ∷ seen) steps in
    let missing = select (λ d. not (contains d ids)) s.depends_on in
    if not (is_empty missing)
    then some (unknown_steps s.id missing)
    else if not (all (λ d. contains d seen) s.depends_on)
    then some (later_step s.id)
    else rest

-- None where the steps pass.
unfoldable pub acyclic_and_ordered : List PlanStep → Option PlanError
unfolding check_steps
acyclic_and_ordered steps = check_steps (map (λ s. s.id) steps) [] steps
