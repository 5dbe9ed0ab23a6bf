-- ===== src/Examples/Verdicts.antt =====
-- The theorems on criteria, verdicts, routers and histories, at concrete states.
use autonomous_agentic_platf.Engine.Nodes.Planner.Validation.{is_known_metric}
use autonomous_agentic_platf.Engine.Nodes.Planner.Validation.{is_known_metric}
use autonomous_agentic_platf.Prelude.{
  ◌≡◌, refl, ◌↔◌, true, none, some, [], ◌∷◌, is_some, lookup, ℤ, pos,
}
use autonomous_agentic_platf.Examples.{
  hundredths, train_step, accuracy, one_step_plan, planned_state, executed_state, failed_state,
}
use autonomous_agentic_platf.Engine.State.{
  acyclic_and_ordered, later_step, Plan, PlanStep, AgentState, next_pending_step, status_of, refine,
  replan, succeeded, failed as run_failed, apply_update, float,
}
use autonomous_agentic_platf.Engine.Nodes.Planner.Validation.{
  validate_plan, wrong_step_count, unbound_train,
}
use autonomous_agentic_platf.Engine.Nodes.Planner.Sound.{SomeMet, validate_plan-SomeMet}
use autonomous_agentic_platf.Engine.State.{evaluate, report, SandboxOutcome}
use autonomous_agentic_platf.Engine.State.Progress.{next_pending_step-progress}
use autonomous_agentic_platf.Engine.Routing.{after_eval}
use autonomous_agentic_platf.Engine.Criteria.{check_criteria, determine_outcome}
use autonomous_agentic_platf.Engine.Criteria.Meets.{AllRequiredMet, check_criteria-AllRequiredMet}
use autonomous_agentic_platf.Engine.Criteria.Outcome.{Succeeds, determine_outcome-succeeded}
use autonomous_agentic_platf.Engine.Evaluator.{build_verdict, verdict_update, executed_cleanly}
use autonomous_agentic_platf.Engine.Evaluator.Agreement.{
  after_eval-build_verdict, build_verdict-determine_outcome, build_verdict-disagrees, destination,
}
use autonomous_agentic_platf.Engine.State.{status_of, step_succeeded}
use autonomous_agentic_platf.Engine.Criteria.{observed_metrics}

check_criteria-AllRequiredMet_example :
    ((check_criteria hundredths (accuracy ∷ []) (("accuracy", float (pos 93)) ∷ [])).1 ≡ true)
    ↔ AllRequiredMet hundredths (("accuracy", float (pos 93)) ∷ []) (accuracy ∷ [])
check_criteria-AllRequiredMet_example =
    check_criteria-AllRequiredMet hundredths (accuracy ∷ []) (("accuracy", float (pos 93)) ∷ [])

determine_outcome-succeeded_example :
    ((determine_outcome hundredths (executed_state 93)).0 ≡ succeeded)
    ↔ Succeeds hundredths (executed_state 93)
determine_outcome-succeeded_example = determine_outcome-succeeded hundredths (executed_state 93)

-- 0.85 is near 0.90.
near : (build_verdict hundredths (executed_state 85) none).0.decision ≡ refine
unfolding build_verdict
near = refl

far : (build_verdict hundredths (executed_state 10) none).0.decision ≡ replan
unfolding build_verdict
far = refl

after_eval-build_verdict_example :
    let (verdict, outcome) = build_verdict hundredths (executed_state 85) none in
    after_eval
      (apply_update (executed_state 85) (verdict_update (executed_state 85) verdict outcome))
    ≡ destination verdict.decision
after_eval-build_verdict_example = after_eval-build_verdict hundredths (executed_state 85) none

accepted : (build_verdict hundredths (executed_state 93) none).1 ≡ some succeeded
unfolding build_verdict
accepted = refl

build_verdict-determine_outcome_example :
    (determine_outcome hundredths (executed_state 93)).0 ≡ succeeded
unfolding executed_cleanly
build_verdict-determine_outcome_example =
    build_verdict-determine_outcome hundredths (executed_state 93) none succeeded refl refl accepted

-- A plan without criteria, whose execution failed.
abbrev aimless_state : AgentState ℤ
aimless_state = record failed_state { plan = some (record one_step_plan { success_criteria = [] }) }

build_verdict-disagrees_example :
    ((build_verdict hundredths aimless_state none).1 ≡ some succeeded)
    × ((determine_outcome hundredths aimless_state).0 ≡ run_failed)
unfolding executed_cleanly
build_verdict-disagrees_example = build_verdict-disagrees hundredths aimless_state none refl refl tt

pending_fit : next_pending_step planned_state ≡ some train_step
unfolding next_pending_step
pending_fit = refl

-- The one step is done.
abbrev done_state : AgentState ℤ
done_state = record planned_state { step_status = ("fit", step_succeeded) ∷ [] }

nothing_pending : next_pending_step done_state ≡ none
unfolding next_pending_step
nothing_pending = refl

-- A second step needs the first, which is done.
abbrev tune_step : PlanStep
tune_step = record train_step { id = "tune"; depends_on = "fit" ∷ [] }

abbrev two_step_plan : Plan ℤ
two_step_plan = record one_step_plan { steps = train_step ∷ tune_step ∷ [] }

abbrev half_done : AgentState ℤ
half_done = record planned_state {
  plan = some two_step_plan;
  step_status = ("fit", step_succeeded) ∷ [];
}

next_pending_step-progress_example : is_some (next_pending_step half_done) ≡ true
unfolding acyclic_and_ordered status_of
next_pending_step-progress_example =
    next_pending_step-progress half_done two_step_plan refl refl (refl, (refl, tt)) refl

-- In the other order the plan is refused.
wrong_order : acyclic_and_ordered (tune_step ∷ train_step ∷ []) ≡ some (later_step "tune")
unfolding acyclic_and_ordered
wrong_order = refl

-- Three steps, and the one that trains has its dataset.
abbrev sound_plan : Plan ℤ
sound_plan = record one_step_plan {
  steps =
      record train_step {
        dataset = some (record { dataset_id = "iris"; path = "iris.csv"; sha256 = "" });
      }
      ∷ record train_step { id = "judge"; kind = evaluate }
      ∷ record train_step { id = "tell"; kind = report }
      ∷ [];
}

abbrev sound_state : AgentState ℤ
sound_state = record (executed_state 93) { plan = some sound_plan }

validate_plan-SomeMet_example :
    (o : SandboxOutcome ℤ) × (sound_state.last_outcome ≡ some o)
    × SomeMet hundredths (observed_metrics o.metrics) (accuracy ∷ [])
unfolding validate_plan determine_outcome is_known_metric lookup
validate_plan-SomeMet_example =
    validate_plan-SomeMet hundredths (λ dataset_id. none) sound_state sound_plan refl refl refl

-- One step is too few, and it has no dataset.
unsound_plan :
    validate_plan (λ dataset_id. none) one_step_plan ≡ wrong_step_count 1 ∷ unbound_train "fit" ∷ []
unfolding validate_plan is_known_metric
unsound_plan = refl
