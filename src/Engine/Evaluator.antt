-- ===== src/Engine/Evaluator.antt =====
-- backend/app/engine/nodes/evaluator.py: the arithmetic of the verdict. The directives and the
-- summary, which are prose built from these values, are left out.
pub mod Decide
pub mod Agreement
use autonomous_agentic_platf.Prelude.{
  [], ℕ, Floats, Bool, if◌then◌else◌, insert, lookup, List, Option, leb, String, true, some, ◌∷◌,
  ◌&&◌, none, not, ◌++◌, find?, ◌+◌, false, map, or_else, select,
}
use autonomous_agentic_platf.Engine.Routing.{budgets_or_default}
use autonomous_agentic_platf.Engine.Criteria.{observed_metrics, plan_criteria, check_criteria}
use autonomous_agentic_platf.Engine.State.{
  methodology, code_quality, metric_validity, reproducibility, goal_alignment, accept, refine,
  replan, abort, eq, approx, refine_cycles, CriterionResult, Budgets, next_pending_step,
  EvalDecision, Dimension, Comparator, AgentState, SuccessCriterion, RunOutcome, SandboxOutcome,
  Verdict, RubricScore, PlanStep, Metrics, Update, succeeded, is_refine, StepStatus, no_update,
  failed, is_evaluate, is_clean, is_replan, step_succeeded, partial,
}

-- What the rubric call returns: advice on the decision, and the scores.
pub record RubricAssessment : Type 0 where
  pub rubric : List RubricScore
  pub proposed_decision : Option EvalDecision

module _ {F : Type 0} where
  abbrev pub outcome_is_clean : Option (SandboxOutcome F) → Bool
  outcome_is_clean none = false
  outcome_is_clean (some outcome) = is_clean outcome.classification

  unfoldable pub executed_cleanly : AgentState F → Bool
  executed_cleanly state = outcome_is_clean state.last_outcome

  abbrev pub last_metrics : Option (SandboxOutcome F) → Option (Metrics F)
  last_metrics none = none
  last_metrics (some outcome) = outcome.metrics

-- `result.comparator in {"approx", "eq"}`
abbrev is_equality : Comparator → Bool
is_equality approx = true
is_equality eq = true
is_equality _ = false

-- The table of `decide`, on tests that are already made.
unfoldable pub decision_table :
    (passed clean narrow quality_spent replans_spent : Bool) → EvalDecision × Option RunOutcome
decision_table passed clean narrow quality_spent replans_spent =
    if passed
    then (accept, some succeeded)
    else if not clean
    then (abort, some failed)
    else if quality_spent && replans_spent
    then (abort, some partial)
    else if narrow && not quality_spent
    then (refine, none)
    else if not replans_spent
    then (replan, none)
    else if not quality_spent
    then (refine, none)
    else (abort, some partial)

unfoldable pub reconcile_decision : EvalDecision → Option EvalDecision → Bool → EvalDecision
reconcile_decision computed none replans_spent = computed
reconcile_decision computed (some proposed) replans_spent =
    if is_refine computed && is_replan proposed && not replans_spent then replan else computed

-- `debug_iterations + refines_granted >= budgets.max_debug_iterations`
unfoldable pub quality_spent : ℕ → ℕ → Budgets → Bool
quality_spent debug_iterations refines_granted budgets =
    leb budgets.max_debug_iterations (debug_iterations + refines_granted)

unfoldable pub replans_spent : ℕ → Budgets → Bool
replans_spent replan_count budgets = leb budgets.max_replans replan_count

abbrev same_dimension : Dimension → Dimension → Bool
same_dimension methodology methodology = true
same_dimension code_quality code_quality = true
same_dimension metric_validity metric_validity = true
same_dimension reproducibility reproducibility = true
same_dimension goal_alignment goal_alignment = true
same_dimension _ _ = false

abbrev pub rubric_dimensions : List Dimension
rubric_dimensions =
    methodology ∷ code_quality ∷ metric_validity ∷ reproducibility ∷ goal_alignment ∷ []

-- The first score of a dimension, as `setdefault` keeps it.
abbrev pub first_score : List RubricScore → Dimension → List RubricScore
first_score scores d = elim (find? (λ s. same_dimension s.dimension d) scores) [
  | none ↦ []
  | some s ↦ s ∷ []
]

abbrev pub score_each : List RubricScore → List Dimension → List RubricScore
score_each scores [] = []
score_each scores (d ∷ ds) = first_score scores d ++ score_each scores ds

unfoldable pub clean_rubric : List RubricScore → List RubricScore
clean_rubric scores = score_each scores rubric_dimensions

abbrev pub rubric_of : Option RubricAssessment → List RubricScore
rubric_of none = []
rubric_of (some a) = clean_rubric a.rubric

abbrev pub proposal_of : Option RubricAssessment → Option EvalDecision
proposal_of none = none
proposal_of (some a) = a.proposed_decision

abbrev pub same_decision : EvalDecision → EvalDecision → Bool
same_decision accept accept = true
same_decision refine refine = true
same_decision replan replan = true
same_decision abort abort = true
same_decision _ _ = false

module _ (fl : Floats) where
  open fl use {
    Float, zero_float, literal, sub, div, abs, is_finite, infinity, le as le_float, lt as lt_float,
    eq as eq_float,
  }

  -- `max(0.0, x)`
  abbrev at_least_zero : Float → Float
  at_least_zero x = if lt_float zero_float x then x else zero_float

  unfoldable pub shortfall : CriterionResult Float → Float → Float → Float
  shortfall result observed tolerance =
      let distance = abs (sub observed result.threshold) in
      if is_equality result.comparator then at_least_zero (sub distance tolerance) else distance

  abbrev gap_of_observed : CriterionResult Float → Float → Option Float → Float
  gap_of_observed result tolerance none = infinity
  gap_of_observed result tolerance (some observed) =
      if not (is_finite observed)
      then infinity
      else if eq_float result.threshold zero_float
      then shortfall result observed tolerance
      else div (shortfall result observed tolerance) (abs result.threshold)

  unfoldable pub relative_gap : CriterionResult Float → Float → Float
  unfolding shortfall
  relative_gap result tolerance =
      if result.passed then zero_float else gap_of_observed result tolerance result.observed

  -- `{c.id: c.tolerance for c in criteria}`: the last criterion of an id counts.
  unfoldable pub tolerances :
      List (String × Float) → List (SuccessCriterion Float) → List (String × Float)
  unfolding insert
  tolerances acc [] = acc
  tolerances acc (c ∷ cs) = tolerances (insert c.id c.tolerance acc) cs

  abbrev pub is_miss : CriterionResult Float → Bool
  is_miss r = r.required && not r.passed

  -- `min(gaps)`
  unfoldable pub min_float : Float → List Float → Float
  min_float x [] = x
  min_float x (y ∷ ys) = min_float (if lt_float y x then y else x) ys

  abbrev pub min_or_infinity : List Float → Float
  min_or_infinity [] = infinity
  min_or_infinity (x ∷ xs) = min_float x xs

  unfoldable pub nearest_gap : List (CriterionResult Float) → List (SuccessCriterion Float) → Float
  unfolding relative_gap tolerances lookup min_float
  nearest_gap results criteria =
      let table = tolerances [] criteria in
      min_or_infinity (
        map (λ r. relative_gap r (or_else (lookup r.criterion_id table) zero_float))
          (select is_miss results))

  -- `REFINE_GAP_CEILING`
  abbrev pub refine_gap_ceiling : Float
  refine_gap_ceiling = literal 1 4

  unfoldable pub decide :
      (passed clean : Bool) (gap : Float) (debug_iterations refines_granted replan_count : ℕ)
      → Budgets
      → EvalDecision × Option RunOutcome
  unfolding decision_table quality_spent replans_spent
  decide passed clean gap debug_iterations refines_granted replan_count budgets =
      decision_table passed clean (le_float gap refine_gap_ceiling)
        (quality_spent debug_iterations refines_granted budgets)
        (replans_spent replan_count budgets)

  -- The call of `decide` on the state of the run.
  unfoldable pub computed_decision :
      AgentState Float → List (CriterionResult Float) → Bool → EvalDecision × Option RunOutcome
  unfolding decide executed_cleanly nearest_gap refine_cycles
  computed_decision state results passed =
      decide passed (executed_cleanly state) (nearest_gap results (plan_criteria state.plan))
        state.debug_iterations (refine_cycles state.verdicts) state.replan_count
        (budgets_or_default state.budgets)

  unfoldable pub build_verdict :
      AgentState Float → Option RubricAssessment → Verdict Float × Option RunOutcome
  unfolding check_criteria observed_metrics computed_decision reconcile_decision clean_rubric
      replans_spent
  build_verdict state assessment =
      let (results, passed, score) =
        check_criteria fl (plan_criteria state.plan)
          (observed_metrics (last_metrics state.last_outcome)) in
      let (computed, run_outcome) = computed_decision state results passed in
      let decision =
        reconcile_decision computed (proposal_of assessment)
          (replans_spent state.replan_count (budgets_or_default state.budgets)) in
      (
        record {
          decision = decision;
          passed = passed;
          score = score;
          criteria_results = results;
          rubric = rubric_of assessment;
        },
        if same_decision decision computed then run_outcome else none,
      )

abbrev pub evaluated_step : Option PlanStep → List (String × StepStatus)
evaluated_step none = []
evaluated_step (some step) = if is_evaluate step.kind then (step.id, step_succeeded) ∷ [] else []

module _ {F : Type 0} where
  -- `_verdict_update`, with `_evaluate_step_status`.
  unfoldable pub verdict_update : AgentState F → Verdict F → Option RunOutcome → Update F
  unfolding next_pending_step
  verdict_update state verdict run_outcome = record no_update {
    verdict = some (some verdict);
    verdicts = verdict ∷ [];
    outcome = elim run_outcome [ none ↦ none | some o ↦ some (some o) ];
    step_status = evaluated_step (next_pending_step state);
  }
