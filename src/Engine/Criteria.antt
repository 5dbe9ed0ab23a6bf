-- ===== src/Engine/Criteria.antt =====
-- `check_criteria` and `determine_outcome` of backend/app/engine/criteria.py, with
-- `observed_metrics` of backend/app/schemas/metrics.py.
pub mod Meets
pub mod Outcome
use autonomous_agentic_platf.Prelude.{
  ◌||◌, [], Floats, lookup, List, Option, String, Bool, ◌∷◌, if◌then◌else◌, map, all, false, not,
  some, none,
}
use autonomous_agentic_platf.Engine.State.{
  gte, lte, gt, lt, eq, approx, other, Plan, SuccessCriterion, AgentState, Comparator,
  SandboxOutcome, MetricValue, Note, CriterionResult, Metrics, RunOutcome, succeeded, failed,
  metric_absent, cancelled, partial, no_note, float, is_clean, int, not_finite, boolean,
}

-- `dict((payload or {}).get("metrics") or {})`
unfoldable pub observed_metrics : {F : Type 0} → Option (Metrics F) → List (String × MetricValue F)
observed_metrics none = []
observed_metrics (some payload) = payload.metrics

abbrev pub plan_criteria : {F : Type 0} → Option (Plan F) → List (SuccessCriterion F)
plan_criteria none = []
plan_criteria (some plan) = plan.success_criteria

module _ (fl : Floats) where
  open fl use {
    Float, zero_float, of_int, add, sub, div, abs, is_finite, le as le_float, lt as lt_float,
    eq as eq_float,
  }

  -- `COMPARATORS`
  unfoldable pub compare_float : Comparator → Float → Float → Float → Bool
  compare_float gte o t tol = le_float t o
  compare_float lte o t tol = le_float o t
  compare_float gt o t tol = lt_float t o
  compare_float lt o t tol = lt_float o t
  compare_float eq o t tol = eq_float o t
  compare_float approx o t tol = le_float (abs (sub o t)) tol

  -- `float(raw) if isinstance(raw, (int, float)) and not isinstance(raw, bool) else None`
  abbrev pub as_float : Option (MetricValue Float) → Option Float
  as_float none = none
  as_float (some (float x)) = some x
  as_float (some (int n)) = some (of_int n)
  as_float (some (boolean b)) = none
  as_float (some other) = none

  -- The note and the verdict of one criterion.
  unfoldable pub judge : SuccessCriterion Float → Option Float → Note × Bool
  unfolding compare_float
  judge c none = (metric_absent, false)
  judge c (some observed) =
      if is_finite observed
      then (no_note, compare_float c.comparator observed c.threshold c.tolerance)
      else (not_finite, false)

  unfoldable pub check_one :
      List (String × MetricValue Float) → SuccessCriterion Float → CriterionResult Float
  unfolding judge
  check_one metrics c =
      let observed = as_float (lookup c.metric metrics) in
      let (note, passed) = judge c observed in
      record {
        criterion_id = c.id;
        metric = c.metric;
        comparator = c.comparator;
        threshold = c.threshold;
        observed = observed;
        passed = passed;
        required = c.required;
        weight = c.weight;
        note = note;
      }

  unfoldable pub total_weight : Float → List (CriterionResult Float) → Float
  total_weight acc [] = acc
  total_weight acc (r ∷ rs) = total_weight (add acc r.weight) rs

  unfoldable pub earned_weight : Float → List (CriterionResult Float) → Float
  earned_weight acc [] = acc
  earned_weight acc (r ∷ rs) = earned_weight (if r.passed then add acc r.weight else acc) rs

  -- `all(r.passed for r in results if r.required)`
  abbrev pub all_required : List (CriterionResult Float) → Bool
  all_required results = all (λ r. not r.required || r.passed) results

  unfoldable pub weighted_score : List (CriterionResult Float) → Float
  unfolding total_weight earned_weight
  weighted_score results =
      let total = total_weight zero_float results in
      if eq_float total zero_float then zero_float else div (earned_weight zero_float results) total

  unfoldable pub check_criteria :
      List (SuccessCriterion Float)
      → List (String × MetricValue Float)
      → List (CriterionResult Float) × Bool × Float
  unfolding check_one weighted_score
  check_criteria criteria metrics =
      let results = map (check_one metrics) criteria in
      (results, all_required results, weighted_score results)

  -- The outcome of a run whose last execution was clean.
  unfoldable pub judged_outcome :
      List (SuccessCriterion Float)
      → Option (Metrics Float)
      → RunOutcome × List (CriterionResult Float)
  unfolding check_criteria observed_metrics
  judged_outcome [] metrics = (succeeded, [])
  judged_outcome (c ∷ cs) metrics =
      let (results, passed, score) = check_criteria (c ∷ cs) (observed_metrics metrics) in
      (if passed then succeeded else partial, results)

  abbrev pub outcome_after :
      Option (SandboxOutcome Float)
      → List (SuccessCriterion Float)
      → RunOutcome × List (CriterionResult Float)
  outcome_after none criteria = (failed, [])
  outcome_after (some last) criteria =
      if is_clean last.classification then judged_outcome criteria last.metrics else (failed, [])

  unfoldable pub determine_outcome : AgentState Float → RunOutcome × List (CriterionResult Float)
  unfolding judged_outcome
  determine_outcome state =
      if state.cancel_requested
      then (cancelled, [])
      else outcome_after state.last_outcome (plan_criteria state.plan)
