-- ===== src/Engine/Nodes/Planner/Validation.antt =====
-- `validate_plan` of backend/app/engine/nodes/planner.py and the vocabulary of metrics of
-- backend/app/engine/criteria.py.
use autonomous_agentic_platf.Prelude.{
  ℕ, ◌-◌, String, Bool, true, false, not, ◌&&◌, Option, none, some, List, [], ◌∷◌, ◌++◌, map,
  str_eq, leb, if◌then◌else◌, or_else, length, is_empty, any, contains, joined,
}
use text.Mathlib.Text.{starts_with, get?}
use Prim.Native.String.{len}
use autonomous_agentic_platf.Engine.State.{Plan, PlanStep, SuccessCriterion, is_train}

-- `KNOWN_METRICS`
abbrev pub known_metrics : List String
known_metrics =
    "accuracy" ∷ "balanced_accuracy" ∷ "f1_macro" ∷ "f1_weighted" ∷ "f1_binary" ∷ "precision_macro"
    ∷ "recall_macro" ∷ "roc_auc" ∷ "pr_auc" ∷ "log_loss" ∷ "matthews_corrcoef" ∷ "cohen_kappa"
    ∷ "rmse" ∷ "mae" ∷ "mape" ∷ "median_ae" ∷ "r2" ∷ "explained_variance" ∷ "smape" ∷ "mase"
    ∷ "silhouette" ∷ "calinski_harabasz" ∷ "davies_bouldin" ∷ []

-- `_ALLOWED_PREFIXES`
abbrev pub allowed_prefixes : List String
allowed_prefixes = "val_" ∷ "baseline_" ∷ "final_" ∷ []

-- `name[from:to]`
abbrev pub part : String → ℕ → ℕ → String
part name from to = or_else (get? name from to) ""

abbrev pub ends_with : String → String → Bool
ends_with name suffix = str_eq (part name (len name - len suffix) (len name)) suffix

-- `name[3:].rsplit("_", 1)[0]`, where the name ends with that suffix, whose only underscore is its
-- first character.
abbrev pub cv_base : String → String → String
cv_base name suffix = part name 3 (len name - len suffix)

unfoldable pub is_known_metric : String → Bool
is_known_metric name =
    if contains name known_metrics
    then true
    else if starts_with name "cv_" && ends_with name "_mean"
    then contains (cv_base name "_mean") known_metrics
    else if starts_with name "cv_" && ends_with name "_std"
    then contains (cv_base name "_std") known_metrics
    else any
        (λ prefix.
          starts_with name prefix && contains (part name (len prefix) (len name)) known_metrics)
        allowed_prefixes

-- The problems, in the place of their sentences.
pub data Problem : Type 0 where
  no_criteria : Problem
  none_required : Problem
  primary_unmeasured : (metric : String) → Problem
  unknown_metric : (criterion_id metric : String) → Problem
  wrong_step_count : (count : ℕ) → Problem
  unbound_train : (step_id : String) → Problem
  wrong_sha256 : (step_id : String) → Problem

abbrev pub problem_if : Bool → Problem → List Problem
problem_if true problem = problem ∷ []
problem_if false problem = []

-- `find_dataset`: an entry of the manifest, by its `sha256`, which may be absent.
abbrev pub Manifest : Type 0
Manifest = String → Option (Option String)

-- A train step without a binding, or with another `sha256` than the manifest has.
unfoldable pub dataset_problems : Manifest → PlanStep → List Problem
dataset_problems manifest step = if not (is_train step.kind) then [] else elim step.dataset [
  | none ↦ unbound_train step.id ∷ []
  | some binding ↦ elim (manifest binding.dataset_id) [
    | none ↦ []
    | some entry ↦
        let recorded = or_else entry "" in
        problem_if
          (not (str_eq recorded "")
            && not (str_eq binding.sha256 "")
            && not (str_eq recorded binding.sha256))
          (wrong_sha256 step.id)
  ]
]

module _ {F : Type 0} where
  unfoldable pub metric_problems : List (SuccessCriterion F) → List Problem
  metric_problems [] = []
  metric_problems (c ∷ criteria) =
      problem_if (not (is_known_metric c.metric)) (unknown_metric c.id c.metric)
      ++ metric_problems criteria

  -- The problems, by the check that finds them.
  unfoldable pub plan_checks : Manifest → Plan F → List (List Problem)
  unfolding metric_problems dataset_problems
  plan_checks manifest plan =
      problem_if (is_empty plan.success_criteria) no_criteria
      ∷ problem_if (not (any (λ c. c.required) plan.success_criteria)) none_required
      ∷ problem_if (not (contains plan.primary_metric (map (λ c. c.metric) plan.success_criteria)))
          (primary_unmeasured plan.primary_metric)
      ∷ metric_problems plan.success_criteria
      ∷ problem_if (not (leb 3 (length plan.steps) && leb (length plan.steps) 6))
          (wrong_step_count (length plan.steps))
      ∷ map (dataset_problems manifest) plan.steps

  unfoldable pub validate_plan : Manifest → Plan F → List Problem
  unfolding plan_checks
  validate_plan manifest plan = joined (plan_checks manifest plan)
