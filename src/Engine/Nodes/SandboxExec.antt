-- ===== src/Engine/Nodes/SandboxExec.antt =====
-- backend/app/engine/nodes/sandbox_exec.py: classify an execution and write its channels. What the
-- sandbox driver returns is an input; the events and the deliverables are left out.
pub mod Classes
use autonomous_agentic_platf.Prelude.{
  ◌||◌, [], ℕ, zero, String, Bool, true, false, not, ◌&&◌, Option, none, some, List, ◌∷◌, ◌++◌, map,
  str_eq, leb, ◌==◌, if◌then◌else◌, is_none, is_empty, lookup, ℤ, pos,
}
use Prim.Native.Char.{code}
use text.Mathlib.Text.{starts_with}
use autonomous_agentic_platf.Engine.State.{
  SandboxOutcome, Plan, PlanStep, Update, Classification, ValidationReport, SandboxProfileName,
  no_usage, no_update, clean, plan_step, AgentState, validation_rejected, Metrics, DatasetBinding,
  StepStatus, step_succeeded, SuccessCriterion, timeout, CodeRevision, oom, ErrorRecord,
  step_failed, is_clean, contract_violation, runtime_error, unknown_failure,
}
use autonomous_agentic_platf.Engine.Routing.{is_train_step}

-- The parts of `SandboxResult` (backend/app/services/sandbox.py) that the node reads.
pub record SandboxResult (F : Type 0) : Type 0 where
  pub profile : SandboxProfileName
  pub exit_code : Option ℤ
  pub timed_out : Bool
  pub oom_killed : Bool
  pub duration_ms : ℕ
  pub max_rss_bytes : Option ℕ
  pub stdout_tail : String
  pub stderr_tail : String
  pub metrics : Option (Metrics F)
  pub metrics_errors : List String
  pub validation : ValidationReport

-- A message of the checks on `metrics.json`, by what it complains of.
pub data Problem : Type 0 where
  reported : String → Problem
  missing_metric : (criterion_id : String) → Problem
  wrong_dataset wrong_sha256 : Problem

-- The characters at which `splitlines` breaks a line.
abbrev is_line_break : ℕ → Bool
is_line_break c =
    leb 10 c && leb c 13 || leb 0x1c c && leb c 0x1e || c == 0x85 || c == 0x2028 || c == 0x2029

-- `needle in s`
unfoldable pub is_infix : String → String → Bool
is_infix needle String.[] = starts_with String.[] needle
is_infix needle (String.◌∷◌ c s) = starts_with (String.◌∷◌ c s) needle || is_infix needle s

-- Some line of the text starts with `prefix`; `at_start` holds at the start of a line.
unfoldable pub line_starts_with : String → Bool → String → Bool
line_starts_with prefix at_start String.[] = false
line_starts_with prefix at_start (String.◌∷◌ c s) =
    at_start && starts_with (String.◌∷◌ c s) prefix
    || line_starts_with prefix (is_line_break (code c)) s

unfoldable pub looks_like_traceback : String → Bool
unfolding is_infix line_starts_with
looks_like_traceback stderr =
    is_infix "Traceback (most recent call last)" stderr || line_starts_with "  File \"" true stderr

-- `result.exit_code == 0`
abbrev pub exited_zero : Option ℤ → Bool
exited_zero (some (pos zero)) = true
exited_zero _ = false

abbrev bound_dataset : Option PlanStep → Option DatasetBinding
bound_dataset none = none
bound_dataset (some step) = step.dataset

abbrev reports_other : Option String → String → Bool
reports_other none expected = true
reports_other (some id) expected = not (str_eq id expected)

-- `reported.get("sha256") and reported["sha256"] != binding.sha256`
abbrev reports_other_sha256 : Option String → String → Bool
reports_other_sha256 none expected = false
reports_other_sha256 (some sha) expected = not (str_eq sha "") && not (str_eq sha expected)

abbrev status_update : Option PlanStep → Bool → List (String × StepStatus)
status_update none succeeded = []
status_update (some step) succeeded =
    (step.id, if succeeded then step_succeeded else step_failed) ∷ []

module _ {F : Type 0} where
  unfoldable pub classify : SandboxResult F → Bool → List Problem → Classification
  unfolding looks_like_traceback
  classify result is_train contract_problems =
      if not result.validation.passed
      then validation_rejected
      else if result.timed_out
      then timeout
      else if result.oom_killed
      then oom
      else if exited_zero result.exit_code
      then if is_train && (is_none result.metrics || not (is_empty contract_problems))
        then contract_violation
        else clean
      else if looks_like_traceback result.stderr_tail
      then runtime_error
      else unknown_failure

  -- `check_required_metrics` of backend/app/schemas/metrics.py
  unfoldable pub check_required_metrics : Metrics F → List (SuccessCriterion F) → List Problem
  check_required_metrics payload [] = []
  check_required_metrics payload (c ∷ cs) =
      let rest = check_required_metrics payload cs in
      if is_none (lookup c.metric payload.metrics) then missing_metric c.id ∷ rest else rest

  -- `check_dataset_binding` of the same file.
  unfoldable pub check_dataset_binding : Metrics F → Option DatasetBinding → List Problem
  check_dataset_binding payload none = []
  check_dataset_binding payload (some binding) =
      (if reports_other payload.dataset_id binding.dataset_id then wrong_dataset ∷ [] else [])
      ++ (if not (str_eq binding.sha256 "")
            && reports_other_sha256 payload.dataset_sha256 binding.sha256
          then wrong_sha256 ∷ []
          else [])

  -- The checks that need the plan; a binding that is absent adds nothing.
  abbrev plan_problems : Option (Metrics F) → Option (Plan F) → Option PlanStep → List Problem
  plan_problems none plan step = []
  plan_problems (some payload) none step = []
  plan_problems (some payload) (some plan) step =
      check_required_metrics payload plan.success_criteria
      ++ check_dataset_binding payload (bound_dataset step)

  -- `_contract_problems`
  unfoldable pub contract_problems :
      SandboxResult F → Option (Plan F) → Option PlanStep → List Problem
  unfolding check_required_metrics check_dataset_binding lookup
  contract_problems result plan step =
      map reported result.metrics_errors ++ plan_problems result.metrics plan step

  abbrev pub current_step : AgentState F → Option PlanStep
  current_step state = elim state.plan [
    | none ↦ none
    | some plan ↦ plan_step plan state.current_step_id
  ]

  abbrev pub classification_of : AgentState F → SandboxResult F → Classification
  classification_of state result =
      classify result (is_train_step (current_step state))
        (contract_problems result state.plan (current_step state))

  -- The update of the node, `error` being the record that `build_error` makes of a failure.
  unfoldable pub execution_update :
      AgentState F → CodeRevision → SandboxResult F → ErrorRecord → Update F
  unfolding classify contract_problems plan_step
  execution_update state revision result error =
      let classification = classification_of state result in
      let outcome : SandboxOutcome F = record {
        profile = result.profile;
        classification = classification;
        exit_code = result.exit_code;
        duration_ms = result.duration_ms;
        max_rss_bytes = result.max_rss_bytes;
        stdout_tail = result.stdout_tail;
        stderr_tail = result.stderr_tail;
        metrics = if is_clean classification then result.metrics else none;
        validation = result.validation;
        revision = revision.revision;
      } in
      record no_update {
        last_outcome = some (some outcome);
        outcomes = outcome ∷ [];
        usage = some (record no_usage { sandbox_executions = 1 });
        step_status = status_update (current_step state) (is_clean classification);
        last_error = if is_clean classification then none else some (some error);
        errors = if is_clean classification then [] else error ∷ [];
      }
