-- ===== src/Engine/State/Channels.antt =====
-- `AgentState` of backend/app/engine/state.py, its reducers, and how the graph folds the update
-- of a node into the channels. A channel that is absent and one that holds `None` read the same
-- (`state.get`), and an absent history reads as an empty one, so a channel is an `Option` or a list.
use autonomous_agentic_platf.Prelude.{
  [], ℕ, ◌+◌, Bool, false, Option, none, some, List, ◌++◌, String, merge, or_else, is_some,
  if◌then◌else◌,
}
use autonomous_agentic_platf.Engine.State.Enums.{StepStatus, RunPhase, RunOutcome}
use autonomous_agentic_platf.Engine.State.Records.{
  Plan, ContextPack, CodeRevision, SandboxOutcome, ErrorRecord, Diagnosis, MLflowRef, Verdict,
  Budgets, Usage,
}

-- The identity of a run, written once at the graph's entry.
pub record Seed : Type 0 where
  pub run_id : String
  pub prompt : String

pub record AgentState (F : Type 0) : Type 0 where
  pub seed : Seed
  pub task_kind : String
  pub plan : Option (Plan F)
  pub plan_history : List (Plan F)
  pub current_step_id : Option String
  pub step_status : List (String × StepStatus)
  pub context_pack : Option (ContextPack F)
  pub context_history : List (ContextPack F)
  pub current_revision : Option CodeRevision
  pub code_revisions : List CodeRevision
  pub last_outcome : Option (SandboxOutcome F)
  pub outcomes : List (SandboxOutcome F)
  pub last_error : Option ErrorRecord
  pub errors : List ErrorRecord
  pub last_diagnosis : Option (Diagnosis F)
  pub diagnoses : List (Diagnosis F)
  pub mlflow : Option MLflowRef
  pub verdict : Option (Verdict F)
  pub verdicts : List (Verdict F)
  pub report_markdown : Option String
  pub outcome : Option RunOutcome
  pub phase : Option RunPhase
  pub debug_iterations : ℕ
  pub replan_count : ℕ
  pub budgets : Option Budgets
  pub usage : Option Usage
  pub cancel_requested : Bool

-- What a node returns: `none` for a channel that the node does not write. A history takes the
-- entries that are appended to it.
pub record Update (F : Type 0) : Type 0 where
  pub seed : Option Seed
  pub task_kind : Option String
  pub plan : Option (Option (Plan F))
  pub plan_history : List (Plan F)
  pub current_step_id : Option (Option String)
  pub step_status : List (String × StepStatus)
  pub context_pack : Option (Option (ContextPack F))
  pub context_history : List (ContextPack F)
  pub current_revision : Option (Option CodeRevision)
  pub code_revisions : List CodeRevision
  pub last_outcome : Option (Option (SandboxOutcome F))
  pub outcomes : List (SandboxOutcome F)
  pub last_error : Option (Option ErrorRecord)
  pub errors : List ErrorRecord
  pub last_diagnosis : Option (Option (Diagnosis F))
  pub diagnoses : List (Diagnosis F)
  pub mlflow : Option (Option MLflowRef)
  pub verdict : Option (Option (Verdict F))
  pub verdicts : List (Verdict F)
  pub report_markdown : Option (Option String)
  pub outcome : Option (Option RunOutcome)
  pub phase : Option (Option RunPhase)
  pub debug_iterations : Option ℕ
  pub replan_count : Option ℕ
  pub budgets : Option (Option Budgets)
  pub usage : Option Usage
  pub cancel_requested : Option Bool

-- A channel without a reducer: what a node wrote, or else what was there.
abbrev pub last_write_wins : {A : Type 0} → A → Option A → A
last_write_wins current new = or_else new current

-- A node that appends one value writes a list of one.
abbrev pub append : {A : Type 0} → List A → List A → List A
append current new = current ++ new

unfoldable pub merge_usage : Option Usage → Usage → Usage
merge_usage none new = new
merge_usage (some current) new = record {
  tokens_in = current.tokens_in + new.tokens_in;
  tokens_out = current.tokens_out + new.tokens_out;
  llm_calls = current.llm_calls + new.llm_calls;
  node_visits = current.node_visits + new.node_visits;
  sandbox_executions = current.sandbox_executions + new.sandbox_executions;
  started_at = if is_some current.started_at then current.started_at else new.started_at;
}

unfoldable pub merge_step_status :
    List (String × StepStatus) → List (String × StepStatus) → List (String × StepStatus)
unfolding merge
merge_step_status current new = merge current new

abbrev pub merge_usage_channel : Option Usage → Option Usage → Option Usage
merge_usage_channel current none = current
merge_usage_channel current (some new) = some (merge_usage current new)

module _ {F : Type 0} where
  unfoldable pub apply_update : AgentState F → Update F → AgentState F
  apply_update s u = record {
    seed = last_write_wins s.seed u.seed;
    task_kind = last_write_wins s.task_kind u.task_kind;
    plan = last_write_wins s.plan u.plan;
    plan_history = append s.plan_history u.plan_history;
    current_step_id = last_write_wins s.current_step_id u.current_step_id;
    step_status = merge_step_status s.step_status u.step_status;
    context_pack = last_write_wins s.context_pack u.context_pack;
    context_history = append s.context_history u.context_history;
    current_revision = last_write_wins s.current_revision u.current_revision;
    code_revisions = append s.code_revisions u.code_revisions;
    last_outcome = last_write_wins s.last_outcome u.last_outcome;
    outcomes = append s.outcomes u.outcomes;
    last_error = last_write_wins s.last_error u.last_error;
    errors = append s.errors u.errors;
    last_diagnosis = last_write_wins s.last_diagnosis u.last_diagnosis;
    diagnoses = append s.diagnoses u.diagnoses;
    mlflow = last_write_wins s.mlflow u.mlflow;
    verdict = last_write_wins s.verdict u.verdict;
    verdicts = append s.verdicts u.verdicts;
    report_markdown = last_write_wins s.report_markdown u.report_markdown;
    outcome = last_write_wins s.outcome u.outcome;
    phase = last_write_wins s.phase u.phase;
    debug_iterations = last_write_wins s.debug_iterations u.debug_iterations;
    replan_count = last_write_wins s.replan_count u.replan_count;
    budgets = last_write_wins s.budgets u.budgets;
    usage = merge_usage_channel s.usage u.usage;
    cancel_requested = last_write_wins s.cancel_requested u.cancel_requested;
  }

  -- `{}`, the update that writes no channel.
  abbrev pub no_update : Update F
  no_update = record {
    seed = none;
    task_kind = none;
    plan = none;
    plan_history = [];
    current_step_id = none;
    step_status = [];
    context_pack = none;
    context_history = [];
    current_revision = none;
    code_revisions = [];
    last_outcome = none;
    outcomes = [];
    last_error = none;
    errors = [];
    last_diagnosis = none;
    diagnoses = [];
    mlflow = none;
    verdict = none;
    verdicts = [];
    report_markdown = none;
    outcome = none;
    phase = none;
    debug_iterations = none;
    replan_count = none;
    budgets = none;
    usage = none;
    cancel_requested = none;
  }

  -- The state that the worker starts a run with.
  abbrev pub fresh : Seed → String → AgentState F
  fresh seed task_kind = record {
    seed = seed;
    task_kind = task_kind;
    plan = none;
    plan_history = [];
    current_step_id = none;
    step_status = [];
    context_pack = none;
    context_history = [];
    current_revision = none;
    code_revisions = [];
    last_outcome = none;
    outcomes = [];
    last_error = none;
    errors = [];
    last_diagnosis = none;
    diagnoses = [];
    mlflow = none;
    verdict = none;
    verdicts = [];
    report_markdown = none;
    outcome = none;
    phase = none;
    debug_iterations = 0;
    replan_count = 0;
    budgets = none;
    usage = none;
    cancel_requested = false;
  }
