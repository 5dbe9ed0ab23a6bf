-- ===== src/Engine/Nodes/Reporter.antt =====
-- The bodies that only pass a value on: backend/app/engine/nodes/init.py, mlops.py, reporter.py
-- and finalizer.py. What they write to disk, to MLflow and to the database is left out.
use autonomous_agentic_platf.Prelude.{
  ℕ, String, Bool, false, ◌&&◌, Option, none, some, if◌then◌else◌, or_else, is_some, Floats,
}
use autonomous_agentic_platf.Engine.State.{
  AgentState, Update, Budgets, Usage, no_usage, no_update, MLflowRef, SandboxOutcome,
}
use autonomous_agentic_platf.Engine.Criteria.{determine_outcome}
use autonomous_agentic_platf.Engine.Nodes.Envelope.{Attempt, returned, raised}

module _ {F : Type 0} where
  -- `state.get("budgets") or configurable.get("budgets") or default_budgets()`: `configured` is
  -- the second or the third. The clock reads `now` microseconds.
  unfoldable pub init_update : AgentState F → Budgets → ℕ → Update F
  init_update state configured now = record no_update {
    seed = some state.seed;
    task_kind = some state.task_kind;
    budgets = some (some (or_else state.budgets configured));
    usage = some (record no_usage { started_at = some now });
    debug_iterations = some 0;
    replan_count = some 0;
    cancel_requested = some state.cancel_requested;
  }

  abbrev has_metrics : Option (SandboxOutcome F) → Bool
  has_metrics none = false
  has_metrics (some outcome) = is_some outcome.metrics

  abbrev logged_update : Option MLflowRef → Update F
  logged_update none = no_update
  logged_update (some ref) = record no_update { mlflow = some (some ref) }

  -- `mlops_node`; `logged` is none where the MLflow call raised, which only leaves a note.
  unfoldable pub mlops_body : AgentState F → Option MLflowRef → Attempt F
  mlops_body state logged =
      if has_metrics state.last_outcome && is_some state.current_revision
      then returned (logged_update logged)
      else raised

  unfoldable pub report_update : String → Usage → Update F
  report_update markdown usage = record no_update {
    report_markdown = some (some markdown);
    usage = some usage;
  }

module _ (fl : Floats) where
  -- `finalise_run`, as far as it writes the state.
  unfoldable pub final_update : AgentState fl.Float → Update fl.Float
  unfolding determine_outcome
  final_update state = record no_update { outcome = some (some (determine_outcome fl state).0) }
