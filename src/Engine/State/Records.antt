-- ===== src/Engine/State/Records.antt =====
-- The value objects of backend/app/engine/state.py (lines 143 to 383), without the fields that
-- hold prose for a prompt or a page. `F` is the type of Python's floats.
use autonomous_agentic_platf.Prelude.{ℕ, ◌+◌, Bool, String, Option, List, ℤ}
use autonomous_agentic_platf.Engine.State.Enums.{
  StepStatus, StepKind, ErrorKind, EvalDecision, Classification, SandboxProfileName, Comparator,
  Sufficiency,
}

pub record SuccessCriterion (F : Type 0) : Type 0 where
  pub id : String
  pub metric : String
  pub comparator : Comparator
  pub threshold : F
  pub tolerance : F
  pub required : Bool
  pub weight : F

-- Why a criterion failed without a comparison (`note`).
pub data Note : Type 0 where
  no_note metric_absent not_finite : Note

pub record CriterionResult (F : Type 0) : Type 0 where
  pub criterion_id : String
  pub metric : String
  pub comparator : Comparator
  pub threshold : F
  pub observed : Option F
  pub passed : Bool
  pub required : Bool
  pub weight : F
  pub note : Note

pub record DatasetBinding : Type 0 where
  pub dataset_id : String
  pub path : String
  pub sha256 : String

pub record PlanStep : Type 0 where
  pub id : String
  pub index : ℕ
  pub title : String
  pub kind : StepKind
  pub depends_on : List String
  pub dataset : Option DatasetBinding
  pub status : StepStatus
  pub attempts : ℕ

pub record Plan (F : Type 0) : Type 0 where
  pub steps : List PlanStep
  pub success_criteria : List (SuccessCriterion F)
  pub task_kind : String
  pub primary_metric : String
  pub assumptions : List String
  pub revision : ℕ

pub record RetrievedChunk (F : Type 0) : Type 0 where
  pub point_id : String
  pub collection : String
  pub score : F
  pub source_uri : String
  pub text : String

pub record ContextPack (F : Type 0) : Type 0 where
  pub query_plan : List String
  pub chunks : List (RetrievedChunk F)
  pub key_facts : List String
  pub api_signatures : List String
  pub citations : List (String × List String)
  pub sufficiency : Sufficiency
  pub gaps : List String

pub record CodeRevision : Type 0 where
  pub revision : ℕ
  pub content : String
  pub requirements : List String
  pub sha256 : String
  pub addresses_error : Option String

pub record ValidationReport : Type 0 where
  pub passed : Bool
  pub rejections : List String

pub record ErrorRecord : Type 0 where
  pub kind : ErrorKind
  pub fingerprint : String
  pub exception_type : String
  pub message : String
  pub traceback : String
  pub file : Option String
  pub line : Option ℕ
  pub revision : ℕ

-- One value of `metrics.json`'s `metrics` object, a JSON value.
pub data MetricValue (F : Type 0) : Type 0 where
  float : F → MetricValue F
  int : ℤ → MetricValue F
  boolean : Bool → MetricValue F
  other : MetricValue F

-- The parts of a validated `metrics.json` that the engine reads.
pub record Metrics (F : Type 0) : Type 0 where
  pub metrics : List (String × MetricValue F)
  pub dataset_id : Option String
  pub dataset_sha256 : Option String

pub record SandboxOutcome (F : Type 0) : Type 0 where
  pub profile : SandboxProfileName
  pub classification : Classification
  pub exit_code : Option ℤ
  pub duration_ms : ℕ
  pub max_rss_bytes : Option ℕ
  pub stdout_tail : String
  pub stderr_tail : String
  pub metrics : Option (Metrics F)
  pub validation : ValidationReport
  pub revision : ℕ

pub record Diagnosis (F : Type 0) : Type 0 where
  pub error_fingerprint : String
  pub root_cause : String
  pub evidence : List String
  pub fix_strategy : String
  pub targeted_changes : List String
  pub prior_art : List String
  pub confidence : F
  pub requires_replan : Bool
  pub requires_research : Bool

pub record MLflowRef : Type 0 where
  pub experiment_id : String
  pub run_id : String

pub data Dimension : Type 0 where
  methodology code_quality metric_validity reproducibility goal_alignment : Dimension

pub record RubricScore : Type 0 where
  pub dimension : Dimension
  pub score : ℕ

pub record Verdict (F : Type 0) : Type 0 where
  pub decision : EvalDecision
  pub passed : Bool
  pub score : F
  pub criteria_results : List (CriterionResult F)
  pub rubric : List RubricScore

pub record Budgets : Type 0 where
  pub max_debug_iterations : ℕ
  pub max_replans : ℕ
  pub max_node_visits : ℕ
  pub max_sandbox_executions : ℕ
  pub wallclock_seconds : ℕ
  pub max_tokens : ℕ

-- `Budgets()`
abbrev pub default_budgets : Budgets
default_budgets = record {
  max_debug_iterations = 4;
  max_replans = 2;
  max_node_visits = 60;
  max_sandbox_executions = 12;
  wallclock_seconds = 1800;
  max_tokens = 250_000;
}

-- `started_at` is in microseconds, the resolution of `datetime`.
pub record Usage : Type 0 where
  pub tokens_in : ℕ
  pub tokens_out : ℕ
  pub llm_calls : ℕ
  pub node_visits : ℕ
  pub sandbox_executions : ℕ
  pub started_at : Option ℕ

-- `Usage()`
abbrev pub no_usage : Usage
no_usage = record {
  tokens_in = 0;
  tokens_out = 0;
  llm_calls = 0;
  node_visits = 0;
  sandbox_executions = 0;
  started_at = Option.none;
}

abbrev pub tokens_total : Usage → ℕ
tokens_total u = u.tokens_in + u.tokens_out
