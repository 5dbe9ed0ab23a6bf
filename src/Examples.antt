-- ===== src/Examples.antt =====
-- Concrete numbers, plans, answers and states, on which the theorems are tried.
pub mod Verdicts
pub mod Nodes
pub mod Runs
pub mod Worker
pub mod Locks
pub mod Backfill
pub mod Events
pub mod Socket
pub mod Access
pub mod Gate
pub mod Structured
pub mod Sandbox
use autonomous_agentic_platf.Prelude.{
  [], ℕ, ◌+◌, ◌-◌, ◌*◌, String, Bool, true, false, not, none, some, ◌∷◌, ltb, leb, ◌==◌,
  if◌then◌else◌, ℤ, pos, negsuc, Floats,
}
use Prim.Native.Nat.{◌/◌}
use autonomous_agentic_platf.Engine.State.{
  AgentState, Plan, PlanStep, SuccessCriterion, gte, train, pending, Seed, fresh, ErrorRecord,
  runtime, ValidationReport, train_profile, SandboxOutcome, Metrics, float, clean, runtime_error,
  default_budgets, CodeRevision, Diagnosis, ContextPack, sufficient,
}
use autonomous_agentic_platf.Engine.Nodes.SandboxExec.{SandboxResult}
use autonomous_agentic_platf.Engine.Graph.{Turn}
use autonomous_agentic_platf.Engine.Graph.Bodies.{Answers}

-- The integer a - b.
abbrev difference : ℕ → ℕ → ℤ
difference a b = if leb b a then pos (a - b) else negsuc (b - a - 1)

abbrev plus : ℤ → ℤ → ℤ
plus (pos a) (pos b) = pos (a + b)
plus (pos a) (negsuc b) = difference a (b + 1)
plus (negsuc a) (pos b) = difference b (a + 1)
plus (negsuc a) (negsuc b) = negsuc (a + b + 1)

abbrev negated : ℤ → ℤ
negated (pos a) = difference 0 a
negated (negsuc a) = pos (a + 1)

abbrev magnitude : ℤ → ℕ
magnitude (pos a) = a
magnitude (negsuc a) = a + 1

abbrev is_negative : ℤ → Bool
is_negative (pos a) = false
is_negative (negsuc a) = true

abbrev minus : ℤ → ℤ → ℤ
minus x y = plus x (negated y)

abbrev times_100 : ℤ → ℤ
times_100 (pos a) = pos (a * 100)
times_100 (negsuc a) = negsuc (a * 100 + 99)

-- Towards zero.
abbrev quotient : ℤ → ℤ → ℤ
quotient x y =
    let size = magnitude x * 100 / magnitude y in
    if is_negative x then negated (pos size) else pos size

-- Floats with two decimals: the number of hundredths. 10,000 stands for infinity.
abbrev pub hundredths : Floats
hundredths = record {
  Float = ℤ;
  zero_float = pos 0;
  of_int = times_100;
  literal = λ p q. pos (p * 100 / q);
  add = plus;
  sub = minus;
  div = quotient;
  abs = λ x. pos (magnitude x);
  is_finite = λ x. ltb (magnitude x) 1_000_000;
  infinity = pos 1_000_000;
  le = λ x y. not (is_negative (minus y x));
  lt = λ x y. is_negative (minus x y);
  eq = λ x y. magnitude (minus x y) == 0;
}

abbrev pub train_step : PlanStep
train_step = record {
  id = "fit";
  index = 0;
  title = "Fit the model";
  kind = train;
  depends_on = [];
  dataset = none;
  status = pending;
  attempts = 0;
}

-- At least 0.90 accuracy.
abbrev pub accuracy : SuccessCriterion ℤ
accuracy = record {
  id = "c1";
  metric = "accuracy";
  comparator = gte;
  threshold = pos 90;
  tolerance = pos 0;
  required = true;
  weight = pos 100;
}

abbrev pub one_step_plan : Plan ℤ
one_step_plan = record {
  steps = train_step ∷ [];
  success_criteria = accuracy ∷ [];
  task_kind = "classification";
  primary_metric = "accuracy";
  assumptions = [];
  revision = 1;
}

abbrev pub metrics_of : ℕ → Metrics ℤ
metrics_of x = record {
  metrics = ("accuracy", float (pos x)) ∷ [];
  dataset_id = none;
  dataset_sha256 = none;
}

abbrev pub passed_validation : ValidationReport
passed_validation = record { passed = true; rejections = [] }

abbrev pub clean_outcome : ℕ → SandboxOutcome ℤ
clean_outcome x = record {
  profile = train_profile;
  classification = clean;
  exit_code = some (pos 0);
  duration_ms = 40;
  max_rss_bytes = none;
  stdout_tail = "";
  stderr_tail = "";
  metrics = some (metrics_of x);
  validation = passed_validation;
  revision = 1;
}

abbrev pub failed_outcome : SandboxOutcome ℤ
failed_outcome = record (clean_outcome 0) { classification = runtime_error; metrics = none }

abbrev pub error_of : String → ErrorRecord
error_of fingerprint = record {
  kind = runtime;
  fingerprint = fingerprint;
  exception_type = "ValueError";
  message = "bad shape";
  traceback = "";
  file = none;
  line = none;
  revision = 1;
}

abbrev pub first_revision : CodeRevision
first_revision = record {
  revision = 1;
  content = "print(1)";
  requirements = [];
  sha256 = "ab";
  addresses_error = none;
}

abbrev pub a_seed : Seed
a_seed = record { run_id = "r1"; prompt = "classify" }

-- A run with a plan, before its execution.
abbrev pub planned_state : AgentState ℤ
planned_state = record (fresh a_seed "classification") {
  plan = some one_step_plan;
  current_step_id = some "fit";
  current_revision = some first_revision;
  budgets = some default_budgets;
}

-- After an execution with this accuracy.
abbrev pub executed_state : ℕ → AgentState ℤ
executed_state x = record planned_state { last_outcome = some (clean_outcome x) }

-- After an execution that failed.
abbrev pub failed_state : AgentState ℤ
failed_state = record planned_state {
  last_outcome = some failed_outcome;
  last_error = some (error_of "f");
  errors = error_of "f" ∷ error_of "f" ∷ error_of "f" ∷ [];
}

abbrev pub a_diagnosis : Diagnosis ℤ
a_diagnosis = record {
  error_fingerprint = "f";
  root_cause = "shape";
  evidence = "line 3" ∷ [];
  fix_strategy = "reshape";
  targeted_changes = [];
  prior_art = [];
  confidence = pos 80;
  requires_replan = false;
  requires_research = false;
}

abbrev pub a_pack : ContextPack ℤ
a_pack = record {
  query_plan = [];
  chunks = [];
  key_facts = [];
  api_signatures = [];
  citations = [];
  sufficiency = sufficient;
  gaps = [];
}

abbrev pub result_of : ℤ → ℕ → SandboxResult ℤ
result_of exit_code x = record {
  profile = train_profile;
  exit_code = some exit_code;
  timed_out = false;
  oom_killed = false;
  duration_ms = 40;
  max_rss_bytes = none;
  stdout_tail = "";
  stderr_tail = "";
  metrics = some (metrics_of x);
  metrics_errors = [];
  validation = passed_validation;
}

-- Everything answers, and the sandbox exits with this code.
abbrev pub answers_of : ℤ → Answers ℤ
answers_of exit_code = record {
  configured_budgets = default_budgets;
  clock = 5;
  planned = some one_step_plan;
  researched = some a_pack;
  coded = some (record { code = some "print(1)"; requirements = []; addresses_error = none });
  sha256 = "ab";
  executed = some (result_of exit_code 93);
  built_error = error_of "f";
  logged = none;
  diagnosed = some a_diagnosis;
  prior_art = [];
  blank = λ t. false;
  assessed = none;
  written = some "done";
  fallback_text = some "done";
  disk_ready = true;
  spend = record { tokens_in = 10; tokens_out = 5; llm_calls = 1 };
}

abbrev pub turn_of : ℤ → Turn ℤ
turn_of exit_code = record { answers = λ k. answers_of exit_code; retries = 2; now = 6 }
