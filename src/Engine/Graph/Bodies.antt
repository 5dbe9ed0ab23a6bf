-- ===== src/Engine/Graph/Bodies.antt =====
-- What each node's body does with what the world answers it.
use autonomous_agentic_platf.Prelude.{
  ◌||◌, ℕ, String, Bool, false, not, Option, none, some, List, str_eq, if◌then◌else◌, is_some,
  is_empty, Floats,
}
use autonomous_agentic_platf.Engine.NodeName.{
  NodeName, init, planner, researcher, coder, sandbox_exec, debugger, mlops, evaluator, reporter,
  finalizer,
}
use autonomous_agentic_platf.Engine.State.{
  AgentState, Update, Plan, ContextPack, Budgets, Usage, no_usage, ErrorRecord, MLflowRef,
  Diagnosis, CodeRevision, no_update,
}
use autonomous_agentic_platf.Engine.Nodes.Envelope.{Attempt, returned, raised}
use autonomous_agentic_platf.Engine.Nodes.SandboxExec.{
  SandboxResult, execution_update, current_step,
}
use autonomous_agentic_platf.Engine.Nodes.Debugger.{reconcile, diagnosis_update, minimal_diagnosis}
use autonomous_agentic_platf.Engine.Nodes.Researcher.{research_update, degraded_pack}
use autonomous_agentic_platf.Engine.Nodes.Planner.{plan_update}
use autonomous_agentic_platf.Engine.Nodes.Coder.{Answer, new_revision, code_update}
use autonomous_agentic_platf.Engine.Nodes.Reporter.{
  init_update, mlops_body, report_update, final_update,
}
use autonomous_agentic_platf.Engine.Evaluator.{RubricAssessment, build_verdict, verdict_update}

-- What the calls of a model cost.
pub record Spend : Type 0 where
  pub tokens_in : ℕ
  pub tokens_out : ℕ
  pub llm_calls : ℕ

abbrev pub usage_of : Spend → Usage
usage_of s = record no_usage {
  tokens_in = s.tokens_in;
  tokens_out = s.tokens_out;
  llm_calls = s.llm_calls;
}

-- What the models, the sandbox, the stores, the clock and the disk answer during one attempt of a
-- node, `none` where they raise. A node reads its own field.
pub record Answers (F : Type 0) : Type 0 where
  pub configured_budgets : Budgets
  pub clock : ℕ
  pub planned : Option (Plan F)
  pub researched : Option (ContextPack F)
  pub coded : Option Answer
  pub sha256 : String
  pub executed : Option (SandboxResult F)
  pub built_error : ErrorRecord
  pub logged : Option MLflowRef
  pub diagnosed : Option (Diagnosis F)
  pub prior_art : List String
  pub blank : String → Bool
  pub assessed : Option RubricAssessment
  pub written : Option String
  pub fallback_text : Option String
  pub disk_ready : Bool
  pub spend : Spend

module _ {F : Type 0} where
  -- `plan.step(state.get("current_step_id")) or plan.steps[0]` finds a step.
  abbrev pub has_step : AgentState F → Bool
  has_step state = elim state.plan [
    | none ↦ false
    | some plan ↦ is_some (current_step state) || not (is_empty plan.steps)
  ]

  abbrev planner_body : Answers F → AgentState F → Attempt F
  planner_body a state = elim a.planned [
    | none ↦ raised
    | some plan ↦ returned (plan_update state plan (usage_of a.spend))
  ]

  abbrev researcher_body : Answers F → Attempt F
  researcher_body a = elim a.researched [
    | none ↦ raised
    | some pack ↦ returned (research_update pack (usage_of a.spend))
  ]

  abbrev pub coded_attempt : Answers F → AgentState F → Option Answer → Attempt F
  coded_attempt a state none = raised
  coded_attempt a state (some answer) = elim answer.code [
    | none ↦ raised
    | some code ↦
        if str_eq code ""
        then raised
        else returned (code_update (new_revision state code a.sha256 answer) (usage_of a.spend))
  ]

  abbrev coder_body : Answers F → AgentState F → Attempt F
  coder_body a state = if has_step state then coded_attempt a state a.coded else raised

  abbrev pub executed_attempt :
      Answers F → AgentState F → CodeRevision → Option (SandboxResult F) → Attempt F
  executed_attempt a state revision none = raised
  executed_attempt a state revision (some result) =
      returned (execution_update state revision result a.built_error)

  abbrev sandbox_body : Answers F → AgentState F → Attempt F
  sandbox_body a state = elim state.current_revision [
    | none ↦ raised
    | some revision ↦ executed_attempt a state revision a.executed
  ]

  abbrev pub reporter_attempt : Option String → Usage → Attempt F
  reporter_attempt none usage = raised
  reporter_attempt (some text) usage = returned (report_update text usage)

module _ (fl : Floats) where
  open fl use {Float}

  abbrev diagnosed_attempt :
      Answers Float → AgentState Float → ErrorRecord → Option (Diagnosis Float) → Attempt Float
  diagnosed_attempt a state error none = raised
  diagnosed_attempt a state error (some d) =
      returned
        (diagnosis_update state (reconcile fl a.blank d error a.prior_art) (usage_of a.spend))

  abbrev debugger_body : Answers Float → AgentState Float → Attempt Float
  debugger_body a state = elim state.last_error [
    | none ↦ raised
    | some error ↦ diagnosed_attempt a state error a.diagnosed
  ]

  abbrev pub evaluation : AgentState Float → Option RubricAssessment → Usage → Update Float
  evaluation state assessment usage =
      let (verdict, outcome) = build_verdict fl state assessment in
      record (verdict_update state verdict outcome) { usage = some usage }

  unfoldable pub body_of : Answers Float → NodeName → AgentState Float → Attempt Float
  body_of a init state = returned (init_update state a.configured_budgets a.clock)
  body_of a planner state = planner_body a state
  body_of a researcher state = researcher_body a
  body_of a coder state = coder_body a state
  body_of a sandbox_exec state = sandbox_body a state
  body_of a mlops state = mlops_body state a.logged
  body_of a debugger state = debugger_body a state
  body_of a evaluator state = returned (evaluation state a.assessed (usage_of a.spend))
  body_of a reporter state = reporter_attempt a.written (usage_of a.spend)
  body_of a finalizer state = if a.disk_ready then returned (final_update fl state) else raised

  -- The fallbacks that the nodes declare.
  unfoldable pub fallback_of : Answers Float → NodeName → AgentState Float → Option (Attempt Float)
  fallback_of a researcher state = some (returned (research_update degraded_pack no_usage))
  fallback_of a mlops state = some (returned no_update)
  fallback_of a debugger state =
      some
        (returned (diagnosis_update state (minimal_diagnosis fl state.last_error "" "") no_usage))
  fallback_of a evaluator state = some (returned (evaluation state none no_usage))
  fallback_of a reporter state = some (reporter_attempt a.fallback_text no_usage)
  fallback_of a _ state = none
