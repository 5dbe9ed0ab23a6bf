-- ===== src/Engine/Routing.antt =====
-- backend/app/engine/routing.py. A router returns the name of the next node. Time is the clock's
-- reading in microseconds at the moment of the decision.
pub mod Guard
pub mod Choices
use autonomous_agentic_platf.Prelude.{
  ℕ, ◌+◌, ◌*◌, Bool, true, false, not, ◌&&◌, Option, none, some, List, leb, ltb, ◌==◌, length,
  or_else, is_some, if◌then◌else◌, ◌-◌,
}
use autonomous_agentic_platf.Engine.Errors.{consecutive_repeats}
use autonomous_agentic_platf.Engine.NodeName.{
  NodeName, reporter, evaluator, researcher, coder, sandbox_exec, debugger, planner, mlops,
}
use autonomous_agentic_platf.Engine.State.{
  StepKind, implement, train, is_evaluate, is_report, is_insufficient, PlanStep, ContextPack,
  Budgets, Usage, default_budgets, tokens_total, AgentState, next_pending_step, Diagnosis, Verdict,
  SandboxOutcome, is_train, is_clean, refine_cycles, is_final, Plan, is_refine, plan_step,
}

abbrev pub terminal_node : NodeName
terminal_node = reporter

-- `EXECUTABLE_KINDS`
abbrev pub is_executable : StepKind → Bool
is_executable implement = true
is_executable train = true
is_executable _ = false

abbrev pub stagnation_window : ℕ
stagnation_window = 3

abbrev pub research_max_rounds : ℕ
research_max_rounds = 2

-- The budget that `_exhausted_budget` names.
pub data Resource : Type 0 where
  visits tokens wallclock : Resource

-- `usage.elapsed_seconds >= limit`, where a run with no start has run for 0 seconds.
abbrev pub elapsed_at_least : ℕ → Option ℕ → ℕ → Bool
elapsed_at_least now none limit = limit == 0
elapsed_at_least now (some started) limit = leb (started + limit * 1_000_000) now

unfoldable pub exhausted_budget : ℕ → Usage → Budgets → Option Resource
exhausted_budget now usage budgets =
    if leb budgets.max_node_visits usage.node_visits
    then some visits
    else if leb budgets.max_tokens (tokens_total usage)
    then some tokens
    else if elapsed_at_least now usage.started_at budgets.wallclock_seconds
    then some wallclock
    else none

-- The budget test of the wrapper, made only where both channels are present.
abbrev pub exhausted_channels : ℕ → Option Usage → Option Budgets → Option Resource
exhausted_channels now (some usage) (some budgets) = exhausted_budget now usage budgets
exhausted_channels now (some usage) none = none
exhausted_channels now none budgets = none

abbrev pub budgets_or_default : Option Budgets → Budgets
budgets_or_default b = or_else b default_budgets

-- `len(history) < RESEARCH_MAX_ROUNDS`
abbrev pub rounds_left : {A : Type 0} → List A → Bool
rounds_left history = ltb (length history) research_max_rounds

-- `usage is not None and usage.sandbox_executions >= budgets.max_sandbox_executions`
abbrev pub sandbox_budget_spent : Option Usage → Budgets → Bool
sandbox_budget_spent none budgets = false
sandbox_budget_spent (some usage) budgets =
    leb budgets.max_sandbox_executions usage.sandbox_executions

-- `step is not None and step.kind in EXECUTABLE_KINDS`, of the next pending step.
abbrev pub executable_step : Option PlanStep → Bool
executable_step none = false
executable_step (some step) = is_executable step.kind

abbrev pub is_train_step : Option PlanStep → Bool
is_train_step none = false
is_train_step (some step) = is_train step.kind

module _ {F : Type 0} where
  unfoldable pub guarded : (AgentState F → NodeName) → ℕ → AgentState F → NodeName
  unfolding exhausted_budget
  guarded router now state =
      if state.cancel_requested
      then terminal_node
      else if is_some (exhausted_channels now state.usage state.budgets)
      then terminal_node
      else router state

  abbrev pub context_is_thin : Option (ContextPack F) → Bool
  context_is_thin none = true
  context_is_thin (some pack) = is_insufficient pack.sufficiency

  -- What `route_after_plan` does with the next pending step.
  abbrev pub plan_target : Option PlanStep → Option (ContextPack F) → NodeName
  plan_target none pack = evaluator
  plan_target (some step) pack =
      if is_evaluate step.kind
      then evaluator
      else if is_report step.kind
      then terminal_node
      else if not (is_executable step.kind)
      then evaluator
      else if context_is_thin pack
      then researcher
      else coder

  unfoldable pub after_plan : AgentState F → NodeName
  after_plan state =
      if is_some state.plan
      then plan_target (next_pending_step state) state.context_pack
      else terminal_node

  abbrev pub pack_insufficient : Option (ContextPack F) → Bool
  pack_insufficient none = false
  pack_insufficient (some pack) = is_insufficient pack.sufficiency

  unfoldable pub after_research : AgentState F → NodeName
  after_research state =
      if pack_insufficient state.context_pack && rounds_left state.context_history
      then researcher
      else coder

  unfoldable pub after_code : AgentState F → NodeName
  after_code state = if is_some state.current_revision then sandbox_exec else terminal_node

  unfoldable pub after_failed_exec : AgentState F → NodeName
  after_failed_exec state =
      let budgets = budgets_or_default state.budgets in
      if leb budgets.max_debug_iterations state.debug_iterations
      then terminal_node
      else if sandbox_budget_spent state.usage budgets
      then terminal_node
      else debugger

  unfoldable pub executable_work_remains : AgentState F → Bool
  executable_work_remains state = executable_step (next_pending_step state)

  unfoldable pub after_clean_exec : AgentState F → SandboxOutcome F → Plan F → NodeName
  unfolding executable_work_remains
  after_clean_exec state outcome plan =
      if is_train_step (plan_step plan state.current_step_id) && is_some outcome.metrics
      then mlops
      else if executable_work_remains state
      then terminal_node
      else evaluator

  unfoldable pub after_exec : AgentState F → NodeName
  unfolding after_failed_exec after_clean_exec
  after_exec state = elim state.last_outcome [
    | none ↦ terminal_node
    | some outcome ↦
        if not (is_clean outcome.classification) then after_failed_exec state else elim state.plan [
          | none ↦ terminal_node
          | some plan ↦ after_clean_exec state outcome plan
        ]
  ]

  abbrev pub wants_replan : Option (Diagnosis F) → Bool
  wants_replan none = false
  wants_replan (some d) = d.requires_replan

  abbrev pub wants_research : Option (Diagnosis F) → Bool
  wants_research none = false
  wants_research (some d) = d.requires_research

  unfoldable pub after_debug : AgentState F → NodeName
  after_debug state =
      let budgets = budgets_or_default state.budgets in
      let can_replan = ltb state.replan_count budgets.max_replans in
      if ltb budgets.max_debug_iterations state.debug_iterations
      then terminal_node
      else if wants_replan state.last_diagnosis && can_replan
      then planner
      else if wants_research state.last_diagnosis && rounds_left state.context_history
      then researcher
      else if leb stagnation_window (consecutive_repeats state.errors) && can_replan
      then planner
      else coder

  -- `max(refine_cycles(verdicts) - 1, 0)`; `-` on numbers stops at 0.
  abbrev pub granted_refines : AgentState F → ℕ
  granted_refines state = refine_cycles state.verdicts - 1

  unfoldable pub after_verdict : AgentState F → Verdict F → NodeName
  after_verdict state verdict =
      let budgets = budgets_or_default state.budgets in
      if is_final verdict.decision
      then terminal_node
      else if is_refine verdict.decision
      then if ltb (state.debug_iterations + granted_refines state) budgets.max_debug_iterations
        then coder
        else terminal_node
      else if ltb state.replan_count budgets.max_replans
      then planner
      else terminal_node

  unfoldable pub after_eval : AgentState F → NodeName
  unfolding after_verdict
  after_eval state = elim state.verdict [
    | none ↦ terminal_node
    | some verdict ↦ after_verdict state verdict
  ]

  -- The routers as `@guarded` wraps them.
  unfoldable pub route_after_plan : ℕ → AgentState F → NodeName
  unfolding guarded after_plan
  route_after_plan = guarded after_plan

  unfoldable pub route_after_research : ℕ → AgentState F → NodeName
  unfolding guarded after_research
  route_after_research = guarded after_research

  unfoldable pub route_after_code : ℕ → AgentState F → NodeName
  unfolding guarded after_code
  route_after_code = guarded after_code

  unfoldable pub route_after_exec : ℕ → AgentState F → NodeName
  unfolding guarded after_exec
  route_after_exec = guarded after_exec

  unfoldable pub route_after_debug : ℕ → AgentState F → NodeName
  unfolding guarded after_debug
  route_after_debug = guarded after_debug

  unfoldable pub route_after_eval : ℕ → AgentState F → NodeName
  unfolding guarded after_eval
  route_after_eval = guarded after_eval
