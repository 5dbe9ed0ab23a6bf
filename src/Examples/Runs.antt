-- ===== src/Examples/Runs.antt =====
-- The theorems on whole runs, on a run whose first execution fails.
use autonomous_agentic_platf.Engine.Nodes.Debugger.{diagnosis_update, reconcile}
use autonomous_agentic_platf.Engine.Routing.{route_after_code, route_after_exec}
use autonomous_agentic_platf.Engine.Nodes.Coder.{code_update, new_revision}
use autonomous_agentic_platf.Engine.Nodes.SandboxExec.{execution_update}
use autonomous_agentic_platf.Engine.Routing.{route_after_research}
use autonomous_agentic_platf.Engine.Nodes.Researcher.{research_update}
use autonomous_agentic_platf.Engine.Graph.{policy_of, phase_of}
use autonomous_agentic_platf.Engine.Graph.Bodies.{body_of, usage_of}
use autonomous_agentic_platf.Engine.Routing.{route_after_plan}
use autonomous_agentic_platf.Engine.Nodes.Planner.{plan_update}
use autonomous_agentic_platf.Engine.Nodes.Reporter.{init_update}
use autonomous_agentic_platf.Engine.State.{merge_usage, research_phase, no_usage}
use autonomous_agentic_platf.Engine.State.{next_pending_step}
use autonomous_agentic_platf.Engine.State.{merge_step_status}
use autonomous_agentic_platf.Prelude.{◌≤◌, ◌≡◌, refl, true, false, some, [], arith, ℤ, pos}
use autonomous_agentic_platf.Examples.{
  hundredths, error_of, a_seed, planned_state, failed_state, a_diagnosis, a_pack, answers_of,
  turn_of,
}
use autonomous_agentic_platf.Engine.NodeName.{
  NodeName, init, planner, researcher, coder, sandbox_exec, debugger,
}
use autonomous_agentic_platf.Engine.State.{
  AgentState, Update, debug, default_budgets, apply_update, Usage, fresh,
}
use autonomous_agentic_platf.Engine.Nodes.Envelope.{
  finalise, run_node, run_attempts, attempt_loop, attempts_of,
}
use autonomous_agentic_platf.Engine.Graph.{
  Turn, at, ended, failed_run, unmapped, advance, run_from, follow, edge_from, exit_of,
}
use autonomous_agentic_platf.Engine.Graph.Bounds.{entered, advance-init}
use autonomous_agentic_platf.Engine.Graph.Endings.{IsEnding, run_from-endings}
use autonomous_agentic_platf.Engine.Graph.Runs.{Reach, start, step, reached-loops, reached-visits}
use autonomous_agentic_platf.Engine.Graph.Effects.{exit_of-Counted}
use autonomous_agentic_platf.Engine.Graph.Updates.{Counted}

-- The sandbox exits with 1.
abbrev failing : Turn ℤ
failing = turn_of (pos 1)

run_from-endings_example :
    IsEnding hundredths (run_from hundredths 63 (λ k. failing) init (fresh a_seed ""))
run_from-endings_example = run_from-endings hundredths (λ k. failing) a_seed "" 63 (omega arith)

-- Where a super-step leads, and the state before it otherwise.
abbrev state_after : NodeName → AgentState ℤ → AgentState ℤ
state_after n s = elim (advance hundredths failing n s) [
  | at m t ↦ t
  | ended t ↦ t
  | failed_run m ↦ s
  | unmapped x y ↦ s
]

abbrev at_planner : AgentState ℤ
at_planner = entered hundredths failing a_seed ""

abbrev at_researcher : AgentState ℤ
at_researcher = state_after planner at_planner

abbrev at_coder : AgentState ℤ
at_coder = state_after researcher at_researcher

abbrev at_sandbox_exec : AgentState ℤ
at_sandbox_exec = state_after coder at_coder

abbrev at_debugger : AgentState ℤ
at_debugger = state_after sandbox_exec at_sandbox_exec

Reach-planner : Reach hundredths a_seed "" planner at_planner
Reach-planner = step start failing (advance-init hundredths failing a_seed "")

Reach-researcher : Reach hundredths a_seed "" researcher at_researcher
unfolding advance policy_of body_of follow edge_from route_after_plan apply_update finalise
    plan_update init_update merge_usage next_pending_step merge_step_status
Reach-researcher = step Reach-planner failing refl

Reach-coder : Reach hundredths a_seed "" coder at_coder
unfolding advance policy_of body_of follow edge_from route_after_research apply_update finalise
    research_update route_after_plan plan_update init_update merge_usage next_pending_step
    merge_step_status
Reach-coder = step Reach-researcher failing refl

Reach-sandbox_exec : Reach hundredths a_seed "" sandbox_exec at_sandbox_exec
unfolding advance policy_of body_of follow edge_from route_after_research apply_update finalise
    research_update route_after_plan plan_update init_update merge_usage next_pending_step
    merge_step_status route_after_code code_update new_revision
Reach-sandbox_exec = step Reach-coder failing refl

Reach-debugger : Reach hundredths a_seed "" debugger at_debugger
unfolding advance policy_of body_of follow edge_from route_after_research apply_update finalise
    research_update route_after_plan plan_update init_update merge_usage next_pending_step
    merge_step_status route_after_code code_update new_revision route_after_exec execution_update
Reach-debugger = step Reach-sandbox_exec failing refl

-- The run at the debugger has the default budgets.
debugger_budgets : at_debugger.budgets ≡ some default_budgets
unfolding advance policy_of body_of follow edge_from route_after_research apply_update finalise
    research_update route_after_plan plan_update init_update merge_usage next_pending_step
    merge_step_status route_after_code code_update route_after_exec execution_update
debugger_budgets = refl

reached-loops_example : (at_debugger.debug_iterations ≤ 4) × (at_debugger.replan_count ≤ 2)
reached-loops_example =
    reached-loops hundredths a_seed "" debugger at_debugger default_budgets Reach-debugger
      debugger_budgets

reached-visits_example :
    (u : Usage) × (at_debugger.usage ≡ some u) × (u.node_visits ≤ 59) × (u.node_visits ≤ 62)
reached-visits_example =
    reached-visits hundredths a_seed "" debugger at_debugger default_budgets Reach-debugger
      debugger_budgets

-- What the debugger hands over.
abbrev debugged : Update ℤ
debugged =
    finalise
      (diagnosis_update failed_state
        (reconcile hundredths (λ t. false) a_diagnosis (error_of "f") [])
        (usage_of (answers_of (pos 1)).spend))
      debug

exit_of-Counted_example : Counted debugger failed_state debugged
unfolding exit_of run_node run_attempts attempt_loop attempts_of body_of policy_of phase_of
exit_of-Counted_example =
    exit_of-Counted hundredths failing debugger failed_state debugged (λ e. ground arith) refl

-- The run has spent its tokens when the researcher comes back.
abbrev spent_state : AgentState ℤ
spent_state = record planned_state { usage = some (record no_usage { tokens_in = 250_000 }) }

-- The researcher works on, while the run is cancelled.
abbrev cancelled_state : AgentState ℤ
cancelled_state = record planned_state { cancel_requested = true }

abbrev researched : Update ℤ
researched = finalise (research_update a_pack (usage_of (answers_of (pos 1)).spend)) research_phase
