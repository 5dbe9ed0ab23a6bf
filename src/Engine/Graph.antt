-- ===== src/Engine/Graph.antt =====
-- backend/app/engine/graph.py: the nodes, their edges, and one super-step of a run. The graph runs
-- as LangGraph documents it: the node runs, its update is folded into the channels by the
-- reducers, and the edge out of the node, conditional ones by their router and path map, names
-- the next node.
pub mod Bodies
pub mod Updates
pub mod Effects
pub mod Moves
pub mod Caps
pub mod Bounds
pub mod Budget
pub mod Runs
pub mod Paths
pub mod Endings
use autonomous_agentic_platf.Prelude.{
  [], ℕ, zero, suc, Bool, true, false, Option, none, some, List, ◌∷◌, if◌then◌else◌, any, Floats,
}
use autonomous_agentic_platf.Engine.NodeName.{
  NodeName, init, planner, researcher, coder, sandbox_exec, debugger, mlops, evaluator, reporter,
  finalizer,
}
use autonomous_agentic_platf.Engine.State.{
  AgentState, Update, RunPhase, apply_update, init_phase, planning, research_phase, implement_phase,
  execute, track, debug, evaluate_phase, report_phase, complete,
}
use autonomous_agentic_platf.Engine.Routing.{
  route_after_plan, route_after_research, route_after_code, route_after_exec, route_after_debug,
  route_after_eval,
}
use autonomous_agentic_platf.Engine.Nodes.Envelope.{
  FailurePolicy, fail_run, retry_then_report, degrade, degrade_deterministic, synthesise_fallback,
  best_effort, Exit, run_node,
}
use autonomous_agentic_platf.Engine.Graph.Bodies.{Answers, body_of, fallback_of}

abbrev pub same_node : NodeName → NodeName → Bool
same_node init init = true
same_node sandbox_exec sandbox_exec = true
same_node mlops mlops = true
same_node finalizer finalizer = true
same_node planner planner = true
same_node researcher researcher = true
same_node coder coder = true
same_node debugger debugger = true
same_node evaluator evaluator = true
same_node reporter reporter = true
same_node _ _ = false

-- An edge out of a node: to another, to END, or conditional with its path map.
pub data Edge (F : Type 0) : Type 0 where
  to : NodeName → Edge F
  to_end : Edge F
  conditional : (router : ℕ → AgentState F → NodeName) (targets : List NodeName) → Edge F

-- The edges that `build_graph` adds.
unfoldable pub edge_from : {F : Type 0} → NodeName → Edge F
edge_from init = to planner
edge_from planner = conditional route_after_plan (researcher ∷ coder ∷ evaluator ∷ reporter ∷ [])
edge_from researcher = conditional route_after_research (researcher ∷ coder ∷ [])
edge_from coder = conditional route_after_code (sandbox_exec ∷ reporter ∷ [])
edge_from sandbox_exec = conditional route_after_exec (debugger ∷ mlops ∷ evaluator ∷ reporter ∷ [])
edge_from debugger = conditional route_after_debug (coder ∷ researcher ∷ planner ∷ reporter ∷ [])
edge_from mlops = to evaluator
edge_from evaluator = conditional route_after_eval (coder ∷ planner ∷ reporter ∷ [])
edge_from reporter = to finalizer
edge_from finalizer = to_end

-- The policy and the phase that each node declares in its `@node`.
unfoldable pub policy_of : NodeName → FailurePolicy
policy_of init = fail_run
policy_of planner = retry_then_report
policy_of researcher = degrade
policy_of coder = retry_then_report
policy_of sandbox_exec = fail_run
policy_of mlops = degrade
policy_of debugger = degrade
policy_of evaluator = degrade_deterministic
policy_of reporter = synthesise_fallback
policy_of finalizer = best_effort

unfoldable pub phase_of : NodeName → RunPhase
phase_of init = init_phase
phase_of planner = planning
phase_of researcher = research_phase
phase_of coder = implement_phase
phase_of sandbox_exec = execute
phase_of mlops = track
phase_of debugger = debug
phase_of evaluator = evaluate_phase
phase_of reporter = report_phase
phase_of finalizer = complete

-- What the world does in one super-step: the answers that each attempt gets, the number of retries
-- that is configured, and the clock when the router runs.
pub record Turn (F : Type 0) : Type 0 where
  pub answers : ℕ → Answers F
  pub retries : ℕ
  pub now : ℕ

-- Where a super-step leaves the run. `unmapped` is a router's answer that its path map lacks.
pub data Next (F : Type 0) : Type 0 where
  at : NodeName → AgentState F → Next F
  ended : AgentState F → Next F
  failed_run : NodeName → Next F
  unmapped : (from to : NodeName) → Next F

module _ {F : Type 0} where
  unfoldable pub follow : NodeName → Edge F → ℕ → AgentState F → Next F
  follow from (to m) now state = at m state
  follow from to_end now state = ended state
  follow from (conditional router targets) now state =
      let m = router now state in if any (same_node m) targets then at m state else unmapped from m

module _ (fl : Floats) where
  open fl use {Float}

  unfoldable pub exit_of : Turn Float → NodeName → AgentState Float → Exit Float
  unfolding run_node
  exit_of turn n state =
      run_node (policy_of n) (phase_of n) (fallback_of fl (turn.answers 1) n state) turn.retries
        (λ k. body_of fl (turn.answers k) n state)

  abbrev pub leave : Turn Float → NodeName → AgentState Float → Option (Update Float) → Next Float
  leave turn n state none = failed_run n
  leave turn n state (some update) = follow n (edge_from n) turn.now (apply_update state update)

  unfoldable pub advance : Turn Float → NodeName → AgentState Float → Next Float
  unfolding exit_of
  advance turn n state = leave turn n state (exit_of turn n state).update

  -- How a run ends; `out_of_fuel` is not an ending of the program.
  pub data Ending : Type 0 where
    finished : AgentState Float → Ending
    raised_in : NodeName → Ending
    no_edge : (from to : NodeName) → Ending
    out_of_fuel : Ending

  -- The run from a node on, `turns k` being the k-th super-step from there.
  unfoldable pub run_from : ℕ → (ℕ → Turn Float) → NodeName → AgentState Float → Ending
  run_from zero turns n state = out_of_fuel
  run_from (suc fuel) turns n state = elim (advance (turns 0) n state) [
    | at m state' ↦ run_from fuel (λ k. turns (suc k)) m state'
    | ended state' ↦ finished state'
    | failed_run m ↦ raised_in m
    | unmapped from m ↦ no_edge from m
  ]
