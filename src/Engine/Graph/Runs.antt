-- ===== src/Engine/Graph/Runs.antt =====
-- The configurations that a run comes through, and the budgets in each.
use autonomous_agentic_platf.Prelude.{
  ◌+◌, ◌≤◌, ◌<◌, String, ◌≡◌, refl, sym, ap, ◌∙◌, ◌≢◌, some, arith, Floats,
}
use autonomous_agentic_platf.Engine.NodeName.{NodeName, init, planner, debugger}
use autonomous_agentic_platf.Engine.State.{AgentState, Usage, Budgets, Seed, fresh}
use autonomous_agentic_platf.Engine.Routing.{budgets_or_default}
use autonomous_agentic_platf.Engine.Nodes.Planner.{next_replan_count}
use autonomous_agentic_platf.Engine.Graph.{Turn, at, advance}
use autonomous_agentic_platf.Engine.Graph.Moves.{advance-Move}
use autonomous_agentic_platf.Engine.Graph.Effects.{exit_of-Counted}
use autonomous_agentic_platf.Engine.Graph.Bounds.{
  advance-Bounded, entered, entered-Bounded, advance-init, entered-counters,
}
use autonomous_agentic_platf.Engine.Graph.Caps.{visit_limit, visit_cap, cap-most}
use autonomous_agentic_platf.Engine.Graph.Budget.{
  InBudget, debugs-kept, replans-kept, Leads-debugger, Leads-planner, next-replan,
}

module _ (fl : Floats) where
  open fl use {Float}

  -- The node about to run and the state before it, in a run that the worker starts.
  pub data Reach (seed : Seed) (kind : String) : NodeName → AgentState Float → Type 0 where
    start : Reach seed kind init (fresh seed kind)
    step :
        {n m : NodeName} {s t : AgentState Float}
        → Reach seed kind n s
        → (turn : Turn Float) → advance fl turn n s ≡ at m t
        → Reach seed kind m t

  -- A super-step keeps the counters in their budgets.
  pub advance-InBudget :
      (turn : Turn Float) (b : Budgets) (n m : NodeName) (s t : AgentState Float)
      → InBudget b n s
      → advance fl turn n s ≡ at m t
      → InBudget b m t
  advance-InBudget turn b n m s t h e =
      let move = advance-Move fl turn n m s t e in
      let old = h.bounded in
      let counted = exit_of-Counted fl turn n s move.update old.not_init move.handed_over in
      let (now_bounded, more) = advance-Bounded fl turn b n m s t old e in
      let limits : budgets_or_default t.budgets ≡ b = ap budgets_or_default now_bounded.limits in
      record {
        bounded = now_bounded;
        debugs = rw (move.folds) (debugs-kept b n s move.update h counted.owned);
        replans = rw (move.folds) (replans-kept b n s move.update h counted.owned);
        at_debugger = λ d. ground (arith, Leads-debugger n m turn.now t move.leads d);
        at_planner = λ d.
            ground (arith, next-replan t, Leads-planner n m turn.now t old.not_init move.leads d);
      }

  entered-InBudget :
      (turn : Turn Float) (seed : Seed) (kind : String)
      → InBudget (turn.answers 1).configured_budgets planner (entered fl turn seed kind)
  unfolding next_replan_count
  entered-InBudget turn seed kind =
      let (no_debugs, no_replans, no_plan) = entered-counters fl turn seed kind in
      record {
        bounded = (entered-Bounded fl turn seed kind).0;
        debugs = ground arith;
        replans = ground arith;
        at_debugger = λ e. ground arith;
        at_planner = λ e. ground arith;
      }

  -- Where a run that the worker starts can be: at its start, or at a node in budget.
  pub data Placed (seed : Seed) (kind : String) (n : NodeName) (s : AgentState Float) : Type 0 where
    at_start : n ≡ init → s ≡ fresh seed kind → Placed seed kind n s
    under_way : (b : Budgets) → InBudget b n s → Placed seed kind n s

  start-Placed :
      (seed : Seed) (kind : String) (turn : Turn Float) (m : NodeName) (t : AgentState Float)
      → advance fl turn init (fresh seed kind) ≡ at m t
      → Placed seed kind m t
  start-Placed seed kind turn m t e =
      let both = sym (advance-init fl turn seed kind) ∙ e in
      let node : planner ≡ m = ground arith in
      let state : entered fl turn seed kind ≡ t = ground arith in
      rw (sym node, sym state)
        (under_way (turn.answers 1).configured_budgets (entered-InBudget turn seed kind))

  Reach-Placed :
      (seed : Seed) (kind : String) (n : NodeName) (s : AgentState Float)
      → Reach seed kind n s
      → Placed seed kind n s
  Reach-Placed seed kind _ _ start = at_start refl refl
  Reach-Placed seed kind _ _ (step {n} {m} {s} {t} r turn e) = elim (Reach-Placed seed kind n s r) [
    | at_start en es ↦ start-Placed seed kind turn m t (ground arith)
    | under_way b h ↦ under_way b (advance-InBudget turn b n m s t h e)
  ]

  unstarted :
      (seed : Seed) (kind : String) (s : AgentState Float) (b : Budgets)
      → s ≡ fresh seed kind
      → s.budgets ≢ some b
  unstarted seed kind s b e h = ground arith

  Reach-InBudget :
      (seed : Seed) (kind : String) (n : NodeName) (s : AgentState Float) (b : Budgets)
      → Reach seed kind n s
      → s.budgets ≡ some b
      → InBudget b n s
  Reach-InBudget seed kind n s b r h = elim (Reach-Placed seed kind n s r) [
    | at_start en es ↦ absurd (unstarted seed kind s b es h)
    | under_way c k ↦ let same : c ≡ b = ground (arith, k.bounded.limits) in rw (sym same) k
  ]

  -- In every configuration that a run comes through once its budgets are set, the debug
  -- iterations and the replans are within them.
  pub reached-loops :
      (seed : Seed) (kind : String) (n : NodeName) (s : AgentState Float) (b : Budgets)
      → Reach seed kind n s
      → s.budgets ≡ some b
      → (s.debug_iterations ≤ b.max_debug_iterations) × (s.replan_count ≤ b.max_replans)
  reached-loops seed kind n s b r h =
      let k = Reach-InBudget seed kind n s b r h in (k.debugs, k.replans)

  -- Whenever a run comes to the debugger, once its budgets are set, a debug iteration is left.
  pub reached-debugger :
      (seed : Seed) (kind : String) (s : AgentState Float) (b : Budgets)
      → Reach seed kind debugger s
      → s.budgets ≡ some b
      → s.debug_iterations < b.max_debug_iterations
  reached-debugger seed kind s b r h = (Reach-InBudget seed kind debugger s b r h).at_debugger refl

  -- Whenever a run comes to the planner, once its budgets are set, the replan count of the plan
  -- that it is about to write is in budget.
  pub reached-planner :
      (seed : Seed) (kind : String) (s : AgentState Float) (b : Budgets)
      → Reach seed kind planner s
      → s.budgets ≡ some b
      → next_replan_count s ≤ b.max_replans
  reached-planner seed kind s b r h = (Reach-InBudget seed kind planner s b r h).at_planner refl

  -- In every configuration that a run comes through once its budgets are set, the node visits are
  -- counted and within the cap of the node at hand, so at most the limit (at least 1) and 2 more.
  pub reached-visits :
      (seed : Seed) (kind : String) (n : NodeName) (s : AgentState Float) (b : Budgets)
      → Reach seed kind n s
      → s.budgets ≡ some b
      → (u : Usage) × (s.usage ≡ some u)
        × (u.node_visits ≤ visit_cap (visit_limit b) n)
        × (u.node_visits ≤ visit_limit b + 2)
  reached-visits seed kind n s b r h =
      let k = (Reach-InBudget seed kind n s b r h).bounded in
      (k.used, k.known, k.within, ground (arith, k.within, cap-most n (visit_limit b)))
