-- ===== src/Engine/Graph/Caps.antt =====
-- How many node visits a run can have behind it at each node.
use autonomous_agentic_platf.Prelude.{
  ℕ, ◌+◌, ◌-◌, ◌≤◌, ◌<◌, max, ◌≡◌, refl, sym, ◌≢◌, true, some, arith, is_some,
}
use autonomous_agentic_platf.Engine.NodeName.{
  NodeName, init, planner, researcher, coder, sandbox_exec, debugger, mlops, evaluator, reporter,
  finalizer,
}
use autonomous_agentic_platf.Engine.State.{
  AgentState, Update, Usage, Budgets, apply_update, merge_usage,
}
use autonomous_agentic_platf.Engine.Routing.Guard.{IsOpen, exhausted_budget-none}
use autonomous_agentic_platf.Engine.Graph.{to, edge_from}
use autonomous_agentic_platf.Engine.Graph.Moves.{Leads, by_edge, by_guard, by_router, router_of}
use autonomous_agentic_platf.Engine.Graph.Updates.{Counted, Owns}

-- The visit limit that holds in fact: the planner is visited whatever the limit.
abbrev pub visit_limit : Budgets → ℕ
visit_limit b = max 1 b.max_node_visits

-- How many visits a run can have behind it when it comes to a node.
abbrev pub visit_cap : ℕ → NodeName → ℕ
visit_cap limit planner = limit
visit_cap limit evaluator = limit
visit_cap limit reporter = limit + 1
visit_cap limit finalizer = limit + 2
visit_cap limit _ = limit - 1

pub guard-cap :
    (F : Type 0) (n : NodeName) (limit visits : ℕ)
    → is_some (router_of {F = F} n) ≡ true
    → visits ≤ visit_cap limit n
    → visits + 1 ≤ limit + 1
guard-cap F init limit visits e h = absurd (ground arith)
guard-cap F planner limit visits e h = ground arith
guard-cap F researcher limit visits e h = ground arith
guard-cap F coder limit visits e h = ground arith
guard-cap F sandbox_exec limit visits e h = ground arith
guard-cap F debugger limit visits e h = ground arith
guard-cap F mlops limit visits e h = absurd (ground arith)
guard-cap F evaluator limit visits e h = ground arith
guard-cap F reporter limit visits e h = absurd (ground arith)
guard-cap F finalizer limit visits e h = absurd (ground arith)

-- Below an open guard the cap of every node holds.
pub open-cap :
    (n : NodeName) (b : Budgets) (visits : ℕ)
    → visits < b.max_node_visits
    → visits ≤ visit_cap (visit_limit b) n
open-cap init b visits h = ground arith
open-cap planner b visits h = ground arith
open-cap researcher b visits h = ground arith
open-cap coder b visits h = ground arith
open-cap sandbox_exec b visits h = ground arith
open-cap debugger b visits h = ground arith
open-cap mlops b visits h = ground arith
open-cap evaluator b visits h = ground arith
open-cap reporter b visits h = ground arith
open-cap finalizer b visits h = ground arith

module _ {F : Type 0} where
  pub record Bounded (b : Budgets) (n : NodeName) (s : AgentState F) : Type 0 where
    pub used : Usage
    pub known : s.usage ≡ some used
    pub limits : s.budgets ≡ some b
    pub not_init : n ≢ init
    pub within : used.node_visits ≤ visit_cap (visit_limit b) n

  pub open-visits :
      (now : ℕ) (s : AgentState F) (u : Usage) (b : Budgets)
      → s.usage ≡ some u
      → s.budgets ≡ some b
      → IsOpen now s
      → u.node_visits < b.max_node_visits
  open-visits now s u b eu eb h =
      ((exhausted_budget-none now u b).0 (ground (arith, h.affordable))).visits_left

  pub edge-cap :
      (n m : NodeName) (limit visits : ℕ)
      → 1 ≤ limit
      → n ≢ init
      → edge_from {F = F} n ≡ to m
      → visits ≤ visit_cap limit n
      → visits + 1 ≤ visit_cap limit m
  unfolding edge_from
  edge-cap init m limit visits l p e h = absurd (p refl)
  edge-cap planner m limit visits l p e h = absurd (ground arith)
  edge-cap researcher m limit visits l p e h = absurd (ground arith)
  edge-cap coder m limit visits l p e h = absurd (ground arith)
  edge-cap sandbox_exec m limit visits l p e h = absurd (ground arith)
  edge-cap debugger m limit visits l p e h = absurd (ground arith)
  edge-cap evaluator m limit visits l p e h = absurd (ground arith)
  edge-cap finalizer m limit visits l p e h = absurd (ground arith)
  edge-cap mlops m limit visits l p e h =
      let same : evaluator ≡ m = ground arith in rw (sym same) (ground arith)
  edge-cap reporter m limit visits l p e h =
      let same : finalizer ≡ m = ground arith in rw (sym same) (ground arith)

  -- The visit that an update reports is added to those of the run.
  pub Counted-usage :
      (n : NodeName) (s : AgentState F) (u : Update F) (used : Usage)
      → s.usage ≡ some used
      → Counted n s u
      → (w : Usage) × ((apply_update s u).usage ≡ some w) × (w.node_visits ≡ used.node_visits + 1)
  unfolding apply_update merge_usage
  Counted-usage n s u used e c =
      (merge_usage (some used) c.spent, rw (e, c.reports) refl, ground (arith, c.one_visit))

  pub kept-budgets :
      (n : NodeName) (s : AgentState F) (u : Update F) (b : Budgets)
      → s.budgets ≡ some b
      → Owns n s u
      → (apply_update s u).budgets ≡ some b
  unfolding apply_update
  kept-budgets n s u b e o = ground (arith, o.keeps_budgets)

  pub move-cap :
      (b : Budgets) (n m : NodeName) (now : ℕ) (t : AgentState F) (w : Usage) (visits : ℕ)
      → t.usage ≡ some w
      → t.budgets ≡ some b
      → w.node_visits ≡ visits + 1
      → n ≢ init
      → visits ≤ visit_cap (visit_limit b) n
      → Leads n m now t
      → w.node_visits ≤ visit_cap (visit_limit b) m
  move-cap b n m now t w visits eu eb ew p h (by_edge e) =
      ground (arith, edge-cap n m (visit_limit b) visits (ground arith) p e h)
  move-cap b n m now t w visits eu eb ew p h (by_guard g e) =
      let low = guard-cap F n (visit_limit b) visits g h in rw (e, ew) low
  move-cap b n m now t w visits eu eb ew p h (by_router r er o e) =
      open-cap m b w.node_visits (open-visits now t w b eu eb o)

-- At most this many visits are behind a run at any node.
pub cap-most : (n : NodeName) (limit : ℕ) → visit_cap limit n ≤ limit + 2
cap-most init limit = ground arith
cap-most planner limit = ground arith
cap-most researcher limit = ground arith
cap-most coder limit = ground arith
cap-most sandbox_exec limit = ground arith
cap-most debugger limit = ground arith
cap-most mlops limit = ground arith
cap-most evaluator limit = ground arith
cap-most reporter limit = ground arith
cap-most finalizer limit = ground arith
