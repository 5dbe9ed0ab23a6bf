-- ===== src/Engine/Graph/Budget.antt =====
-- The loop budgets along every run.
use autonomous_agentic_platf.Prelude.{
  ℕ, ◌+◌, ◌≤◌, ◌<◌, ◌≡◌, refl, sym, ap, ◌∙◌, ◌≢◌, inl, inr, Option, none, some, arith,
}
use autonomous_agentic_platf.Engine.NodeName.{
  NodeName, init, planner, researcher, coder, sandbox_exec, debugger, mlops, evaluator, reporter,
  finalizer,
}
use autonomous_agentic_platf.Engine.State.{AgentState, Update, Budgets, apply_update}
use autonomous_agentic_platf.Engine.Routing.{
  after_plan, after_research, after_code, after_exec, after_debug, after_eval, budgets_or_default,
  after_verdict, after_failed_exec, after_clean_exec,
}
use autonomous_agentic_platf.Engine.Routing.Choices.{
  after_exec-debugger, after_debug-planner, after_eval-planner,
}
use autonomous_agentic_platf.Engine.Nodes.Planner.{next_replan_count}
use autonomous_agentic_platf.Engine.Graph.{to, edge_from}
use autonomous_agentic_platf.Engine.Graph.Moves.{Leads, by_edge, by_guard, by_router, router_of}
use autonomous_agentic_platf.Engine.Graph.Updates.{Owns}
use autonomous_agentic_platf.Engine.Graph.Caps.{Bounded}

module _ {F : Type 0} where
  plan-debugger : (s : AgentState F) → after_plan s ≢ debugger
  unfolding after_plan
  plan-debugger s h = ground arith

  plan-planner : (s : AgentState F) → after_plan s ≢ planner
  unfolding after_plan
  plan-planner s h = ground arith

  research-debugger : (s : AgentState F) → after_research s ≢ debugger
  unfolding after_research
  research-debugger s h = ground arith

  research-planner : (s : AgentState F) → after_research s ≢ planner
  unfolding after_research
  research-planner s h = ground arith

  code-debugger : (s : AgentState F) → after_code s ≢ debugger
  unfolding after_code
  code-debugger s h = ground arith

  code-planner : (s : AgentState F) → after_code s ≢ planner
  unfolding after_code
  code-planner s h = ground arith

  exec-planner : (s : AgentState F) → after_exec s ≢ planner
  unfolding after_exec after_failed_exec after_clean_exec
  exec-planner s h = ground arith

  debug-debugger : (s : AgentState F) → after_debug s ≢ debugger
  unfolding after_debug
  debug-debugger s h = ground arith

  eval-debugger : (s : AgentState F) → after_eval s ≢ debugger
  unfolding after_eval after_verdict
  eval-debugger s h = ground arith

  -- The answer of a router that may be missing.
  answer_of : AgentState F → Option (AgentState F → NodeName) → NodeName
  answer_of s none = init
  answer_of s (some r) = r s

  same-answer : (s : AgentState F) (f r : AgentState F → NodeName) → some f ≡ some r → f s ≡ r s
  unfolding answer_of
  same-answer s f r e = ap (answer_of s) e

  iterations_left :
      (n : NodeName) (r : AgentState F → NodeName) (s : AgentState F)
      → router_of n ≡ some r
      → debugger ≡ r s
      → s.debug_iterations < (budgets_or_default s.budgets).max_debug_iterations
  iterations_left init r s e h = absurd (ground arith)
  iterations_left mlops r s e h = absurd (ground arith)
  iterations_left reporter r s e h = absurd (ground arith)
  iterations_left finalizer r s e h = absurd (ground arith)
  iterations_left planner r s e h = absurd (plan-debugger s (same-answer s after_plan r e ∙ sym h))
  iterations_left researcher r s e h =
      absurd (research-debugger s (same-answer s after_research r e ∙ sym h))
  iterations_left coder r s e h = absurd (code-debugger s (same-answer s after_code r e ∙ sym h))
  iterations_left debugger r s e h =
      absurd (debug-debugger s (same-answer s after_debug r e ∙ sym h))
  iterations_left evaluator r s e h =
      absurd (eval-debugger s (same-answer s after_eval r e ∙ sym h))
  iterations_left sandbox_exec r s e h =
      ((after_exec-debugger s).0 (same-answer s after_exec r e ∙ sym h)).iterations_left

  replans_left :
      (n : NodeName) (r : AgentState F → NodeName) (s : AgentState F)
      → router_of n ≡ some r
      → planner ≡ r s
      → s.replan_count < (budgets_or_default s.budgets).max_replans
  replans_left init r s e h = absurd (ground arith)
  replans_left mlops r s e h = absurd (ground arith)
  replans_left reporter r s e h = absurd (ground arith)
  replans_left finalizer r s e h = absurd (ground arith)
  replans_left planner r s e h = absurd (plan-planner s (same-answer s after_plan r e ∙ sym h))
  replans_left researcher r s e h =
      absurd (research-planner s (same-answer s after_research r e ∙ sym h))
  replans_left coder r s e h = absurd (code-planner s (same-answer s after_code r e ∙ sym h))
  replans_left sandbox_exec r s e h = absurd (exec-planner s (same-answer s after_exec r e ∙ sym h))
  replans_left debugger r s e h = after_debug-planner s (same-answer s after_debug r e ∙ sym h)
  replans_left evaluator r s e h = after_eval-planner s (same-answer s after_eval r e ∙ sym h)

  -- The loop counters are in their budgets, with room where the node at hand will raise one.
  pub record InBudget (b : Budgets) (n : NodeName) (s : AgentState F) : Type 0 where
    pub bounded : Bounded b n s
    pub debugs : s.debug_iterations ≤ b.max_debug_iterations
    pub replans : s.replan_count ≤ b.max_replans
    pub at_debugger : n ≡ debugger → s.debug_iterations < b.max_debug_iterations
    pub at_planner : n ≡ planner → next_replan_count s ≤ b.max_replans

  pub next-replan : (s : AgentState F) → next_replan_count s ≤ s.replan_count + 1
  unfolding next_replan_count
  next-replan s = ground arith

  pub debugs-kept :
      (b : Budgets) (n : NodeName) (s : AgentState F) (u : Update F)
      → InBudget b n s
      → Owns n s u
      → (apply_update s u).debug_iterations ≤ b.max_debug_iterations
  unfolding apply_update
  debugs-kept b n s u h o = elim o.debugs [
    | inl e ↦ rw e h.debugs
    | inr (en, e) ↦ ground (arith, h.at_debugger en)
  ]

  pub replans-kept :
      (b : Budgets) (n : NodeName) (s : AgentState F) (u : Update F)
      → InBudget b n s
      → Owns n s u
      → (apply_update s u).replan_count ≤ b.max_replans
  unfolding apply_update
  replans-kept b n s u h o = elim o.replans [
    | inl e ↦ rw e h.replans
    | inr (en, e) ↦ ground (arith, h.at_planner en)
  ]

  edge-debugger : (n : NodeName) → edge_from {F = F} n ≢ to debugger
  unfolding edge_from
  edge-debugger init h = ground arith
  edge-debugger planner h = ground arith
  edge-debugger researcher h = ground arith
  edge-debugger coder h = ground arith
  edge-debugger sandbox_exec h = ground arith
  edge-debugger debugger h = ground arith
  edge-debugger mlops h = ground arith
  edge-debugger evaluator h = ground arith
  edge-debugger reporter h = ground arith
  edge-debugger finalizer h = ground arith

  edge-planner : (n : NodeName) → n ≢ init → edge_from {F = F} n ≢ to planner
  unfolding edge_from
  edge-planner init p h = p refl
  edge-planner planner p h = ground arith
  edge-planner researcher p h = ground arith
  edge-planner coder p h = ground arith
  edge-planner sandbox_exec p h = ground arith
  edge-planner debugger p h = ground arith
  edge-planner mlops p h = ground arith
  edge-planner evaluator p h = ground arith
  edge-planner reporter p h = ground arith
  edge-planner finalizer p h = ground arith

  pub Leads-debugger :
      (n m : NodeName) (now : ℕ) (t : AgentState F)
      → Leads n m now t
      → m ≡ debugger
      → t.debug_iterations < (budgets_or_default t.budgets).max_debug_iterations
  Leads-debugger n m now t (by_edge e) d = absurd (edge-debugger n (e ∙ ap to d))
  Leads-debugger n m now t (by_guard g e) d = absurd (ground arith)
  Leads-debugger n m now t (by_router r er o e) d = iterations_left n r t er (sym d ∙ e)

  pub Leads-planner :
      (n m : NodeName) (now : ℕ) (t : AgentState F)
      → n ≢ init
      → Leads n m now t
      → m ≡ planner
      → t.replan_count < (budgets_or_default t.budgets).max_replans
  Leads-planner n m now t p (by_edge e) d = absurd (edge-planner n p (e ∙ ap to d))
  Leads-planner n m now t p (by_guard g e) d = absurd (ground arith)
  Leads-planner n m now t p (by_router r er o e) d = replans_left n r t er (sym d ∙ e)
