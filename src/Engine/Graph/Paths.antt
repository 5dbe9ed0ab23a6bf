-- ===== src/Engine/Graph/Paths.antt =====
-- Whether a router's answer is in the path map of its edge.
use autonomous_agentic_platf.Prelude.{
  [], ℕ, ◌≡◌, refl, ◌≢◌, inl, inr, true, some, List, ◌∷◌, arith, any, Floats, ◌⊎◌, is_some,
}
use autonomous_agentic_platf.Engine.NodeName.{
  NodeName, init, planner, researcher, coder, sandbox_exec, debugger, mlops, evaluator, reporter,
  finalizer,
}
use autonomous_agentic_platf.Engine.State.{AgentState, Update, apply_update}
use autonomous_agentic_platf.Engine.Routing.{
  guarded, terminal_node, after_plan, after_research, after_code, after_exec, after_failed_exec,
  after_clean_exec, after_debug, after_eval, after_verdict, route_after_plan, route_after_research,
  route_after_code, route_after_exec, route_after_debug, route_after_eval, exhausted_channels,
}
use autonomous_agentic_platf.Engine.Routing.Guard.{guarded-cases}
use autonomous_agentic_platf.Engine.Graph.{
  Turn, unmapped, conditional, edge_from, follow, same_node, exit_of, advance,
}

-- The list has the node.
abbrev Has : List NodeName → NodeName → Type 0
Has targets n = any (same_node n) targets ≡ true

module _ {F : Type 0} where
  guarded-Has :
      (r : AgentState F → NodeName) (now : ℕ) (s : AgentState F) (targets : List NodeName)
      → Has targets terminal_node
      → Has targets (r s)
      → Has targets (guarded r now s)
  guarded-Has r now s targets stop go = elim (guarded-cases r now s) [
    | inl e ↦ rw e stop
    | inr (o, e) ↦ rw e go
  ]

  plan-Has :
      (s : AgentState F) → Has (researcher ∷ coder ∷ evaluator ∷ reporter ∷ []) (after_plan s)
  unfolding after_plan
  plan-Has s = ground arith

  research-Has : (s : AgentState F) → Has (researcher ∷ coder ∷ []) (after_research s)
  unfolding after_research
  research-Has s = ground arith

  code-Has : (s : AgentState F) → Has (sandbox_exec ∷ reporter ∷ []) (after_code s)
  unfolding after_code
  code-Has s = ground arith

  exec-Has : (s : AgentState F) → Has (debugger ∷ mlops ∷ evaluator ∷ reporter ∷ []) (after_exec s)
  unfolding after_exec after_failed_exec after_clean_exec
  exec-Has s = ground arith

  debug-Has :
      (s : AgentState F) → Has (coder ∷ researcher ∷ planner ∷ reporter ∷ []) (after_debug s)
  unfolding after_debug
  debug-Has s = ground arith

  eval-Has : (s : AgentState F) → Has (coder ∷ planner ∷ reporter ∷ []) (after_eval s)
  unfolding after_eval after_verdict
  eval-Has s = ground arith

  mapped :
      (n : NodeName) (r : AgentState F → NodeName) (targets : List NodeName) (now : ℕ)
      → (s : AgentState F) → (x y : NodeName) → Has targets (guarded r now s)
      → follow n (conditional (guarded r) targets) now s ≢ unmapped x y
  unfolding follow
  mapped n r targets now s x y h e = ground arith

  mapped-guarded :
      (n : NodeName) (r : AgentState F → NodeName) (targets : List NodeName) (now : ℕ)
      → (s : AgentState F) → (x y : NodeName) → Has targets terminal_node
      → Has targets (r s)
      → follow n (conditional (guarded r) targets) now s ≢ unmapped x y
  mapped-guarded n r targets now s x y stop go h =
      mapped n r targets now s x y (guarded-Has r now s targets stop go) h

  not-mapped :
      (r : AgentState F → NodeName) (now : ℕ) (s : AgentState F)
      → (x y : NodeName) → Has (researcher ∷ coder ∷ []) (r s)
      → follow researcher (conditional (guarded r) (researcher ∷ coder ∷ [])) now s ≡ unmapped x y
      → (x ≡ researcher) × (y ≡ terminal_node)
  unfolding follow
  not-mapped r now s x y h e = elim (guarded-cases r now s) [
    | inl stop ↦ (ground arith, ground arith)
    | inr (o, go) ↦ absurd (mapped researcher r (researcher ∷ coder ∷ []) now s x y (rw go h) e)
  ]

  -- Every answer of a router is in the path map of its edge but one: the path map of the
  -- researcher's edge has no reporter, which the closed guard answers.
  pub follow-unmapped :
      (n x y : NodeName) (now : ℕ) (s : AgentState F)
      → follow n (edge_from n) now s ≡ unmapped x y
      → (n ≡ researcher) × (x ≡ researcher) × (y ≡ reporter)
  unfolding follow edge_from route_after_plan route_after_research route_after_code route_after_exec
      route_after_debug route_after_eval
  follow-unmapped init x y now s h = absurd (ground arith)
  follow-unmapped mlops x y now s h = absurd (ground arith)
  follow-unmapped reporter x y now s h = absurd (ground arith)
  follow-unmapped finalizer x y now s h = absurd (ground arith)
  follow-unmapped researcher x y now s h =
      let (ex, ey) = not-mapped after_research now s x y (research-Has s) h in (refl, ex, ey)
  follow-unmapped planner x y now s h = absurd (
      mapped-guarded planner after_plan (researcher ∷ coder ∷ evaluator ∷ reporter ∷ []) now s x y
        refl (plan-Has s) h)
  follow-unmapped coder x y now s h =
      absurd (
        mapped-guarded coder after_code (sandbox_exec ∷ reporter ∷ []) now s x y refl (code-Has s)
          h)
  follow-unmapped sandbox_exec x y now s h = absurd (
      mapped-guarded sandbox_exec after_exec (debugger ∷ mlops ∷ evaluator ∷ reporter ∷ []) now s x
        y refl (exec-Has s) h)
  follow-unmapped debugger x y now s h = absurd (
      mapped-guarded debugger after_debug (coder ∷ researcher ∷ planner ∷ reporter ∷ []) now s x y
        refl (debug-Has s) h)
  follow-unmapped evaluator x y now s h = absurd (
      mapped-guarded evaluator after_eval (coder ∷ planner ∷ reporter ∷ []) now s x y refl
        (eval-Has s) h)

module _ (fl : Floats) where
  open fl use {Float}

  -- A run that is cancelled, or has a spent budget, once the researcher's update is folded into
  -- its state, is left without an edge: the guard sends it to the reporter, which the
  -- researcher's path map does not have.
  pub advance-stopped_research :
      (turn : Turn Float) (s : AgentState Float) (u : Update Float)
      → (exit_of fl turn researcher s).update ≡ some u
      → (let t = apply_update s u in
          (t.cancel_requested ≡ true)
          ⊎ (is_some (exhausted_channels turn.now t.usage t.budgets) ≡ true))
      → advance fl turn researcher s ≡ unmapped researcher reporter
  unfolding advance follow edge_from route_after_research
  advance-stopped_research turn s u e stopped =
      let t = apply_update s u in
      let closed : guarded after_research turn.now t ≡ terminal_node =
        elim (guarded-cases after_research turn.now t) [
          | inl stop ↦ stop
          | inr (o, answer) ↦ elim stopped [
            | inl c ↦ absurd (ground (arith, o.not_cancelled))
            | inr x ↦ absurd (ground (arith, o.affordable))
          ]
        ] in
      rw (e, closed) refl
