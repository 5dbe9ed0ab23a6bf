-- ===== src/Engine/Graph/Moves.antt =====
-- What one super-step that goes on to another node consists of.
use autonomous_agentic_platf.Prelude.{
  [], ℕ, ◌≡◌, refl, sym, ◌≢◌, inl, inr, true, false, Option, none, some, List, arith, Bool-cases,
  is_some, any, ◌∷◌, Floats, Option-cases, ap, ◌∙◌,
}
use autonomous_agentic_platf.Engine.NodeName.{
  NodeName, init, planner, researcher, coder, sandbox_exec, debugger, mlops, evaluator, reporter,
  finalizer,
}
use autonomous_agentic_platf.Engine.State.{AgentState, Update, apply_update}
use autonomous_agentic_platf.Engine.Routing.{
  guarded, terminal_node, after_plan, after_research, after_code, after_exec, after_debug,
  after_eval, route_after_plan, route_after_research, route_after_code, route_after_exec,
  route_after_debug, route_after_eval,
}
use autonomous_agentic_platf.Engine.Routing.Guard.{IsOpen, guarded-cases}
use autonomous_agentic_platf.Engine.Graph.{
  at, to, conditional, edge_from, follow, same_node, advance, Turn, exit_of, leave,
}

module _ {F : Type 0} where
  -- The router below the guard of a node's conditional edge.
  abbrev pub router_of : NodeName → Option (AgentState F → NodeName)
  router_of planner = some after_plan
  router_of researcher = some after_research
  router_of coder = some after_code
  router_of sandbox_exec = some after_exec
  router_of debugger = some after_debug
  router_of evaluator = some after_eval
  router_of _ = none

  -- How the run gets from `n` to `m` in the state `s`: along the one edge, to the terminal node
  -- where the guard closed, or to the answer of the router below an open guard.
  pub data Leads (n m : NodeName) (now : ℕ) (s : AgentState F) : Type 0 where
    by_edge : edge_from {F = F} n ≡ to m → Leads n m now s
    by_guard : is_some (router_of n) ≡ true → m ≡ terminal_node → Leads n m now s
    by_router :
        (r : AgentState F → NodeName)
        → router_of n ≡ some r
        → IsOpen now s
        → m ≡ r s
        → Leads n m now s

  -- What `follow` found: the state is the one given, and the node is not init.
  pub record Followed (n m : NodeName) (now : ℕ) (s t : AgentState F) : Type 0 where
    pub same_state : t ≡ s
    pub not_init : m ≢ init
    pub leads : Leads n m now t

  follow-conditional :
      (n m : NodeName) (r : AgentState F → NodeName) (targets : List NodeName) (now : ℕ)
      → (s t : AgentState F) → router_of n ≡ some r
      → any (same_node init) targets ≡ false
      → follow n (conditional (guarded r) targets) now s ≡ at m t
      → Followed n m now s t
  unfolding follow
  follow-conditional n m r targets now s t er ei h =
      elim (Bool-cases (any (same_node (guarded r now s)) targets)) [
        | inr e ↦ absurd (ground arith)
        | inl e ↦
            let same : s ≡ t = ground arith in
            let goal : guarded r now s ≡ m = ground arith in
            let away : guarded r now s ≢ init = λ x. ground arith in
            rw (sym same, sym goal)
              (record {
                same_state = refl;
                not_init = away;
                leads = elim (guarded-cases r now s) [
                  | inl stop ↦ by_guard (ground arith) stop
                  | inr (open_guard, answer) ↦ by_router r er open_guard answer
                ];
              })
      ]

  follow-to :
      (n m : NodeName) (x : NodeName) (now : ℕ) (s t : AgentState F)
      → edge_from {F = F} n ≡ to x
      → x ≢ init
      → follow n (to x) now s ≡ at m t
      → Followed n m now s t
  unfolding follow
  follow-to n m x now s t e p h =
      let same : s ≡ t = ground arith in
      let goal : x ≡ m = ground arith in
      rw (sym same, sym goal) (record { same_state = refl; not_init = p; leads = by_edge e })

  follow-Followed :
      (n m : NodeName) (now : ℕ) (s t : AgentState F)
      → follow n (edge_from n) now s ≡ at m t
      → Followed n m now s t
  unfolding follow edge_from route_after_plan route_after_research route_after_code route_after_exec
      route_after_debug route_after_eval
  follow-Followed init m now s t h = follow-to init m planner now s t refl (λ e. ground arith) h
  follow-Followed mlops m now s t h = follow-to mlops m evaluator now s t refl (λ e. ground arith) h
  follow-Followed reporter m now s t h =
      follow-to reporter m finalizer now s t refl (λ e. ground arith) h
  follow-Followed finalizer m now s t h = absurd (ground arith)
  follow-Followed planner m now s t h =
      follow-conditional planner m after_plan (researcher ∷ coder ∷ evaluator ∷ reporter ∷ []) now s
        t refl refl h
  follow-Followed researcher m now s t h =
      follow-conditional researcher m after_research (researcher ∷ coder ∷ []) now s t refl refl h
  follow-Followed coder m now s t h =
      follow-conditional coder m after_code (sandbox_exec ∷ reporter ∷ []) now s t refl refl h
  follow-Followed sandbox_exec m now s t h =
      follow-conditional sandbox_exec m after_exec (debugger ∷ mlops ∷ evaluator ∷ reporter ∷ [])
        now s t refl refl h
  follow-Followed debugger m now s t h =
      follow-conditional debugger m after_debug (coder ∷ researcher ∷ planner ∷ reporter ∷ []) now s
        t refl refl h
  follow-Followed evaluator m now s t h =
      follow-conditional evaluator m after_eval (coder ∷ planner ∷ reporter ∷ []) now s t refl refl
        h

-- A super-step from `n` to `m`: the update that the node handed over, folded into the state, and
-- how the edge led on.
pub record Move {F : Type 0} (n m : NodeName) (now : ℕ) (handed : Option (Update F))
    (s t : AgentState F) : Type 0 where
  pub update : Update F
  pub handed_over : handed ≡ some update
  pub folds : t ≡ apply_update s update
  pub not_init : m ≢ init
  pub leads : Leads n m now t

module _ (fl : Floats) where
  open fl use {Float}

  pub advance-Move :
      (turn : Turn Float) (n m : NodeName) (s t : AgentState Float)
      → advance fl turn n s ≡ at m t
      → Move n m turn.now (exit_of fl turn n s).update s t
  unfolding advance
  advance-Move turn n m s t h = elim (Option-cases (exit_of fl turn n s).update) [
    | inl e ↦ absurd (ground arith)
    | inr (u, e) ↦
        let f =
          follow-Followed n m turn.now (apply_update s u) t (ap (leave fl turn n s) (sym e) ∙ h) in
        record {
          update = u;
          handed_over = e;
          folds = f.same_state;
          not_init = f.not_init;
          leads = f.leads;
        }
  ]
