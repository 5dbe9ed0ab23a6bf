-- ===== src/Engine/Graph/Bounds.antt =====
-- The bound on the node visits of a run, and that a run ends.
use autonomous_agentic_platf.Engine.Nodes.Reporter.{init_update}
use autonomous_agentic_platf.Engine.Nodes.Envelope.{
  finalise, run_attempts, attempt_loop, attempts_of,
}
use autonomous_agentic_platf.Prelude.{
  ℕ, ◌+◌, ◌≤◌, ◌≡◌, refl, ◌≢◌, some, arith, Floats, ◌⊎◌, suc, inl, inr, ap, zero, ◌∙◌, String, none,
}
use autonomous_agentic_platf.Engine.NodeName.{NodeName, init, planner}
use autonomous_agentic_platf.Engine.State.{
  AgentState, Budgets, apply_update, merge_usage, Seed, fresh, init_phase,
}
use autonomous_agentic_platf.Engine.Graph.{
  edge_from, Next, run_from, Turn, at, advance, out_of_fuel, ended, failed_run, unmapped, exit_of,
  run_node, policy_of, phase_of, body_of, follow,
}
use autonomous_agentic_platf.Engine.Graph.Moves.{advance-Move}
use autonomous_agentic_platf.Engine.Graph.Effects.{exit_of-Counted}
use autonomous_agentic_platf.Engine.Nodes.Envelope.{
  run_node, run_attempts, attempt_loop, attempts_of,
}
use autonomous_agentic_platf.Engine.Graph.Bodies.{body_of}
use autonomous_agentic_platf.Engine.Graph.Caps.{
  visit_limit, Bounded, Counted-usage, kept-budgets, move-cap, cap-most,
}

pub Next-cases :
    {F : Type 0} (x : Next F)
    → ((m : NodeName) × (t : AgentState F) × (x ≡ at m t))
      ⊎ ((t : AgentState F) × (x ≡ ended t))
      ⊎ ((m : NodeName) × (x ≡ failed_run m))
      ⊎ ((n : NodeName) × (m : NodeName) × (x ≡ unmapped n m))
Next-cases (at m t) = inl (m, t, refl)
Next-cases (ended t) = inr (inl (t, refl))
Next-cases (failed_run m) = inr (inr (inl (m, refl)))
Next-cases (unmapped n m) = inr (inr (inr (n, m, refl)))

module _ (fl : Floats) where
  open fl use {Float}

  -- A super-step keeps the bound and adds one visit.
  pub advance-Bounded :
      (turn : Turn Float) (b : Budgets) (n m : NodeName) (s t : AgentState Float)
      → (h : Bounded b n s) → advance fl turn n s ≡ at m t
      → (k : Bounded b m t) × (k.used.node_visits ≡ h.used.node_visits + 1)
  advance-Bounded turn b n m s t h e =
      let move = advance-Move fl turn n m s t e in
      let counted = exit_of-Counted fl turn n s move.update h.not_init move.handed_over in
      let (w, known, more) = Counted-usage n s move.update h.used h.known counted in
      let t_known : t.usage ≡ some w = ap (λ x. x.usage) move.folds ∙ known in
      let t_limits : t.budgets ≡ some b =
        ap (λ x. x.budgets) move.folds ∙ kept-budgets n s move.update b h.limits counted.owned in
      (
        record {
          used = w;
          known = t_known;
          limits = t_limits;
          not_init = move.not_init;
          within =
              move-cap b n m turn.now t w h.used.node_visits t_known t_limits more h.not_init
                h.within move.leads;
        },
        more,
      )

  Bounded-ends :
      (fuel : ℕ) (turns : ℕ → Turn Float) (b : Budgets) (n : NodeName) (s : AgentState Float)
      → (h : Bounded b n s) → visit_limit b + 3 ≤ fuel + h.used.node_visits
      → run_from fl fuel turns n s ≢ out_of_fuel
  unfolding run_from
  Bounded-ends zero turns b n s h l e = ground (arith, h.within, cap-most n (visit_limit b))
  Bounded-ends (suc fuel) turns b n s h l e = elim (Next-cases (advance fl (turns 0) n s)) [
    | inl (m, t, step) ↦
        let (k, more) = advance-Bounded (turns 0) b n m s t h step in
        Bounded-ends fuel (λ i. turns (suc i)) b m t k (ground arith) (ground arith)
    | inr (inl (t, step)) ↦ ground arith
    | inr (inr (inl (m, step))) ↦ ground arith
    | inr (inr (inr (x, y, step))) ↦ ground arith
  ]

  -- What the init node makes of the state that the worker starts a run with.
  abbrev pub entered : Turn Float → Seed → String → AgentState Float
  entered turn seed kind = apply_update (fresh seed kind) (
      finalise
        (init_update (fresh seed kind) (turn.answers 1).configured_budgets (turn.answers 1).clock)
        init_phase)

  pub advance-init :
      (turn : Turn Float) (seed : Seed) (kind : String)
      → advance fl turn init (fresh seed kind) ≡ at planner (entered turn seed kind)
  unfolding advance exit_of attempts_of attempt_loop policy_of phase_of follow edge_from run_node
      run_attempts body_of
  advance-init turn seed kind = refl

  pub entered-Bounded :
      (turn : Turn Float) (seed : Seed) (kind : String)
      → (h : Bounded (turn.answers 1).configured_budgets planner (entered turn seed kind))
        × (h.used.node_visits ≡ 1)
  unfolding apply_update finalise init_update merge_usage
  entered-Bounded turn seed kind = (
    record {
      used = _;
      known = refl;
      limits = refl;
      not_init = λ e. ground arith;
      within = ground arith;
    },
    refl,
  )

  pub entered-counters :
      (turn : Turn Float) (seed : Seed) (kind : String)
      → let s = entered turn seed kind in
        (s.debug_iterations ≡ 0) × (s.replan_count ≡ 0) × (s.plan ≡ none)
  unfolding apply_update finalise init_update
  entered-counters turn seed kind = (refl, refl, refl)

  -- A run ends: whatever the models, the sandbox and the clock answer, it finishes, raises or is
  -- left without an edge within `max_node_visits` (at least 1) + 3 super-steps.
  pub run_from-ends :
      (turns : ℕ → Turn Float) (seed : Seed) (kind : String) (fuel : ℕ)
      → visit_limit ((turns 0).answers 1).configured_budgets + 3 ≤ fuel
      → run_from fl fuel turns init (fresh seed kind) ≢ out_of_fuel
  unfolding run_from
  run_from-ends turns seed kind zero l e = ground arith
  run_from-ends turns seed kind (suc fuel) l e =
      let (h, one) = entered-Bounded (turns 0) seed kind in
      Bounded-ends fuel (λ i. turns (suc i)) _ planner (entered (turns 0) seed kind) h
        (ground arith) (ground (arith, advance-init (turns 0) seed kind))
