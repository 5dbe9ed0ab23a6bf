-- ===== src/Engine/Graph/Endings.antt =====
-- How a run can end.
use autonomous_agentic_platf.Prelude.{
  ℕ, zero, suc, ◌+◌, ◌≤◌, String, ◌≡◌, refl, sym, ap, ◌∙◌, ◌≢◌, ◌⊎◌, inl, inr, true, Option, none,
  some, List, arith, Option-cases, Floats,
}
use autonomous_agentic_platf.Engine.NodeName.{
  NodeName, init, planner, researcher, coder, sandbox_exec, debugger, mlops, evaluator, reporter,
  finalizer,
}
use autonomous_agentic_platf.Engine.State.{
  AgentState, Update, apply_update, RunPhase, Seed, fresh, complete,
}
use autonomous_agentic_platf.Engine.Nodes.Envelope.{Attempt, finalise, is_fail_run}
use autonomous_agentic_platf.Engine.Nodes.Envelope.Visits.{
  IsFinal, of_body, of_fallback, of_nothing, run_node-IsFinal, run_node-raises,
}
use autonomous_agentic_platf.Engine.Graph.{
  Turn, Next, ended, failed_run, unmapped, conditional, edge_from, follow, exit_of, leave, advance,
  policy_of, phase_of, run_from, Ending, finished, raised_in, no_edge, out_of_fuel,
}
use autonomous_agentic_platf.Engine.Graph.Bodies.{body_of, fallback_of}
use autonomous_agentic_platf.Engine.Graph.Bounds.{run_from-ends, advance-init, entered, Next-cases}
use autonomous_agentic_platf.Engine.Graph.Caps.{visit_limit}
use autonomous_agentic_platf.Engine.Graph.Moves.{advance-Move}
use autonomous_agentic_platf.Engine.Graph.Paths.{follow-unmapped}

module _ {F : Type 0} where
  IsFinal-phase :
      (fallback : Option (Attempt F)) (phase : RunPhase) (body : ℕ → Attempt F) (u : Update F)
      → IsFinal fallback phase body u
      → u.phase ≡ some (some phase)
  unfolding finalise
  IsFinal-phase fallback phase body u (of_body k v e same) = rw same refl
  IsFinal-phase fallback phase body u (of_fallback v e same) = rw same refl
  IsFinal-phase fallback phase body u (of_nothing same) = rw same refl

  conditional-goes_on :
      (n : NodeName) (r : ℕ → AgentState F → NodeName) (targets : List NodeName) (now : ℕ)
      → (s t : AgentState F) → follow n (conditional r targets) now s ≢ ended t
  unfolding follow
  conditional-goes_on n r targets now s t h = ground arith

  follow-ended :
      (n : NodeName) (now : ℕ) (s t : AgentState F)
      → follow n (edge_from n) now s ≡ ended t
      → (n ≡ finalizer) × (s ≡ t)
  unfolding follow edge_from
  follow-ended finalizer now s t h = (refl, ground arith)
  follow-ended init now s t h = absurd (ground arith)
  follow-ended mlops now s t h = absurd (ground arith)
  follow-ended reporter now s t h = absurd (ground arith)
  follow-ended planner now s t h = absurd (ground arith)
  follow-ended researcher now s t h = absurd (ground arith)
  follow-ended coder now s t h = absurd (ground arith)
  follow-ended sandbox_exec now s t h = absurd (ground arith)
  follow-ended debugger now s t h = absurd (ground arith)
  follow-ended evaluator now s t h = absurd (ground arith)

  follow-runs :
      (n m : NodeName) (now : ℕ) (s : AgentState F) → follow n (edge_from n) now s ≢ failed_run m
  unfolding follow edge_from
  follow-runs init m now s h = ground arith
  follow-runs planner m now s h = ground arith
  follow-runs researcher m now s h = ground arith
  follow-runs coder m now s h = ground arith
  follow-runs sandbox_exec m now s h = ground arith
  follow-runs debugger m now s h = ground arith
  follow-runs mlops m now s h = ground arith
  follow-runs evaluator m now s h = ground arith
  follow-runs reporter m now s h = ground arith
  follow-runs finalizer m now s h = ground arith

  applied-phase :
      (s : AgentState F) (u : Update F) (p : RunPhase)
      → u.phase ≡ some (some p)
      → (apply_update s u).phase ≡ some p
  unfolding apply_update
  applied-phase s u p e = rw e refl

raising-policy : (n : NodeName) → n ≢ init → is_fail_run (policy_of n) ≡ true → n ≡ sandbox_exec
unfolding policy_of
raising-policy init p h = absurd (p refl)
raising-policy sandbox_exec p h = refl
raising-policy planner p h = absurd (ground arith)
raising-policy researcher p h = absurd (ground arith)
raising-policy coder p h = absurd (ground arith)
raising-policy debugger p h = absurd (ground arith)
raising-policy mlops p h = absurd (ground arith)
raising-policy evaluator p h = absurd (ground arith)
raising-policy reporter p h = absurd (ground arith)
raising-policy finalizer p h = absurd (ground arith)

module _ (fl : Floats) where
  open fl use {Float}

  -- What a run's ending can be.
  pub data IsEnding : Ending fl → Type 0 where
    completes : (t : AgentState Float) → t.phase ≡ some complete → IsEnding (finished t)
    sandbox_raises : IsEnding (raised_in sandbox_exec)
    research_stops : IsEnding (no_edge researcher reporter)

  module _ (turn : Turn Float) (n : NodeName) (s : AgentState Float) where
    advance-left :
        (x : Next Float)
        → advance fl turn n s ≡ x
        → ((u : Update Float) × ((exit_of fl turn n s).update ≡ some u)
            × (follow n (edge_from n) turn.now (apply_update s u) ≡ x))
          ⊎ (((exit_of fl turn n s).update ≡ none) × (failed_run n ≡ x))
    unfolding advance
    advance-left x h = elim (Option-cases (exit_of fl turn n s).update) [
      | inl e ↦ inr (e, ap (leave fl turn n s) (sym e) ∙ h)
      | inr (u, e) ↦ inl (u, e, ap (leave fl turn n s) (sym e) ∙ h)
    ]

    exit_of-phase :
        (u : Update Float)
        → (exit_of fl turn n s).update ≡ some u
        → u.phase ≡ some (some (phase_of n))
    unfolding exit_of
    exit_of-phase u h =
        IsFinal-phase (fallback_of fl (turn.answers 1) n s) (phase_of n)
          (λ k. body_of fl (turn.answers k) n s) u
          (run_node-IsFinal (policy_of n) (phase_of n) (fallback_of fl (turn.answers 1) n s)
            (λ k. body_of fl (turn.answers k) n s) turn.retries u h)

    exit_of-raises : (exit_of fl turn n s).update ≡ none → is_fail_run (policy_of n) ≡ true
    unfolding exit_of
    exit_of-raises h =
        run_node-raises (policy_of n) (phase_of n) (fallback_of fl (turn.answers 1) n s)
          (λ k. body_of fl (turn.answers k) n s) turn.retries h

    advance-ended :
        (t : AgentState Float)
        → advance fl turn n s ≡ ended t
        → (n ≡ finalizer) × (t.phase ≡ some complete)
    unfolding phase_of
    advance-ended t h = elim (advance-left (ended t) h) [
      | inr (e, wrong) ↦ absurd (ground arith)
      | inl (u, e, went) ↦
          let (last, same) = follow-ended n turn.now (apply_update s u) t went in
          let phase = exit_of-phase u e in
          let final : phase_of n ≡ complete = ap phase_of last in
          let marked = applied-phase s u (phase_of n) phase in
          (last, rw (sym same, sym final) marked)
    ]

    advance-failed :
        (m : NodeName) → n ≢ init → advance fl turn n s ≡ failed_run m → m ≡ sandbox_exec
    advance-failed m p h = elim (advance-left (failed_run m) h) [
      | inl (u, e, went) ↦ absurd (follow-runs n m turn.now (apply_update s u) went)
      | inr (e, same) ↦
          let here : n ≡ m = ground arith in sym here ∙ raising-policy n p (exit_of-raises e)
    ]

    advance-unmapped :
        (x y : NodeName) → advance fl turn n s ≡ unmapped x y → (x ≡ researcher) × (y ≡ reporter)
    advance-unmapped x y h = elim (advance-left (unmapped x y) h) [
      | inr (e, wrong) ↦ absurd (ground arith)
      | inl (u, e, went) ↦
          let (at_n, at_x, at_y) = follow-unmapped n x y turn.now (apply_update s u) went in
          (at_x, at_y)
    ]

  run_from-IsEnding :
      (fuel : ℕ) (turns : ℕ → Turn Float) (n : NodeName) (s : AgentState Float)
      → n ≢ init
      → run_from fl fuel turns n s ≢ out_of_fuel
      → IsEnding (run_from fl fuel turns n s)
  unfolding run_from
  run_from-IsEnding zero turns n s p h = absurd (h refl)
  run_from-IsEnding (suc fuel) turns n s p h = elim (Next-cases (advance fl (turns 0) n s)) [
    | inl (m, t, e) ↦
        let more : run_from fl fuel (λ i. turns (suc i)) m t ≢ out_of_fuel =
          λ x. h (rw (run_from, e) x) in
        rw (run_from, e)
          (run_from-IsEnding fuel (λ i. turns (suc i)) m t
            (advance-Move fl (turns 0) n m s t e).not_init more)
    | inr (inl (t, e)) ↦ rw (run_from, e) (completes t ((advance-ended (turns 0) n s t e).1))
    | inr (inr (inl (m, e))) ↦
        let where_ = advance-failed (turns 0) n s m p e in rw (run_from, e, where_) sandbox_raises
    | inr (inr (inr (x, y, e))) ↦
        let (ex, ey) = advance-unmapped (turns 0) n s x y e in
        rw (run_from, e, ex, ey) research_stops
  ]

  -- Within `max_node_visits` (at least 1) + 3 super-steps a run is over, whatever the models, the
  -- sandbox and the clock answer, and in one of three ways: it completes through the finalizer,
  -- with the phase `complete`; or the sandbox node raises; or a closed guard after the researcher
  -- names the reporter, to which there is no edge.
  pub run_from-endings :
      (turns : ℕ → Turn Float) (seed : Seed) (kind : String) (fuel : ℕ)
      → visit_limit ((turns 0).answers 1).configured_budgets + 3 ≤ fuel
      → IsEnding (run_from fl fuel turns init (fresh seed kind))
  unfolding run_from
  run_from-endings turns seed kind zero l = absurd (ground arith)
  run_from-endings turns seed kind (suc fuel) l =
      let first = advance-init fl (turns 0) seed kind in
      let over = run_from-ends fl turns seed kind (suc fuel) l in
      let planner_on : run_from fl fuel (λ i. turns (suc i)) planner
            (entered fl (turns 0) seed kind)
          ≢ out_of_fuel =
        λ x. over (rw (run_from, first) x) in
      rw (run_from, first)
        (run_from-IsEnding fuel (λ i. turns (suc i)) planner (entered fl (turns 0) seed kind)
          (λ e. ground arith) planner_on)
