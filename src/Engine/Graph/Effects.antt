-- ===== src/Engine/Graph/Effects.antt =====
-- What a node's update may write to the channels that the budgets bound.
use autonomous_agentic_platf.Engine.Graph.{exit_of, Turn, init, policy_of, phase_of}
use autonomous_agentic_platf.Engine.Evaluator.{verdict_update, RubricAssessment}
use autonomous_agentic_platf.Engine.Graph.Bodies.{
  Answers, usage_of, body_of, fallback_of, evaluation, has_step,
}
use autonomous_agentic_platf.Engine.Nodes.Reporter.{final_update}
use autonomous_agentic_platf.Engine.Nodes.Debugger.{minimal_diagnosis, reconcile}
use autonomous_agentic_platf.Engine.Nodes.Researcher.{degraded_pack}
use autonomous_agentic_platf.Prelude.{
  ◌≡◌, refl, inl, none, some, arith, Option, inr, Floats, ◌≢◌, Option-cases, Bool-cases,
}
use autonomous_agentic_platf.Engine.NodeName.{
  NodeName, planner, debugger, coder, sandbox_exec, finalizer, researcher, mlops, evaluator,
  reporter,
}
use autonomous_agentic_platf.Engine.State.{AgentState, Update, Usage, no_update, no_usage}
use autonomous_agentic_platf.Engine.Nodes.Envelope.{returned, Attempt}
use autonomous_agentic_platf.Engine.Nodes.Envelope.Visits.{
  run_node-IsFinal, of_body, of_fallback, of_nothing,
}
use autonomous_agentic_platf.Engine.Graph.Updates.{
  FromBody, Counted, no_update-FromBody, finalise-Counted, returned-FromBody, plan_update-FromBody,
  research_update-FromBody, diagnosis_update-FromBody, mlops_body-FromBody,
  reporter_attempt-FromBody, coded_attempt-FromBody, executed_attempt-FromBody,
}

module _ (fl : Floats) where
  open fl use {Float}

  evaluation-FromBody :
      (n : NodeName) (s : AgentState Float) (r : Option RubricAssessment) (u : Usage)
      → u.node_visits ≡ 0
      → FromBody n s (evaluation fl s r u)
  unfolding verdict_update
  evaluation-FromBody n s r u h = record {
    owns = record { keeps_budgets = refl; debugs = inl refl; replans = inl refl };
    no_visit = h;
  }

  final_update-FromBody : (n : NodeName) (s : AgentState Float) → FromBody n s (final_update fl s)
  unfolding final_update
  final_update-FromBody n s = record {
    owns = record { keeps_budgets = refl; debugs = inl refl; replans = inl refl };
    no_visit = refl;
  }

  body_of-FromBody :
      (a : Answers Float) (n : NodeName) (s : AgentState Float) (v : Update Float)
      → n ≢ init
      → body_of fl a n s ≡ returned v
      → FromBody n s v
  unfolding body_of
  body_of-FromBody a init s v p h = absurd (p refl)
  body_of-FromBody a planner s v p h = elim (Option-cases a.planned) [
    | inl e ↦ absurd (ground arith)
    | inr (plan, e) ↦ returned-FromBody planner s _ v (plan_update-FromBody s plan a) (ground arith)
  ]
  body_of-FromBody a researcher s v p h = elim (Option-cases a.researched) [
    | inl e ↦ absurd (ground arith)
    | inr (pack, e) ↦
        returned-FromBody researcher s _ v
          (research_update-FromBody researcher s pack (usage_of a.spend) refl) (ground arith)
  ]
  body_of-FromBody a coder s v p h = elim (Bool-cases (has_step s)) [
    | inl e ↦ coded_attempt-FromBody coder s a a.coded v (ground arith)
    | inr e ↦ absurd (ground arith)
  ]
  body_of-FromBody a sandbox_exec s v p h = elim (Option-cases s.current_revision) [
    | inl e ↦ absurd (ground arith)
    | inr (r, e) ↦ executed_attempt-FromBody sandbox_exec s a r a.executed v (ground arith)
  ]
  body_of-FromBody a mlops s v p h = mlops_body-FromBody mlops s a.logged v h
  body_of-FromBody a debugger s v p h = elim (Option-cases s.last_error) [
    | inl e ↦ absurd (ground arith)
    | inr (error, e) ↦ elim (Option-cases a.diagnosed) [
      | inl d ↦ absurd (ground arith)
      | inr (diagnosis, d) ↦
          returned-FromBody debugger s _ v
            (diagnosis_update-FromBody s (reconcile fl a.blank diagnosis error a.prior_art)
              (usage_of a.spend) refl)
            (ground arith)
    ]
  ]
  body_of-FromBody a evaluator s v p h =
      returned-FromBody evaluator s _ v (evaluation-FromBody evaluator s a.assessed _ refl) h
  body_of-FromBody a reporter s v p h = reporter_attempt-FromBody reporter s a.written _ v refl h
  body_of-FromBody a finalizer s v p h = elim (Bool-cases a.disk_ready) [
    | inl e ↦ returned-FromBody finalizer s _ v (final_update-FromBody finalizer s) (ground arith)
    | inr e ↦ absurd (ground arith)
  ]

  some-returned : (w v : Attempt Float) → some w ≡ some v → w ≡ v
  some-returned w v h = ground arith

  fallback_of-FromBody :
      (a : Answers Float) (n : NodeName) (s : AgentState Float) (v : Update Float)
      → fallback_of fl a n s ≡ some (returned v)
      → FromBody n s v
  unfolding fallback_of
  fallback_of-FromBody a init s v h = absurd (ground arith)
  fallback_of-FromBody a planner s v h = absurd (ground arith)
  fallback_of-FromBody a coder s v h = absurd (ground arith)
  fallback_of-FromBody a sandbox_exec s v h = absurd (ground arith)
  fallback_of-FromBody a finalizer s v h = absurd (ground arith)
  fallback_of-FromBody a researcher s v h =
      returned-FromBody researcher s _ v
        (research_update-FromBody researcher s degraded_pack _ refl) (some-returned _ _ h)
  fallback_of-FromBody a mlops s v h =
      returned-FromBody mlops s _ v (no_update-FromBody mlops s) (some-returned _ _ h)
  fallback_of-FromBody a debugger s v h =
      returned-FromBody debugger s _ v
        (diagnosis_update-FromBody s (minimal_diagnosis fl s.last_error "" "") no_usage refl)
        (some-returned _ _ h)
  fallback_of-FromBody a evaluator s v h =
      returned-FromBody evaluator s _ v (evaluation-FromBody evaluator s none no_usage refl)
        (some-returned _ _ h)
  fallback_of-FromBody a reporter s v h =
      reporter_attempt-FromBody reporter s a.fallback_text no_usage v refl (some-returned _ _ h)

  -- Whatever a node but init does, with retries, failures and fallbacks: the update it hands to
  -- the graph counts one visit, leaves the budgets alone, raises the debug iterations by one if
  -- it writes them and is the debugger's, sets the replan count to the next one if it writes it
  -- and is the planner's, and writes neither counter otherwise.
  pub exit_of-Counted :
      (turn : Turn Float) (n : NodeName) (s : AgentState Float) (u : Update Float)
      → n ≢ init
      → (exit_of fl turn n s).update ≡ some u
      → Counted n s u
  unfolding exit_of
  exit_of-Counted turn n s u p h =
      elim (run_node-IsFinal (policy_of n) (phase_of n) (fallback_of fl (turn.answers 1) n s)
        (λ k. body_of fl (turn.answers k) n s) turn.retries u h) [
          | of_body k v e same ↦
              rw same
                (finalise-Counted n s v (phase_of n) (body_of-FromBody (turn.answers k) n s v p e))
          | of_fallback v e same ↦
              rw same (
                finalise-Counted n s v (phase_of n) (fallback_of-FromBody (turn.answers 1) n s v e))
          | of_nothing same ↦
              rw same (finalise-Counted n s no_update (phase_of n) (no_update-FromBody n s))
        ]
