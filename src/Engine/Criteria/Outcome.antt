-- ===== src/Engine/Criteria/Outcome.antt =====
-- When a run counts as succeeded.
use autonomous_agentic_platf.Prelude.{
  [], ◌≡◌, refl, ◌↔◌, inl, inr, true, false, Option, none, some, List, ◌∷◌, arith, Bool-cases,
  Floats,
}
use autonomous_agentic_platf.Engine.Criteria.{
  determine_outcome, judged_outcome, outcome_after, observed_metrics, plan_criteria,
}
use autonomous_agentic_platf.Engine.Criteria.Meets.{AllRequiredMet, check_criteria-AllRequiredMet}
use autonomous_agentic_platf.Engine.State.{
  AgentState, succeeded, SuccessCriterion, SandboxOutcome, Metrics, is_clean,
}

module _ (fl : Floats) where
  open fl use {Float}

  judged_outcome-succeeded :
      (cs : List (SuccessCriterion Float)) (metrics : Option (Metrics Float))
      → ((judged_outcome fl cs metrics).0 ≡ succeeded)
        ↔ AllRequiredMet fl (observed_metrics metrics) cs
  unfolding judged_outcome
  judged_outcome-succeeded [] metrics = (λ _. tt, λ _. refl)
  judged_outcome-succeeded (c ∷ cs) metrics =
      let decided = check_criteria-AllRequiredMet fl (c ∷ cs) (observed_metrics metrics) in
      (λ h. decided.0 (ground arith), λ m. ground (arith, decided.1 m))

  -- The run was not cancelled, its last execution was clean, and every required criterion of its
  -- plan is met by the metrics of that execution.
  pub record Succeeds (s : AgentState Float) : Type 0 where
    pub not_cancelled : s.cancel_requested ≡ false
    pub last : SandboxOutcome Float
    pub ran : s.last_outcome ≡ some last
    pub ran_clean : is_clean last.classification ≡ true
    pub met : AllRequiredMet fl (observed_metrics last.metrics) (plan_criteria s.plan)

  Succeeds-of :
      (s : AgentState Float) (o : Option (SandboxOutcome Float))
      → s.last_outcome ≡ o
      → s.cancel_requested ≡ false
      → ((outcome_after fl o (plan_criteria s.plan)).0 ≡ succeeded)
      → Succeeds s
  Succeeds-of s none e c h = cc
  Succeeds-of s (some last) e c h = elim (Bool-cases (is_clean last.classification)) [
    | inl clean ↦ record {
      not_cancelled = c;
      last = last;
      ran = e;
      ran_clean = clean;
      met = (judged_outcome-succeeded (plan_criteria s.plan) last.metrics).0 (ground arith);
    }
    | inr other ↦ absurd (ground arith)
  ]

  -- The run outcome is SUCCEEDED exactly when the run was not cancelled, its last execution was
  -- clean and every required criterion of its plan is met by that execution's metrics.
  pub determine_outcome-succeeded :
      (s : AgentState Float) → ((determine_outcome fl s).0 ≡ succeeded) ↔ Succeeds s
  unfolding determine_outcome
  determine_outcome-succeeded s = (forward, backward)
    where
      forward : (determine_outcome fl s).0 ≡ succeeded → Succeeds s
      forward h = elim (Bool-cases s.cancel_requested) [
        | inl c ↦ absurd (ground arith)
        | inr c ↦ Succeeds-of s s.last_outcome refl c (ground arith)
      ]

      backward : Succeeds s → (determine_outcome fl s).0 ≡ succeeded
      backward m =
          ground (arith, (judged_outcome-succeeded (plan_criteria s.plan) m.last.metrics).1 m.met)
