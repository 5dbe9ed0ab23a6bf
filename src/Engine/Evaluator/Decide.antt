-- ===== src/Engine/Evaluator/Decide.antt =====
-- What the decision table promises, with the advice of the model folded in.
use autonomous_agentic_platf.Prelude.{
  ℕ, ◌+◌, ◌<◌, ◌≡◌, ◌↔◌, Bool, true, false, Option, none, some, arith, leb, if◌then◌else◌, Floats,
}
use autonomous_agentic_platf.Engine.Evaluator.{
  RubricAssessment, decision_table, reconcile_decision, quality_spent, replans_spent, build_verdict,
  proposal_of, same_decision, executed_cleanly, last_metrics, nearest_gap, refine_gap_ceiling,
}
use autonomous_agentic_platf.Engine.Criteria.Meets.{AllRequiredMet, check_criteria-AllRequiredMet}
use autonomous_agentic_platf.Engine.Criteria.{check_criteria, observed_metrics, plan_criteria}
use autonomous_agentic_platf.Engine.Routing.{budgets_or_default}
use autonomous_agentic_platf.Engine.State.{
  AgentState, EvalDecision, refine_cycles, refine, replan, accept, RunOutcome, succeeded, partial,
}

module _ (passed clean narrow no_quality no_replans : Bool) (proposed : Option EvalDecision) where
  abbrev pub reconciled : EvalDecision
  reconciled =
      reconcile_decision (decision_table passed clean narrow no_quality no_replans).0 proposed
        no_replans

  table-refine : reconciled ≡ refine → no_quality ≡ false
  unfolding decision_table reconcile_decision
  table-refine h = ground arith

  table-replan : reconciled ≡ replan → no_replans ≡ false
  unfolding decision_table reconcile_decision
  table-replan h = ground arith

  table-accept : (reconciled ≡ accept) ↔ (passed ≡ true)
  unfolding decision_table reconcile_decision
  table-accept = (λ h. ground arith, λ h. ground arith)

  -- The outcome that goes with the decision, none if the model changed it.
  abbrev pub table_outcome : Option RunOutcome
  table_outcome =
      let (computed, outcome) = decision_table passed clean narrow no_quality no_replans in
      if same_decision reconciled computed then outcome else none

  table-outcome_clean :
      (o : RunOutcome)
      → clean ≡ true
      → table_outcome ≡ some o
      → o ≡ (if passed then succeeded else partial)
  unfolding decision_table reconcile_decision
  table-outcome_clean o c h = ground arith

ltb-of-leb : (a b : ℕ) → leb a b ≡ false → b < a
ltb-of-leb a b h = ground arith

module _ (fl : Floats) (s : AgentState fl.Float) (a : Option RubricAssessment) where
  -- The tests that `build_verdict` makes on the state.
  abbrev all_met : Bool
  all_met =
      (check_criteria fl (plan_criteria s.plan) (observed_metrics (last_metrics s.last_outcome))).1

  abbrev pub gap_is_narrow : Bool
  gap_is_narrow =
      let results =
        (check_criteria fl (plan_criteria s.plan)
          (observed_metrics (last_metrics s.last_outcome))).0 in
      fl.le (nearest_gap fl results (plan_criteria s.plan)) (refine_gap_ceiling fl)

  abbrev pub no_quality_left : Bool
  no_quality_left =
      quality_spent s.debug_iterations (refine_cycles s.verdicts) (budgets_or_default s.budgets)

  abbrev pub no_replans_left : Bool
  no_replans_left = replans_spent s.replan_count (budgets_or_default s.budgets)

  -- A verdict that asks for a refinement is given only while the quality budget, which debug
  -- iterations and earlier refinements share, has room.
  pub build_verdict-refine :
      (build_verdict fl s a).0.decision ≡ refine
      → s.debug_iterations + refine_cycles s.verdicts
        < (budgets_or_default s.budgets).max_debug_iterations
  unfolding build_verdict quality_spent
  build_verdict-refine h = ltb-of-leb _ _ (
      table-refine all_met (executed_cleanly s) gap_is_narrow no_quality_left no_replans_left
        (proposal_of a) h)

  -- A verdict that asks for a new plan, the model's downgrade included, is given only while
  -- replans are left.
  pub build_verdict-replan :
      (build_verdict fl s a).0.decision ≡ replan
      → s.replan_count < (budgets_or_default s.budgets).max_replans
  unfolding build_verdict replans_spent
  build_verdict-replan h = ltb-of-leb _ _ (
      table-replan all_met (executed_cleanly s) gap_is_narrow no_quality_left no_replans_left
        (proposal_of a) h)

  -- The verdict is ACCEPT exactly when every required criterion of the plan is met by the last
  -- metrics, whatever the model proposes.
  pub build_verdict-accept :
      ((build_verdict fl s a).0.decision ≡ accept)
      ↔ AllRequiredMet fl (observed_metrics (last_metrics s.last_outcome)) (plan_criteria s.plan)
  unfolding build_verdict
  build_verdict-accept =
      let on_table =
        table-accept all_met (executed_cleanly s) gap_is_narrow no_quality_left no_replans_left
          (proposal_of a) in
      let met =
        check_criteria-AllRequiredMet fl (plan_criteria s.plan)
          (observed_metrics (last_metrics s.last_outcome)) in
      (λ h. met.0 (on_table.0 h), λ m. on_table.1 (met.1 m))

  pub build_verdict-outcome_clean :
      (o : RunOutcome)
      → executed_cleanly s ≡ true
      → (build_verdict fl s a).1 ≡ some o
      → o ≡ (if (build_verdict fl s a).0.passed then succeeded else partial)
  unfolding build_verdict
  build_verdict-outcome_clean =
      table-outcome_clean all_met (executed_cleanly s) gap_is_narrow no_quality_left no_replans_left
        (proposal_of a)
