-- ===== src/Engine/Evaluator/Agreement.antt =====
-- The verdict against the router, and against the outcome that the report and the API give.
use autonomous_agentic_platf.Prelude.{
  [], ◌+◌, ◌<◌, ◌≡◌, refl, sym, ◌∙◌, Bool, true, false, Option, none, some, List, ◌∷◌, ◌++◌, arith,
  if◌then◌else◌, count_if-append, Floats,
}
use autonomous_agentic_platf.Engine.NodeName.{NodeName, coder, planner, reporter}
use autonomous_agentic_platf.Engine.Criteria.{
  check_criteria, observed_metrics, plan_criteria, determine_outcome, judged_outcome, outcome_after,
}
use autonomous_agentic_platf.Engine.Criteria.Meets.{AllRequiredMet, check_criteria-AllRequiredMet}
use autonomous_agentic_platf.Engine.Routing.{budgets_or_default, after_eval}
use autonomous_agentic_platf.Engine.State.{
  AgentState, EvalDecision, refine_cycles, apply_update, accept, Verdict, RunOutcome, succeeded,
  refine, failed, replan, is_refine, abort, SuccessCriterion, SandboxOutcome, partial,
}
use autonomous_agentic_platf.Engine.Evaluator.{
  RubricAssessment, build_verdict, verdict_update, executed_cleanly, last_metrics, proposal_of,
  decision_table, reconcile_decision, outcome_is_clean,
}
use autonomous_agentic_platf.Engine.Evaluator.Decide.{
  table_outcome, gap_is_narrow, no_quality_left, no_replans_left, build_verdict-refine,
  build_verdict-replan, build_verdict-outcome_clean,
}

-- Where a decision means to send the run.
abbrev pub destination : EvalDecision → NodeName
destination accept = reporter
destination refine = coder
destination replan = planner
destination abort = reporter

refine_cycles-append :
    {F : Type 0} (vs : List (Verdict F)) (v : Verdict F)
    → v.decision ≡ refine
    → refine_cycles (vs ++ v ∷ []) ≡ refine_cycles vs + 1
unfolding refine_cycles
refine_cycles-append vs v h =
    ground (arith, count_if-append (λ w. is_refine w.decision) vs (v ∷ []))

-- A verdict whose budget is there is sent where its decision says.
after_eval-affordable :
    {F : Type 0} (s : AgentState F) (v : Verdict F) (o : Option RunOutcome)
    → (v.decision ≡ refine
        → s.debug_iterations + refine_cycles s.verdicts
          < (budgets_or_default s.budgets).max_debug_iterations)
    → (v.decision ≡ replan → s.replan_count < (budgets_or_default s.budgets).max_replans)
    → after_eval (apply_update s (verdict_update s v o)) ≡ destination v.decision
unfolding after_eval apply_update verdict_update
after_eval-affordable s v o quality replans = ground (arith, refine_cycles-append s.verdicts v)

outcome_after-clean :
    (fl : Floats) (cs : List (SuccessCriterion fl.Float)) (last : Option (SandboxOutcome fl.Float))
    → outcome_is_clean last ≡ true
    → (outcome_after fl last cs).0 ≡ (
        if (check_criteria fl cs (observed_metrics (last_metrics last))).1
        then succeeded
        else partial)
unfolding judged_outcome check_criteria
outcome_after-clean fl cs none h = cc
outcome_after-clean fl [] (some last) h = ground arith
outcome_after-clean fl (c ∷ cs) (some last) h = ground arith

outcome_after-unclean :
    (fl : Floats) (cs : List (SuccessCriterion fl.Float)) (last : Option (SandboxOutcome fl.Float))
    → outcome_is_clean last ≡ false
    → (outcome_after fl last cs).0 ≡ failed
outcome_after-unclean fl cs none h = refl
outcome_after-unclean fl cs (some last) h = ground arith

table-passed :
    (clean narrow no_quality no_replans : Bool) (proposed : Option EvalDecision)
    → table_outcome true clean narrow no_quality no_replans proposed ≡ some succeeded
unfolding decision_table reconcile_decision
table-passed clean narrow no_quality no_replans none = refl
table-passed clean narrow no_quality no_replans (some p) = refl

module _ (fl : Floats) (s : AgentState fl.Float) (a : Option RubricAssessment) where
  -- Once the evaluator's update is folded into the state, the router below its guard sends the
  -- run where the verdict's decision means to: the budget that the router checks again was
  -- checked, on the same numbers, when the verdict was formed.
  pub after_eval-build_verdict :
      let (verdict, outcome) = build_verdict fl s a in
      after_eval (apply_update s (verdict_update s verdict outcome)) ≡ destination verdict.decision
  after_eval-build_verdict =
      after_eval-affordable s _ _ (build_verdict-refine fl s a) (build_verdict-replan fl s a)

  -- Where the last execution was clean and the run is not cancelled, an outcome that the verdict
  -- states is the outcome that the report and the API compute.
  pub build_verdict-determine_outcome :
      (o : RunOutcome)
      → s.cancel_requested ≡ false
      → executed_cleanly s ≡ true
      → (build_verdict fl s a).1 ≡ some o
      → (determine_outcome fl s).0 ≡ o
  unfolding determine_outcome build_verdict executed_cleanly
  build_verdict-determine_outcome o c h e = rw c (
      outcome_after-clean fl (plan_criteria s.plan) s.last_outcome h
      ∙ sym (build_verdict-outcome_clean fl s a o h e))

  -- Where the last execution was not clean, or there was none, and the run is not cancelled, a
  -- plan whose required criteria are all met (as when it has none) is accepted as SUCCEEDED by
  -- the verdict, while the report and the API call the same run FAILED.
  pub build_verdict-disagrees :
      s.cancel_requested ≡ false
      → executed_cleanly s ≡ false
      → AllRequiredMet fl (observed_metrics (last_metrics s.last_outcome)) (plan_criteria s.plan)
      → ((build_verdict fl s a).1 ≡ some succeeded) × ((determine_outcome fl s).0 ≡ failed)
  unfolding determine_outcome build_verdict executed_cleanly
  build_verdict-disagrees c h m = (
    rw ((check_criteria-AllRequiredMet fl (plan_criteria s.plan) _).1 m) (
        table-passed (executed_cleanly s) (gap_is_narrow fl s a) (no_quality_left fl s a)
          (no_replans_left fl s a) (proposal_of a)),
    rw c (outcome_after-unclean fl (plan_criteria s.plan) s.last_outcome h),
  )
