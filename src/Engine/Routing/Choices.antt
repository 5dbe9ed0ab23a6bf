-- ===== src/Engine/Routing/Choices.antt =====
-- What each router's choice rests on, below the guard.
use autonomous_agentic_platf.Prelude.{
  ◌≤◌, ◌<◌, ◌≡◌, ◌≢◌, ◌↔◌, inl, inr, false, ◌&&◌, some, arith, Bool-cases, Option-cases,
}
use autonomous_agentic_platf.Engine.NodeName.{debugger, planner}
use autonomous_agentic_platf.Engine.Errors.{consecutive_repeats}
use autonomous_agentic_platf.Engine.Routing.{
  after_exec, after_failed_exec, after_clean_exec, after_debug, after_eval, budgets_or_default,
  sandbox_budget_spent, wants_research, rounds_left, stagnation_window,
}
use autonomous_agentic_platf.Engine.State.{AgentState, is_clean, SandboxOutcome, Plan}

-- The last execution failed, and both budgets of the debug loop have room.
pub record CanDebug {F : Type 0} (s : AgentState F) : Type 0 where
  pub last : SandboxOutcome F
  pub ran : s.last_outcome ≡ some last
  pub unclean : is_clean last.classification ≡ false
  pub iterations_left : s.debug_iterations < (budgets_or_default s.budgets).max_debug_iterations
  pub executions_left : sandbox_budget_spent s.usage (budgets_or_default s.budgets) ≡ false

module _ {F : Type 0} (s : AgentState F) where
  failed_exec-debugger : (after_failed_exec s ≡ debugger) ↔ (
      (s.debug_iterations < (budgets_or_default s.budgets).max_debug_iterations)
      × (sandbox_budget_spent s.usage (budgets_or_default s.budgets) ≡ false))
  unfolding after_failed_exec
  failed_exec-debugger = (λ h. (ground arith, ground arith), λ h. ground arith)

  clean_exec-other : (o : SandboxOutcome F) (p : Plan F) → after_clean_exec s o p ≢ debugger
  unfolding after_clean_exec
  clean_exec-other o p h = ground arith

  -- After an execution the router, below its guard, chooses the debugger exactly when the
  -- execution failed, debug iterations are left, and sandbox executions are left.
  pub after_exec-debugger : (after_exec s ≡ debugger) ↔ CanDebug s
  unfolding after_exec
  after_exec-debugger =
      (forward, λ h. ground (arith, failed_exec-debugger.1 (h.iterations_left, h.executions_left)))
    where
      forward : after_exec s ≡ debugger → CanDebug s
      forward h = elim (Option-cases s.last_outcome) [
        | inl e ↦ absurd (ground arith)
        | inr (last, e) ↦ elim (Bool-cases (is_clean last.classification)) [
          | inl c ↦ elim (Option-cases s.plan) [
            | inl ep ↦ absurd (ground arith)
            | inr (p, ep) ↦ absurd (clean_exec-other last p (ground arith))
          ]
          | inr c ↦
              let (left, more) = failed_exec-debugger.0 (ground arith) in
              record {
                last = last;
                ran = e;
                unclean = c;
                iterations_left = left;
                executions_left = more;
              }
        ]
      ]

  -- The debugger's router sends the run to the planner only while replans are left.
  pub after_debug-planner :
      after_debug s ≡ planner → s.replan_count < (budgets_or_default s.budgets).max_replans
  unfolding after_debug
  after_debug-planner h = ground arith

  -- Three failures in a row with one fingerprint make the router after the debugger, below its
  -- guard, choose the planner, while replans are left, the debug budget is not overrun, and no
  -- research is asked for that could still be done.
  pub after_debug-stagnates :
      stagnation_window ≤ consecutive_repeats s.errors
      → s.replan_count < (budgets_or_default s.budgets).max_replans
      → s.debug_iterations ≤ (budgets_or_default s.budgets).max_debug_iterations
      → (wants_research s.last_diagnosis && rounds_left s.context_history) ≡ false
      → after_debug s ≡ planner
  unfolding after_debug
  after_debug-stagnates h r d w = ground arith

  pub after_eval-planner :
      after_eval s ≡ planner → s.replan_count < (budgets_or_default s.budgets).max_replans
  unfolding after_eval
  after_eval-planner h = ground arith
