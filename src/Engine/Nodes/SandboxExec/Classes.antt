-- ===== src/Engine/Nodes/SandboxExec/Classes.antt =====
-- When an execution counts as clean, and what the node writes then.
use autonomous_agentic_platf.Prelude.{
  ◌||◌, [], ◌≡◌, refl, ◌↔◌, inl, inr, Bool, true, false, not, ◌&&◌, none, List, arith, Bool-cases,
  or_else, is_none, length, is_empty, All, ◌⊎◌,
}
use autonomous_agentic_platf.Engine.State.{
  AgentState, is_clean, CodeRevision, ErrorRecord, no_usage,
}
use autonomous_agentic_platf.Engine.Nodes.SandboxExec.{
  SandboxResult, Problem, exited_zero, classify, execution_update, classification_of,
}

module _ {F : Type 0} where
  -- The validator let the code through, it exited with 0 in time and in memory, and a training step
  -- left metrics that break no contract.
  pub record IsClean (r : SandboxResult F) (is_train : Bool) (problems : List Problem)
      : Type 0 where
    pub validated : r.validation.passed ≡ true
    pub in_time : r.timed_out ≡ false
    pub in_memory : r.oom_killed ≡ false
    pub exited : exited_zero r.exit_code ≡ true
    pub measured : (is_train && (is_none r.metrics || not (is_empty problems))) ≡ false

  -- An execution is classified as clean exactly when the validator let the code through, it
  -- exited with 0 in time and in memory, and a training step left metrics that break no contract.
  pub classify-IsClean :
      (r : SandboxResult F) (is_train : Bool) (problems : List Problem)
      → (is_clean (classify r is_train problems) ≡ true) ↔ IsClean r is_train problems
  unfolding classify
  classify-IsClean r is_train problems = (
    λ h. record {
      validated = ground arith;
      in_time = ground arith;
      in_memory = ground arith;
      exited = ground arith;
      measured = ground arith;
    },
    λ h. ground (arith, h.validated, h.in_time, h.in_memory, h.exited, h.measured),
  )

  -- The sandbox node records one outcome. It records the error exactly where the classification
  -- is not clean, an outcome that is not clean carries no metrics, and one sandbox execution is
  -- spent either way.
  pub execution_update-errors :
      (s : AgentState F) (revision : CodeRevision) (r : SandboxResult F) (e : ErrorRecord)
      → let u = execution_update s revision r e in
        (length u.outcomes ≡ 1)
        × ((u.errors ≡ []) ↔ (is_clean (classification_of s r) ≡ true))
        × ((u.last_error ≡ none) ↔ (is_clean (classification_of s r) ≡ true))
        × All (λ o. (is_clean o.classification ≡ true) ⊎ (o.metrics ≡ none)) u.outcomes
        × ((or_else u.usage no_usage).sandbox_executions ≡ 1)
  unfolding execution_update
  execution_update-errors s revision r e = elim (Bool-cases (is_clean (classification_of s r))) [
    | inl c ↦ (refl, (λ h. c, λ h. rw c refl), (λ h. c, λ h. rw c refl), (inl c, tt), refl)
    | inr c ↦ (
      refl,
      (λ h. ground arith, λ h. ground arith),
      (λ h. ground arith, λ h. ground arith),
      (inr (rw c refl), tt),
      refl,
    )
  ]
