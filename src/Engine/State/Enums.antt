-- ===== src/Engine/State/Enums.antt =====
-- The enumerations of backend/app/engine/state.py (lines 44 to 131), and the tests `is` and `in`
-- that the code makes on them.
use autonomous_agentic_platf.Prelude.{Bool, true, false}

pub data RunPhase : Type 0 where
  init_phase planning research_phase implement_phase execute debug track : RunPhase
  evaluate_phase report_phase complete : RunPhase

pub data StepStatus : Type 0 where
  pending running step_succeeded step_failed skipped : StepStatus

pub data StepKind : Type 0 where
  research implement train evaluate report : StepKind

pub data ErrorKind : Type 0 where
  syntax import_error name_error type_error value_error shape data_error runtime assertion :
      ErrorKind
  timeout_error oom_error contract_error rejected_error unknown : ErrorKind

pub data EvalDecision : Type 0 where
  accept refine replan abort : EvalDecision

pub data RunOutcome : Type 0 where
  succeeded partial failed cancelled : RunOutcome

pub data Classification : Type 0 where
  clean runtime_error timeout oom contract_violation validation_rejected : Classification
  unknown_failure : Classification

pub data SandboxProfileName : Type 0 where
  exec train_profile train_tracked : SandboxProfileName

pub data Comparator : Type 0 where
  gte lte gt lt eq approx : Comparator

pub data Sufficiency : Type 0 where
  sufficient partially insufficient : Sufficiency

abbrev pub is_clean : Classification → Bool
is_clean clean = true
is_clean _ = false

abbrev pub is_pending : StepStatus → Bool
is_pending pending = true
is_pending _ = false

abbrev pub is_train : StepKind → Bool
is_train train = true
is_train _ = false

abbrev pub is_evaluate : StepKind → Bool
is_evaluate evaluate = true
is_evaluate _ = false

abbrev pub is_report : StepKind → Bool
is_report report = true
is_report _ = false

abbrev pub is_refine : EvalDecision → Bool
is_refine refine = true
is_refine _ = false

abbrev pub is_replan : EvalDecision → Bool
is_replan replan = true
is_replan _ = false

-- `decision in {ACCEPT, ABORT}`
abbrev pub is_final : EvalDecision → Bool
is_final accept = true
is_final abort = true
is_final _ = false

abbrev pub is_insufficient : Sufficiency → Bool
is_insufficient insufficient = true
is_insufficient _ = false

abbrev pub is_sufficient : Sufficiency → Bool
is_sufficient sufficient = true
is_sufficient _ = false
