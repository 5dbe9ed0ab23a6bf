-- ===== src/Engine/Nodes/Debugger.antt =====
-- backend/app/engine/nodes/debugger.py: what the node makes of the model's diagnosis, and the
-- fallback. The prompt, and the prose of the fallback's directive, are left out.
use autonomous_agentic_platf.Prelude.{
  [], ◌+◌, String, Bool, not, some, List, ◌∷◌, str_eq, if◌then◌else◌, is_empty, select, Floats,
  Option, false, none,
}
use autonomous_agentic_platf.Engine.State.{
  AgentState, Update, Diagnosis, ErrorRecord, no_update, Usage,
}

module _ (fl : Floats) where
  open fl use {Float, literal, lt as lt_float}

  -- `min(confidence, UNEVIDENCED_CONFIDENCE_CEILING)`
  abbrev capped : Float → Float
  capped confidence = if lt_float (literal 4 10) confidence then literal 4 10 else confidence

  -- `[change for change in changes if change.strip()] or [fix_strategy or root_cause]`, with
  -- `blank` for a text that `strip` leaves empty.
  abbrev pub instructions : (String → Bool) → Diagnosis Float → List String
  instructions blank d =
      let changes = select (λ c. not (blank c)) d.targeted_changes in
      if is_empty changes
      then (if str_eq d.fix_strategy "" then d.root_cause else d.fix_strategy) ∷ []
      else changes

  -- `_reconcile`
  unfoldable pub reconcile :
      (String → Bool) → Diagnosis Float → ErrorRecord → List String → Diagnosis Float
  reconcile blank d error prior_art = record {
    error_fingerprint = error.fingerprint;
    root_cause = d.root_cause;
    evidence = d.evidence;
    fix_strategy = d.fix_strategy;
    targeted_changes = instructions blank d;
    prior_art = prior_art;
    confidence = if is_empty d.evidence then capped d.confidence else d.confidence;
    requires_replan = d.requires_replan;
    requires_research = d.requires_research;
  }

module _ {F : Type 0} where
  -- The update of the node and of its fallback: a diagnosis, and one more iteration.
  unfoldable pub diagnosis_update : AgentState F → Diagnosis F → Usage → Update F
  diagnosis_update state diagnosis usage = record no_update {
    last_diagnosis = some (some diagnosis);
    diagnoses = diagnosis ∷ [];
    debug_iterations = some (state.debug_iterations + 1);
    usage = some usage;
  }

module _ (fl : Floats) where
  open fl use {Float, literal}

  abbrev error_fingerprint_of : Option ErrorRecord → String
  error_fingerprint_of none = "unknown"
  error_fingerprint_of (some error) = error.fingerprint

  abbrev error_message_of : Option ErrorRecord → String
  error_message_of none = "the run failed without a recorded error"
  error_message_of (some error) = error.message

  -- The diagnosis of `minimal_diagnosis_update`. Its root cause and its one directive are prose
  -- around the error's message, which comes in as text.
  unfoldable pub minimal_diagnosis :
      Option ErrorRecord → (root_cause directive : String) → Diagnosis Float
  minimal_diagnosis error root_cause directive = record {
    error_fingerprint = error_fingerprint_of error;
    root_cause = root_cause;
    evidence = error_message_of error ∷ [];
    fix_strategy =
        "Read the traceback and the failing source region directly, and make the smallest change that addresses the exception.";
    targeted_changes = directive ∷ [];
    prior_art = [];
    confidence = literal 1 10;
    requires_replan = false;
    requires_research = false;
  }
