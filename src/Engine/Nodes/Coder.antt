-- ===== src/Engine/Nodes/Coder.antt =====
-- backend/app/engine/nodes/coder.py: when an answer of the model is sent back, and the revision
-- that the node writes. Prompts are left out; the static gate and the hash are inputs.
use autonomous_agentic_platf.Prelude.{
  [], ◌+◌, String, Bool, true, false, not, ◌&&◌, Option, none, some, List, ◌∷◌, str_eq,
  if◌then◌else◌, is_some, length,
}
use autonomous_agentic_platf.Engine.State.{
  AgentState, Update, CodeRevision, ErrorRecord, is_clean, no_update, Usage,
}

-- Why the first answer is sent back.
pub data Rejection : Type 0 where
  no_code unchanged gate_refused : Rejection

-- An answer of the model: its Python block, if it has one, and its sidecar.
pub record Answer : Type 0 where
  pub code : Option String
  pub requirements : List String
  pub addresses_error : Option String

abbrev same_as_previous : Option CodeRevision → String → Bool
same_as_previous none sha256 = false
same_as_previous (some previous) sha256 = str_eq sha256 previous.sha256

module _ (sha256_text : String → String) (gate_passes : String → Bool) where
  -- `_rejection_reason`
  unfoldable pub rejection_reason : Option String → Option CodeRevision → Option Rejection
  rejection_reason none previous = some no_code
  rejection_reason (some code) previous =
      if str_eq code ""
      then some no_code
      else if same_as_previous previous (sha256_text code)
      then some unchanged
      else if not (gate_passes code)
      then some gate_refused
      else none

  abbrev has_code : Option String → Bool
  has_code none = false
  has_code (some code) = not (str_eq code "")

  -- The answer that the node goes on with: the second one replaces the first if it has code.
  unfoldable pub accepted_answer : Option CodeRevision → Answer → Answer → Answer
  unfolding rejection_reason
  accepted_answer previous first second =
      if is_some (rejection_reason first.code previous) && has_code second.code
      then second
      else first

abbrev fingerprint_of : Option ErrorRecord → Option String → Option String
fingerprint_of none claimed = claimed
fingerprint_of (some error) claimed = some error.fingerprint

module _ {F : Type 0} where
  -- `_is_fixing`
  unfoldable pub is_fixing : AgentState F → Bool
  is_fixing state = elim state.last_outcome [
    | none ↦ true
    | some outcome ↦ not (is_clean outcome.classification)
  ]

  unfoldable pub new_revision : AgentState F → String → String → Answer → CodeRevision
  unfolding is_fixing
  new_revision state code sha256 answer = record {
    revision = length state.code_revisions + 1;
    content = code;
    requirements = answer.requirements;
    sha256 = sha256;
    addresses_error =
        if is_fixing state
        then fingerprint_of state.last_error answer.addresses_error
        else answer.addresses_error;
  }

  unfoldable pub code_update : CodeRevision → Usage → Update F
  code_update revision usage = record no_update {
    current_revision = some (some revision);
    code_revisions = revision ∷ [];
    usage = some usage;
  }
