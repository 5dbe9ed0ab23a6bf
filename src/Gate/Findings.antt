-- ===== src/Gate/Findings.antt =====
-- `_Findings`: what the visitor collects, with the sentences of the rejections as values.
use autonomous_agentic_platf.Prelude.{ℕ, String, Bool, true, false, List, [], ◌∷◌, ◌++◌}

pub data GateRejection : Type 0 where
  relative_import : (line : ℕ) → GateRejection
  os_import : (line : ℕ) (attr : String) → GateRejection
  network_import forbidden_import : (line : ℕ) (dotted : String) → GateRejection
  unknown_module : (line : ℕ) (root : String) → GateRejection
  computed_code : (line : ℕ) (function : String) → GateRejection
  computed_import : (line : ℕ) → GateRejection
  input_call : (line : ℕ) → GateRejection
  dataset_write readonly_write : (line : ℕ) (path : String) → GateRejection
  os_attribute : (line : ℕ) (attr : String) → GateRejection
  no_metrics : GateRejection
  too_large : (bytes : ℕ) → GateRejection
  too_long : (lines : ℕ) → GateRejection
  syntax : (line : ℕ) (kind message : String) → GateRejection

pub data Warning : Type 0 where
  endless_loop : (line : ℕ) → Warning
  no_main_guard metrics_unmentioned : Warning

-- `_Findings`, with `_has_main_guard`. `imports` holds each name as often as it was added.
pub record Findings : Type 0 where
  pub rejections : List GateRejection
  pub warnings : List Warning
  pub imports : List String
  pub writes_metrics_json : Bool
  pub has_main_guard : Bool

abbrev pub no_findings : Findings
no_findings = record {
  rejections = [];
  warnings = [];
  imports = [];
  writes_metrics_json = false;
  has_main_guard = false;
}

abbrev pub reject_if : Bool → GateRejection → Findings → Findings
reject_if true rejection f = record f { rejections = f.rejections ++ rejection ∷ [] }
reject_if false rejection f = f
