-- ===== src/Gate/Verdict.antt =====
-- `validate_source` itself. A source is the list of its code points, and `imports_seen` is in the
-- order of the visit, where the code sorts a set.
use autonomous_agentic_platf.Prelude.{
  ℕ, ◌+◌, ◌*◌, String, Bool, false, Option, none, some, List, [], ◌∷◌, ◌++◌, ltb, ◌==◌,
  if◌then◌else◌, is_empty, any, count_if,
}
use text.Mathlib.Text.{starts_with}
use autonomous_agentic_platf.Events.Emitter.{Text}
use autonomous_agentic_platf.Events.Lines.{byte_length, is_surrogate, newline}
use autonomous_agentic_platf.Gate.Tree.{Node, walk}
use autonomous_agentic_platf.Gate.Findings.{
  GateRejection, Warning, Findings, no_findings, too_large, too_long, syntax, no_metrics,
  no_main_guard, metrics_unmentioned,
}
use autonomous_agentic_platf.Gate.Audit.{visit, audit_os_attributes}

-- `MAX_SOURCE_BYTES`
abbrev pub max_source_bytes : ℕ
max_source_bytes = 200 * 1024

-- `MAX_SOURCE_LINES`
abbrev pub max_source_lines : ℕ
max_source_lines = 4000

-- `ValidationReport`, with the rejections and the warnings as values.
pub record GateReport : Type 0 where
  pub passed : Bool
  pub rejections : List GateRejection
  pub warnings : List Warning
  pub imports_seen : List String
  pub writes_metrics_json : Bool

-- What `ast.parse` does: a tree, a `SyntaxError`, or another exception, as a `RecursionError`.
pub data Parsed : Type 0 where
  parsed : (tree : Node) → Parsed
  syntax_error : (line : ℕ) (kind message : String) → Parsed
  parse_raises : Parsed

abbrev pub refusal : GateRejection → GateReport
refusal rejection = record {
  passed = false;
  rejections = rejection ∷ [];
  warnings = [];
  imports_seen = [];
  writes_metrics_json = false;
}

-- `source.count("\n") + 1`
abbrev pub line_count : Text → ℕ
line_count source = count_if (λ c. c == newline) source + 1

-- `finish`
abbrev pub finish_findings : Findings → Findings
finish_findings f =
    if f.has_main_guard then f else record f { warnings = f.warnings ++ no_main_guard ∷ [] }

-- The rule that `profile` decides.
abbrev pub check_metrics : String → Findings → Findings
check_metrics profile f =
    if f.writes_metrics_json
    then f
    else if starts_with profile "train"
    then record f { rejections = f.rejections ++ no_metrics ∷ [] }
    else record f { warnings = f.warnings ++ metrics_unmentioned ∷ [] }

abbrev pub report_of : Findings → GateReport
report_of f = record {
  passed = is_empty f.rejections;
  rejections = f.rejections;
  warnings = f.warnings;
  imports_seen = f.imports;
  writes_metrics_json = f.writes_metrics_json;
}

-- The three passes over a tree that was parsed.
unfoldable pub gate_tree : List String → String → Node → GateReport
unfolding visit audit_os_attributes walk
gate_tree allowlist profile tree = report_of (
    check_metrics profile
      (finish_findings (audit_os_attributes (walk tree) (visit allowlist tree no_findings))))

unfoldable pub verdict_of : List String → String → Parsed → Option GateReport
unfolding gate_tree
verdict_of allowlist profile (parsed tree) = some (gate_tree allowlist profile tree)
verdict_of allowlist profile (syntax_error line kind message) =
    some (refusal (syntax line kind message))
verdict_of allowlist profile parse_raises = none

-- `validate_source`, none where it raises: `encode` does on a surrogate.
unfoldable pub validate_source : (Text → Parsed) → List String → String → Text → Option GateReport
validate_source parse allowlist profile source =
    if any is_surrogate source
    then none
    else if ltb max_source_bytes (byte_length source)
    then some (refusal (too_large (byte_length source)))
    else if ltb max_source_lines (line_count source)
    then some (refusal (too_long (line_count source)))
    else verdict_of allowlist profile (parse source)
