-- ===== src/Examples/Gate.antt =====
-- The gate, at a program that trains and imports a module that is forbidden.
use autonomous_agentic_platf.Prelude.{◌≡◌, refl, true, false, ◌&&◌, some, [], ◌∷◌}
use autonomous_agentic_platf.Events.Emitter.{Text}
use autonomous_agentic_platf.Events.Lines.{utf8_bytes}
use autonomous_agentic_platf.Gate.Tree.{
  Node, nil, cons, import_names, call, name, other, constant, text_value, end, walk,
}
use autonomous_agentic_platf.Gate.Findings.{forbidden_import, dataset_write, no_main_guard}
use autonomous_agentic_platf.Gate.Modules.{root_of, writes}
use autonomous_agentic_platf.Gate.Audit.{
  visit, audit_os_attributes, check_node, check_call, check_name_call, check_open,
}
use autonomous_agentic_platf.Gate.Verdict.{
  GateReport, Parsed, parsed, validate_source, verdict_of, gate_tree,
}
use autonomous_agentic_platf.Gate.Accepts.{within_bounds, accepted, validate_source-accepted}

-- `import numpy, subprocess.run`, a call of `open` and a text that names the metrics.
abbrev program : Node
program = other (
    cons (import_names 1 ("numpy" ∷ "subprocess.run" ∷ [])) (
      cons
        (call 2 (name "open")
          (cons (constant (text_value "/datasets/a.csv")) (cons (constant (text_value "w")) nil))
          end)
        (cons (constant (text_value "/artifacts/metrics.json")) nil)))

abbrev parse_program : Text → Parsed
parse_program source = parsed program

abbrev found : GateReport
found = record {
  passed = false;
  rejections = forbidden_import 1 "subprocess.run" ∷ dataset_write 2 "/datasets/a.csv" ∷ [];
  warnings = no_main_guard ∷ [];
  imports_seen = "numpy" ∷ "subprocess" ∷ [];
  writes_metrics_json = true;
}

found_here : validate_source parse_program ("numpy" ∷ []) "train" (120 ∷ 10 ∷ []) ≡ some found
unfolding validate_source utf8_bytes verdict_of gate_tree visit audit_os_attributes walk check_node
    check_call check_name_call check_open root_of writes
found_here = refl

validate_source-accepted_example : false ≡ (
    within_bounds (120 ∷ 10 ∷ [])
    && accepted ("numpy" ∷ []) "train" (parse_program (120 ∷ 10 ∷ [])))
validate_source-accepted_example =
    validate_source-accepted parse_program ("numpy" ∷ []) "train" (120 ∷ 10 ∷ []) found found_here
