-- ===== src/Gate/Accepts.antt =====
-- What the gate lets pass, over the nodes of the tree.
use autonomous_agentic_platf.Prelude.{
  ℕ, String, ◌≡◌, refl, sym, ap, ◌∙◌, Bool, true, false, not, ◌&&◌, ◌||◌, Option, none, some, List,
  [], ◌∷◌, ◌++◌, arith, str_eq, ltb, leb, if◌then◌else◌, all, any, contains, or_false, not_and,
  and_true, or_assoc, and_assoc,
}
use text.Mathlib.Text.{starts_with}
use autonomous_agentic_platf.Events.Emitter.{Text}
use autonomous_agentic_platf.Events.Lines.{byte_length, is_surrogate}
use autonomous_agentic_platf.Gate.Tree.{Node, walk, attribute, name}
use autonomous_agentic_platf.Gate.Modules.{allowed_os_attrs}
use autonomous_agentic_platf.Gate.Findings.{
  Findings, GateRejection, too_large, too_long, syntax, no_findings, no_metrics,
  metrics_unmentioned, reject_if, os_attribute,
}
use autonomous_agentic_platf.Gate.Audit.{visit, check_node, check_os_attribute, audit_os_attributes}
use autonomous_agentic_platf.Gate.Walk.{check_nodes, visit-walk}
use autonomous_agentic_platf.Gate.Permitted.{permitted, os_permitted, mentions_metrics}
use autonomous_agentic_platf.Gate.Clean.{clean, clean-reject_if, clean-check_node}
use autonomous_agentic_platf.Gate.Mentions.{noted, noted-check_node, noted-reject_if, noted_either}
use autonomous_agentic_platf.Gate.Verdict.{
  GateReport, Parsed, parsed, syntax_error, parse_raises, validate_source, refusal, verdict_of,
  gate_tree, check_metrics, finish_findings, max_source_bytes, max_source_lines, line_count,
}

-- Every node is permitted, and a program that trains names the file of the metrics.
unfoldable pub tree_accepted : List String → String → Node → Bool
tree_accepted allowlist profile tree =
    (all (permitted allowlist) (walk tree) && all os_permitted (walk tree))
    && (any mentions_metrics (walk tree) || not (starts_with profile "train"))

-- A source within the bounds that parses to such a tree.
abbrev pub accepted : List String → String → Parsed → Bool
unfolding tree_accepted
accepted allowlist profile (parsed tree) = tree_accepted allowlist profile tree
accepted allowlist profile _ = false

clean_either :
    (c : Bool) (f g : Findings) → clean g ≡ clean f → clean (if c then f else g) ≡ clean f
clean_either true f g h = refl
clean_either false f g h = h

clean-check_nodes :
    (allowlist : List String) (nodes : List Node) (f : Findings)
    → clean (check_nodes allowlist nodes f) ≡ (clean f && all (permitted allowlist) nodes)
unfolding check_nodes
clean-check_nodes allowlist [] f = sym (and_true (clean f))
clean-check_nodes allowlist (n ∷ nodes) f =
    rw
      (clean-check_nodes allowlist nodes (check_node allowlist n f), clean-check_node allowlist n f)
      (and_assoc (clean f) (permitted allowlist n) (all (permitted allowlist) nodes))

noted-check_nodes :
    (allowlist : List String) (nodes : List Node) (f : Findings)
    → noted (check_nodes allowlist nodes f) ≡ (noted f || any mentions_metrics nodes)
unfolding check_nodes
noted-check_nodes allowlist [] f = sym (or_false (noted f))
noted-check_nodes allowlist (n ∷ nodes) f =
    rw
      (noted-check_nodes allowlist nodes (check_node allowlist n f), noted-check_node allowlist n f)
      (or_assoc (noted f) (mentions_metrics n) (any mentions_metrics nodes))

clean-check_os_attribute :
    (n : Node) (f : Findings) → clean (check_os_attribute n f) ≡ (clean f && os_permitted n)
unfolding os_permitted
clean-check_os_attribute (attribute line (name id) attr) f =
    clean-reject_if (str_eq id "os" && not (contains attr allowed_os_attrs))
      (os_attribute line attr) f
    ∙ ap (λ b. clean f && b) (not_and (str_eq id "os") (contains attr allowed_os_attrs))
clean-check_os_attribute _ f = sym (and_true (clean f))

clean-audit_os_attributes :
    (nodes : List Node) (f : Findings)
    → clean (audit_os_attributes nodes f) ≡ (clean f && all os_permitted nodes)
unfolding audit_os_attributes
clean-audit_os_attributes [] f = sym (and_true (clean f))
clean-audit_os_attributes (n ∷ nodes) f =
    rw (clean-audit_os_attributes nodes (check_os_attribute n f), clean-check_os_attribute n f)
      (and_assoc (clean f) (os_permitted n) (all os_permitted nodes))

noted-check_os_attribute : (n : Node) (f : Findings) → noted (check_os_attribute n f) ≡ noted f
noted-check_os_attribute (attribute line (name id) attr) f =
    noted-reject_if (str_eq id "os" && not (contains attr allowed_os_attrs))
      (os_attribute line attr) f
noted-check_os_attribute _ f = refl

noted-audit_os_attributes :
    (nodes : List Node) (f : Findings) → noted (audit_os_attributes nodes f) ≡ noted f
unfolding audit_os_attributes
noted-audit_os_attributes [] f = refl
noted-audit_os_attributes (n ∷ nodes) f =
    noted-audit_os_attributes nodes (check_os_attribute n f) ∙ noted-check_os_attribute n f

clean-finish_findings : (f : Findings) → clean (finish_findings f) ≡ clean f
clean-finish_findings f = clean_either f.has_main_guard f _ refl

noted-finish_findings : (f : Findings) → noted (finish_findings f) ≡ noted f
noted-finish_findings f = noted_either f.has_main_guard f _ _ refl refl

-- The rule of the metrics on what the visitor found, whatever the two tests say.
clean_rule :
    (named trains : Bool) (f : Findings)
    → clean (
        if named
        then f
        else if trains
        then reject_if true no_metrics f
        else record f { warnings = f.warnings ++ metrics_unmentioned ∷ [] })
      ≡ (clean f && (named || not trains))
clean_rule true trains f = sym (and_true (clean f))
clean_rule false true f = clean-reject_if true no_metrics f
clean_rule false false f = sym (and_true (clean f))

clean-check_metrics :
    (profile : String) (f : Findings)
    → clean (check_metrics profile (finish_findings f))
      ≡ (clean f && (noted f || not (starts_with profile "train")))
clean-check_metrics profile f =
    clean_rule (noted (finish_findings f)) (starts_with profile "train") (finish_findings f)
    ∙ rw (clean-finish_findings f, noted-finish_findings f) refl

gate_tree-passed :
    (allowlist : List String) (profile : String) (tree : Node)
    → (gate_tree allowlist profile tree).passed ≡ tree_accepted allowlist profile tree
unfolding gate_tree tree_accepted
gate_tree-passed allowlist profile tree =
    let visited = visit allowlist tree no_findings in
    let audited = audit_os_attributes (walk tree) visited in
    let visited-clean = clean-check_nodes allowlist (walk tree) no_findings in
    let visited-noted = noted-check_nodes allowlist (walk tree) no_findings in
    clean-check_metrics profile audited
    ∙ rw
        (
          clean-audit_os_attributes (walk tree) visited,
          noted-audit_os_attributes (walk tree) visited,
          visit-walk allowlist tree no_findings,
          visited-clean,
          visited-noted,
        )
        refl

some-passed : (r s : GateReport) → some r ≡ some s → r.passed ≡ s.passed
some-passed r s e = ap (λ o. elim o [ none ↦ true | some x ↦ x.passed ]) e

verdict_of-accepted :
    (allowlist : List String) (profile : String) (p : Parsed) (report : GateReport)
    → verdict_of allowlist profile p ≡ some report
    → report.passed ≡ accepted allowlist profile p
unfolding gate_tree accepted tree_accepted verdict_of
verdict_of-accepted allowlist profile (parsed tree) report e =
    sym (some-passed (gate_tree allowlist profile tree) report e)
    ∙ gate_tree-passed allowlist profile tree
verdict_of-accepted allowlist profile (syntax_error line kind message) report e =
    sym (some-passed (refusal (syntax line kind message)) report e)
verdict_of-accepted allowlist profile parse_raises report e = absurd (cc)

leb-ltb : (a b : ℕ) → leb a b ≡ not (ltb b a)
leb-ltb a b = ground arith

-- The tests of `validate_source` in their order, before the verdict on the tree.
checked_in_bounds :
    (raises large long : Bool) (a b : GateRejection) (verdict : Option GateReport)
    (report : GateReport) (ok : Bool)
    → (verdict ≡ some report → report.passed ≡ ok)
    → (if raises
        then none
        else if large
        then some (refusal a)
        else if long
        then some (refusal b)
        else verdict)
      ≡ some report
    → report.passed ≡ ((not large && not long) && ok)
checked_in_bounds true large long a b verdict report ok h e = absurd (cc)
checked_in_bounds false true long a b verdict report ok h e = sym (some-passed (refusal a) report e)
checked_in_bounds false false true a b verdict report ok h e =
    sym (some-passed (refusal b) report e)
checked_in_bounds false false false a b verdict report ok h e = h e

-- `len(encoded)` and the number of lines stay within their limits.
unfoldable pub within_bounds : Text → Bool
within_bounds source =
    leb (byte_length source) max_source_bytes && leb (line_count source) max_source_lines

-- Where the gate gives a report, it passes a program exactly if the source is within its two
-- bounds and parses, every node that ast.walk finds is permitted by the rules on that node alone
-- and uses of os an attribute that is allowed, and, if the profile starts with train, some text
-- names metrics.json.
pub validate_source-accepted :
    (parse : Text → Parsed) (allowlist : List String) (profile : String) (source : Text)
    (report : GateReport)
    → validate_source parse allowlist profile source ≡ some report
    → report.passed ≡ (within_bounds source && accepted allowlist profile (parse source))
unfolding validate_source within_bounds
validate_source-accepted parse allowlist profile source report e =
    checked_in_bounds (any is_surrogate source) (ltb max_source_bytes (byte_length source))
      (ltb max_source_lines (line_count source)) (too_large (byte_length source))
      (too_long (line_count source)) (verdict_of allowlist profile (parse source)) report
      (accepted allowlist profile (parse source))
      (verdict_of-accepted allowlist profile (parse source) report) e
    ∙ ap (λ b. b && accepted allowlist profile (parse source))
        (sym (
          rw
            (
              leb-ltb (byte_length source) max_source_bytes,
              leb-ltb (line_count source) max_source_lines,
            )
            refl))
