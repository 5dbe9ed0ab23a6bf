-- ===== src/Gate/Audit.antt =====
-- `_Auditor` and `_audit_os_attributes`: the findings on a program, as they are collected.
use autonomous_agentic_platf.Prelude.{
  ℕ, String, true, not, ◌&&◌, Option, none, some, List, [], ◌∷◌, ◌++◌, str_eq, ◌==◌, if◌then◌else◌,
  or_else, any, contains,
}
use text.Mathlib.Text.{starts_with}
use autonomous_agentic_platf.Gate.Findings.{
  Findings, computed_code, computed_import, dataset_write, endless_loop, forbidden_import,
  input_call, network_import, os_attribute, os_import, readonly_write, reject_if, relative_import,
  unknown_module,
}
use autonomous_agentic_platf.Gate.Tree.{
  Node, Nodes, Keywords, nil, cons, end, keyword, import_names, import_from, call, attribute, name,
  constant, while_loop, if_branch, comparison, exit, other, walk, string_value, all_literal,
  first_only, is_true, is_exit, is_main_guard,
}
use autonomous_agentic_platf.Gate.Modules.{
  allowed_os_attrs, network_modules, forbidden_modules, writable_prefixes, includes, writes,
  root_of,
}

-- `_check_module`
unfoldable pub check_module : List String → ℕ → String → Findings → Findings
unfolding root_of
check_module allowlist line dotted f =
    let root = root_of dotted in
    let seen = record f { imports = f.imports ++ root ∷ [] } in
    if contains root network_modules
    then reject_if true (network_import line dotted) seen
    else if contains root forbidden_modules
    then reject_if true (forbidden_import line dotted) seen
    else reject_if (not (contains root allowlist)) (unknown_module line root) seen

unfoldable pub check_modules : List String → ℕ → List String → Findings → Findings
unfolding check_module
check_modules allowlist line [] f = f
check_modules allowlist line (dotted ∷ names) f =
    check_modules allowlist line names (check_module allowlist line dotted f)

-- `from os import …`
unfoldable pub check_os_names : ℕ → List String → Findings → Findings
check_os_names line [] f = f
check_os_names line (attr ∷ names) f =
    check_os_names line names
      (reject_if (not (contains attr allowed_os_attrs)) (os_import line attr) f)

-- `visit_ImportFrom`
unfoldable pub check_import_from :
    List String → ℕ → ℕ → Option String → List String → Findings → Findings
unfolding check_module check_os_names
check_import_from allowlist line level from names f =
    if not (level == 0) then reject_if true (relative_import line) f else elim from [
      | none ↦ f
      | some module_name ↦
          if str_eq module_name "os"
          then (let checked = check_os_names line names f in
              record checked { imports = checked.imports ++ "os" ∷ [] })
          else if str_eq module_name ""
          then f
          else check_module allowlist line module_name f
    ]

-- `kw.arg == "mode"`, over the keywords: the last that is a text wins.
abbrev pub keyword_mode : Keywords → Option String → Option String
keyword_mode end mode = mode
keyword_mode (keyword arg value rest) mode = keyword_mode rest (
    if str_eq (or_else arg "") "mode"
    then elim (string_value value) [ none ↦ mode | some t ↦ if str_eq t "" then mode else some t ]
    else mode)

abbrev pub path_argument : Nodes → Option String
path_argument nil = none
path_argument (cons first rest) = string_value first

abbrev pub mode_argument : Nodes → Option String
mode_argument nil = none
mode_argument (cons first rest) = path_argument rest

-- `mode or "r"`
abbrev pub mode_of : Nodes → Keywords → String
mode_of args keywords = elim (keyword_mode keywords (mode_argument args)) [
  | none ↦ "r"
  | some mode ↦ if str_eq mode "" then "r" else mode
]

-- `_check_open`
unfoldable pub check_open : ℕ → Nodes → Keywords → Findings → Findings
unfolding writes
check_open line args keywords f = elim (path_argument args) [
  | none ↦ f
  | some path ↦
      if not (writes (mode_of args keywords))
      then f
      else if starts_with path "/datasets"
      then reject_if true (dataset_write line path) f
      else reject_if
          (starts_with path "/" && not (any (λ prefix. starts_with path prefix) writable_prefixes))
          (readonly_write line path) f
]

-- `_check_name_call`
unfoldable pub check_name_call : String → ℕ → Nodes → Keywords → Findings → Findings
unfolding check_open
check_name_call id line args keywords f =
    if contains id ("eval" ∷ "exec" ∷ "compile" ∷ []) && not (all_literal args)
    then reject_if true (computed_code line id) f
    else if str_eq id "__import__" && not (all_literal (first_only args))
    then reject_if true (computed_import line) f
    else if str_eq id "input"
    then reject_if true (input_call line) f
    else if str_eq id "open"
    then check_open line args keywords f
    else f

-- `_check_attribute_call`
unfoldable pub check_attribute_call : Node → String → ℕ → Nodes → Findings → Findings
check_attribute_call (name id) attr line args f =
    reject_if
      (str_eq id "importlib" && str_eq attr "import_module" && not (all_literal (first_only args)))
      (computed_import line) f
check_attribute_call _ attr line args f = f

-- `visit_Call`, up to `generic_visit`.
unfoldable pub check_call : ℕ → Node → Nodes → Keywords → Findings → Findings
unfolding check_name_call check_attribute_call
check_call line (name id) args keywords f = check_name_call id line args keywords f
check_call line (attribute at value attr) args keywords f =
    check_attribute_call value attr line args f
check_call line _ args keywords f = f

-- `visit_While`, `visit_If` and `visit_Constant` up to `generic_visit`.
abbrev pub check_loop : ℕ → Node → Node → Findings → Findings
unfolding walk
check_loop line test loop f =
    if is_true test && not (any is_exit (walk loop))
    then record f { warnings = f.warnings ++ endless_loop line ∷ [] }
    else f

abbrev pub check_constant : Option String → Findings → Findings
check_constant none f = f
check_constant (some value) f =
    if includes value "metrics.json" then record f { writes_metrics_json = true } else f

-- The visitor's method for a node, up to `generic_visit`.
unfoldable pub check_node : List String → Node → Findings → Findings
unfolding check_modules check_import_from check_call walk
check_node allowlist (import_names line names) f = check_modules allowlist line names f
check_node allowlist (import_from line level from names) f =
    check_import_from allowlist line level from names f
check_node allowlist (call line func args keywords) f = check_call line func args keywords f
check_node allowlist (while_loop line test body) f =
    check_loop line test (while_loop line test body) f
check_node allowlist (if_branch test body) f =
    if is_main_guard test then record f { has_main_guard = true } else f
check_node allowlist (constant value) f = check_constant (string_value (constant value)) f
check_node allowlist _ f = f

-- `visit`, with `generic_visit` on the nodes below.
unfoldable mutual
  unfolding check_node

  pub visit : List String → Node → Findings → Findings
  visit allowlist (call line func args keywords) f = visit_keywords allowlist keywords (
      visit_all allowlist args
        (visit allowlist func (check_node allowlist (call line func args keywords) f)))
  visit allowlist (attribute line value attr) f =
      visit allowlist value (check_node allowlist (attribute line value attr) f)
  visit allowlist (while_loop line test body) f =
      visit_all allowlist body
        (visit allowlist test (check_node allowlist (while_loop line test body) f))
  visit allowlist (if_branch test body) f =
      visit_all allowlist body (visit allowlist test (check_node allowlist (if_branch test body) f))
  visit allowlist (comparison left comparators) f =
      visit_all allowlist comparators
        (visit allowlist left (check_node allowlist (comparison left comparators) f))
  visit allowlist (exit children) f =
      visit_all allowlist children (check_node allowlist (exit children) f)
  visit allowlist (other children) f =
      visit_all allowlist children (check_node allowlist (other children) f)
  visit allowlist (import_names line names) f = check_node allowlist (import_names line names) f
  visit allowlist (import_from line level from names) f =
      check_node allowlist (import_from line level from names) f
  visit allowlist (name id) f = check_node allowlist (name id) f
  visit allowlist (constant value) f = check_node allowlist (constant value) f

  pub visit_all : List String → Nodes → Findings → Findings
  visit_all allowlist nil f = f
  visit_all allowlist (cons first rest) f = visit_all allowlist rest (visit allowlist first f)

  pub visit_keywords : List String → Keywords → Findings → Findings
  visit_keywords allowlist end f = f
  visit_keywords allowlist (keyword arg value rest) f =
      visit_keywords allowlist rest (visit allowlist value f)

-- `_audit_os_attributes`, over the nodes of the tree.
abbrev pub check_os_attribute : Node → Findings → Findings
check_os_attribute (attribute line (name id) attr) f =
    reject_if (str_eq id "os" && not (contains attr allowed_os_attrs)) (os_attribute line attr) f
check_os_attribute _ f = f

unfoldable pub audit_os_attributes : List Node → Findings → Findings
audit_os_attributes [] f = f
audit_os_attributes (n ∷ nodes) f = audit_os_attributes nodes (check_os_attribute n f)
