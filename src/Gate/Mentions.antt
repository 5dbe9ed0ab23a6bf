-- ===== src/Gate/Mentions.antt =====
-- What the visitor's methods do to `writes_metrics_json`.
use autonomous_agentic_platf.Prelude.{
  ℕ, String, ◌≡◌, refl, sym, ◌∙◌, inl, inr, Bool, true, false, not, ◌&&◌, ◌||◌, Option, none, some,
  List, [], ◌∷◌, str_eq, ◌==◌, if◌then◌else◌, Option-cases, any, contains, or_true, or_false,
}
use text.Mathlib.Text.{starts_with}
use autonomous_agentic_platf.Gate.Tree.{
  Node, Nodes, Keywords, import_names, import_from, call, attribute, name, constant, text_value,
  while_loop, if_branch, walk, all_literal, first_only, is_true, is_exit, is_main_guard,
}
use autonomous_agentic_platf.Gate.Modules.{
  allowed_os_attrs, network_modules, forbidden_modules, writable_prefixes, includes, writes,
  root_of,
}
use autonomous_agentic_platf.Gate.Findings.{
  Findings, GateRejection, reject_if, unknown_module, os_import, computed_import, readonly_write,
}
use autonomous_agentic_platf.Gate.Audit.{
  path_argument, mode_of, check_module, check_modules, check_os_names, check_import_from,
  check_open, check_name_call, check_attribute_call, check_call, check_node,
}
use autonomous_agentic_platf.Gate.Permitted.{mentions_metrics}

abbrev pub noted : Findings → Bool
noted f = f.writes_metrics_json

pub noted-reject_if :
    (b : Bool) (r : GateRejection) (f : Findings) → noted (reject_if b r f) ≡ noted f
noted-reject_if true r f = refl
noted-reject_if false r f = refl

pub noted_either :
    (c : Bool) (f g h : Findings)
    → noted g ≡ noted f
    → noted h ≡ noted f
    → noted (if c then g else h) ≡ noted f
noted_either true f g h hg hh = hg
noted_either false f g h hg hh = hh

noted-check_module :
    (allowlist : List String) (line : ℕ) (dotted : String) (f : Findings)
    → noted (check_module allowlist line dotted f) ≡ noted f
unfolding check_module
noted-check_module allowlist line dotted f =
    let root = root_of dotted in
    noted_either (contains root network_modules) f _ _ refl (
      noted_either (contains root forbidden_modules) f _ _ refl
        (noted-reject_if (not (contains root allowlist)) (unknown_module line root) _))

noted-check_modules :
    (allowlist : List String) (line : ℕ) (names : List String) (f : Findings)
    → noted (check_modules allowlist line names f) ≡ noted f
unfolding check_modules
noted-check_modules allowlist line [] f = refl
noted-check_modules allowlist line (dotted ∷ names) f =
    noted-check_modules allowlist line names (check_module allowlist line dotted f)
    ∙ noted-check_module allowlist line dotted f

noted-check_os_names :
    (line : ℕ) (names : List String) (f : Findings) → noted (check_os_names line names f) ≡ noted f
unfolding check_os_names
noted-check_os_names line [] f = refl
noted-check_os_names line (attr ∷ names) f =
    let bad = not (contains attr allowed_os_attrs) in
    noted-check_os_names line names (reject_if bad (os_import line attr) f)
    ∙ noted-reject_if bad (os_import line attr) f

noted-check_import_from :
    (allowlist : List String) (line level : ℕ) (from : Option String) (names : List String)
    (f : Findings)
    → noted (check_import_from allowlist line level from names f) ≡ noted f
unfolding check_import_from
noted-check_import_from allowlist line level none names f =
    noted_either (not (level == 0)) f _ _ refl refl
noted-check_import_from allowlist line level (some module_name) names f =
    noted_either (not (level == 0)) f _ _ refl (
      noted_either (str_eq module_name "os") f _ _ (noted-check_os_names line names f) (
        noted_either (str_eq module_name "") f _ _ refl
          (noted-check_module allowlist line module_name f)))

noted-check_open :
    (line : ℕ) (args : Nodes) (keywords : Keywords) (f : Findings)
    → noted (check_open line args keywords f) ≡ noted f
unfolding check_open
noted-check_open line args keywords f = elim (Option-cases (path_argument args)) [
  | inl e ↦ rw (check_open, e) refl
  | inr (path, e) ↦
      rw (check_open, e)
        (noted_either (not (writes (mode_of args keywords))) f _ _ refl (
          noted_either (starts_with path "/datasets") f _ _ refl (
            noted-reject_if
              (starts_with path "/"
                && not (any (λ prefix. starts_with path prefix) writable_prefixes))
              (readonly_write line path) f)))
]

noted-check_call :
    (line : ℕ) (func : Node) (args : Nodes) (keywords : Keywords) (f : Findings)
    → noted (check_call line func args keywords f) ≡ noted f
unfolding check_call check_name_call check_attribute_call
noted-check_call line (name id) args keywords f =
    noted_either (contains id ("eval" ∷ "exec" ∷ "compile" ∷ []) && not (all_literal args)) f _ _
      refl
      (noted_either (str_eq id "__import__" && not (all_literal (first_only args))) f _ _ refl (
        noted_either (str_eq id "input") f _ _ refl
          (noted_either (str_eq id "open") f _ _ (noted-check_open line args keywords f) refl)))
noted-check_call line (attribute at (name id) attr) args keywords f =
    noted-reject_if
      (str_eq id "importlib" && str_eq attr "import_module" && not (all_literal (first_only args)))
      (computed_import line) f
noted-check_call line _ args keywords f = refl

noted_here :
    (c : Bool) (f g : Findings) → noted g ≡ true → noted (if c then g else f) ≡ (noted f || c)
noted_here true f g h = h ∙ sym (or_true (noted f))
noted_here false f g h = sym (or_false (noted f))

pub noted-check_node :
    (allowlist : List String) (n : Node) (f : Findings)
    → noted (check_node allowlist n f) ≡ (noted f || mentions_metrics n)
unfolding check_node mentions_metrics
noted-check_node allowlist (import_names line names) f =
    noted-check_modules allowlist line names f ∙ sym (or_false (noted f))
noted-check_node allowlist (import_from line level from names) f =
    noted-check_import_from allowlist line level from names f ∙ sym (or_false (noted f))
noted-check_node allowlist (call line func args keywords) f =
    noted-check_call line func args keywords f ∙ sym (or_false (noted f))
noted-check_node allowlist (while_loop line test body) f =
    noted_either (is_true test && not (any is_exit (walk (while_loop line test body)))) f _ _ refl
      refl
    ∙ sym (or_false (noted f))
noted-check_node allowlist (if_branch test body) f =
    noted_either (is_main_guard test) f _ _ refl refl ∙ sym (or_false (noted f))
noted-check_node allowlist (constant (text_value value)) f =
    noted_here (includes value "metrics.json") f _ refl
noted-check_node allowlist (constant _) f = sym (or_false (noted f))
noted-check_node allowlist _ f = sym (or_false (noted f))
