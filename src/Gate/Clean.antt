-- ===== src/Gate/Clean.antt =====
-- The rejections of the visitor's methods, and the rules of Permitted.
use autonomous_agentic_platf.Prelude.{
  ℕ, String, ◌≡◌, refl, sym, ◌∙◌, inl, inr, Bool, true, false, not, ◌&&◌, ◌||◌, Option, none, some,
  List, [], ◌∷◌, ◌++◌, str_eq, ◌==◌, if◌then◌else◌, Option-cases, is_empty, all, any, contains,
  and_false, and_true, and_assoc,
}
use text.Mathlib.Text.{starts_with}
use autonomous_agentic_platf.Gate.Tree.{
  Node, Nodes, Keywords, import_names, import_from, call, attribute, name, constant, text_value,
  while_loop, if_branch, walk, all_literal, first_only, is_true, is_exit, is_main_guard,
}
use autonomous_agentic_platf.Gate.Modules.{
  allowed_os_attrs, network_modules, forbidden_modules, writable_prefixes, includes, writes,
  root_of,
}
use autonomous_agentic_platf.Gate.Findings.{
  Findings, GateRejection, reject_if, network_import, forbidden_import, unknown_module, os_import,
  relative_import, computed_code, computed_import, input_call, dataset_write, readonly_write,
}
use autonomous_agentic_platf.Gate.Audit.{
  path_argument, mode_of, check_module, check_modules, check_os_names, check_import_from,
  check_open, check_name_call, check_call, check_node,
}
use autonomous_agentic_platf.Gate.Permitted.{
  module_permitted, path_permitted, open_permitted, name_call_permitted, call_permitted,
  os_name_permitted, import_from_permitted, permitted,
}

abbrev pub clean : Findings → Bool
clean f = is_empty f.rejections

is_empty-append : (xs : List GateRejection) (r : GateRejection) → is_empty (xs ++ r ∷ []) ≡ false
is_empty-append [] r = refl
is_empty-append (x ∷ xs) r = refl

pub clean-reject_if :
    (b : Bool) (r : GateRejection) (f : Findings) → clean (reject_if b r f) ≡ (clean f && not b)
clean-reject_if true r f = is_empty-append f.rejections r ∙ sym (and_false (clean f))
clean-reject_if false r f = sym (and_true (clean f))

-- A rejection in a branch, before what the other branch checks.
clean-branch :
    (c : Bool) (r : GateRejection) (f g : Findings) (ok : Bool)
    → clean g ≡ (clean f && ok)
    → clean (if c then reject_if true r f else g) ≡ (clean f && (not c && ok))
clean-branch true r f g ok h = clean-reject_if true r f
clean-branch false r f g ok h = h

clean-reject_unless :
    (b : Bool) (r : GateRejection) (f : Findings) → clean (reject_if (not b) r f) ≡ (clean f && b)
clean-reject_unless true r f = sym (and_true (clean f))
clean-reject_unless false r f = clean-reject_if true r f

clean_unless :
    (c : Bool) (r : GateRejection) (f g : Findings) (ok : Bool)
    → clean g ≡ (clean f && ok)
    → clean (if not c then reject_if true r f else g) ≡ (clean f && (c && ok))
clean_unless true r f g ok h = h
clean_unless false r f g ok h = clean-reject_if true r f

clean_skip :
    (c : Bool) (f g : Findings) (ok : Bool)
    → clean g ≡ (clean f && ok)
    → clean (if c then f else g) ≡ (clean f && (c || ok))
clean_skip true f g ok h = sym (and_true (clean f))
clean_skip false f g ok h = h

clean_only :
    (c : Bool) (f g : Findings) (ok : Bool)
    → clean g ≡ (clean f && ok)
    → clean (if c then g else f) ≡ (clean f && (not c || ok))
clean_only true f g ok h = h
clean_only false f g ok h = sym (and_true (clean f))

clean_same :
    (c : Bool) (f g : Findings) → clean g ≡ clean f → clean (if c then g else f) ≡ (clean f && true)
clean_same true f g h = h ∙ sym (and_true (clean f))
clean_same false f g h = sym (and_true (clean f))

clean_choice :
    (c : Bool) (f g h : Findings) (p q : Bool)
    → clean g ≡ (clean f && p)
    → clean h ≡ (clean f && q)
    → clean (if c then g else h) ≡ (clean f && (if c then p else q))
clean_choice true f g h p q hp hq = hp
clean_choice false f g h p q hp hq = hq

clean-check_module :
    (allowlist : List String) (line : ℕ) (dotted : String) (f : Findings)
    → clean (check_module allowlist line dotted f) ≡ (clean f && module_permitted allowlist dotted)
unfolding check_module module_permitted
clean-check_module allowlist line dotted f =
    let root = root_of dotted in
    let seen = record f { imports = f.imports ++ root ∷ [] } in
    clean-branch (contains root network_modules) (network_import line dotted) seen _ _ (
      clean-branch (contains root forbidden_modules) (forbidden_import line dotted) seen _ _
        (clean-reject_unless (contains root allowlist) (unknown_module line root) seen))

clean-check_modules :
    (allowlist : List String) (line : ℕ) (names : List String) (f : Findings)
    → clean (check_modules allowlist line names f)
      ≡ (clean f && all (module_permitted allowlist) names)
unfolding check_modules
clean-check_modules allowlist line [] f = sym (and_true (clean f))
clean-check_modules allowlist line (dotted ∷ names) f =
    rw
      (
        clean-check_modules allowlist line names (check_module allowlist line dotted f),
        clean-check_module allowlist line dotted f,
      )
      (and_assoc (clean f) (module_permitted allowlist dotted)
        (all (module_permitted allowlist) names))

clean-check_os_names :
    (line : ℕ) (names : List String) (f : Findings)
    → clean (check_os_names line names f) ≡ (clean f && all os_name_permitted names)
unfolding check_os_names
clean-check_os_names line [] f = sym (and_true (clean f))
clean-check_os_names line (attr ∷ names) f =
    let ok = contains attr allowed_os_attrs in
    rw
      (
        clean-check_os_names line names (reject_if (not ok) (os_import line attr) f),
        clean-reject_unless ok (os_import line attr) f,
      )
      (and_assoc (clean f) ok (all os_name_permitted names))

clean-check_import_from :
    (allowlist : List String) (line level : ℕ) (from : Option String) (names : List String)
    (f : Findings)
    → clean (check_import_from allowlist line level from names f)
      ≡ (clean f && import_from_permitted allowlist level from names)
unfolding check_import_from import_from_permitted
clean-check_import_from allowlist line level none names f =
    clean_unless (level == 0) (relative_import line) f f true (sym (and_true (clean f)))
clean-check_import_from allowlist line level (some module_name) names f =
    clean_unless (level == 0) (relative_import line) f _ _ (
      clean_choice (str_eq module_name "os") f _ _ _ _ (clean-check_os_names line names f) (
        clean_skip (str_eq module_name "") f _ _ (clean-check_module allowlist line module_name f)))

clean-check_open :
    (line : ℕ) (args : Nodes) (keywords : Keywords) (f : Findings)
    → clean (check_open line args keywords f) ≡ (clean f && open_permitted args keywords)
unfolding check_open path_permitted open_permitted
clean-check_open line args keywords f = elim (Option-cases (path_argument args)) [
  | inl e ↦ rw (check_open, open_permitted, e) (sym (and_true (clean f)))
  | inr (path, e) ↦
      rw (check_open, open_permitted, e)
        (clean_skip (not (writes (mode_of args keywords))) f _ _ (
          clean-branch (starts_with path "/datasets") (dataset_write line path) f _ _ (
            clean-reject_if
              (starts_with path "/"
                && not (any (λ prefix. starts_with path prefix) writable_prefixes))
              (readonly_write line path) f)))
]

clean-check_name_call :
    (id : String) (line : ℕ) (args : Nodes) (keywords : Keywords) (f : Findings)
    → clean (check_name_call id line args keywords f)
      ≡ (clean f && name_call_permitted id args keywords)
unfolding check_name_call name_call_permitted
clean-check_name_call id line args keywords f =
    clean-branch (contains id ("eval" ∷ "exec" ∷ "compile" ∷ []) && not (all_literal args))
      (computed_code line id) f _ _
      (clean-branch (str_eq id "__import__" && not (all_literal (first_only args)))
        (computed_import line) f _ _
        (clean-branch (str_eq id "input") (input_call line) f _ _
          (clean_only (str_eq id "open") f _ _ (clean-check_open line args keywords f))))

clean-check_call :
    (line : ℕ) (func : Node) (args : Nodes) (keywords : Keywords) (f : Findings)
    → clean (check_call line func args keywords f) ≡ (clean f && call_permitted func args keywords)
unfolding check_call call_permitted
clean-check_call line (name id) args keywords f = clean-check_name_call id line args keywords f
clean-check_call line (attribute at (name id) attr) args keywords f =
    clean-reject_if
      (str_eq id "importlib" && str_eq attr "import_module" && not (all_literal (first_only args)))
      (computed_import line) f
clean-check_call line _ args keywords f = sym (and_true (clean f))

pub clean-check_node :
    (allowlist : List String) (n : Node) (f : Findings)
    → clean (check_node allowlist n f) ≡ (clean f && permitted allowlist n)
unfolding check_node permitted
clean-check_node allowlist (import_names line names) f = clean-check_modules allowlist line names f
clean-check_node allowlist (import_from line level from names) f =
    clean-check_import_from allowlist line level from names f
clean-check_node allowlist (call line func args keywords) f =
    clean-check_call line func args keywords f
clean-check_node allowlist (while_loop line test body) f =
    clean_same (is_true test && not (any is_exit (walk (while_loop line test body)))) f _ refl
clean-check_node allowlist (if_branch test body) f = clean_same (is_main_guard test) f _ refl
clean-check_node allowlist (constant (text_value value)) f =
    clean_same (includes value "metrics.json") f _ refl
clean-check_node allowlist (constant _) f = sym (and_true (clean f))
clean-check_node allowlist _ f = sym (and_true (clean f))
