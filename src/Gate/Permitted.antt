-- ===== src/Gate/Permitted.antt =====
-- The rules of the gate on one node, without the order in which the visitor applies them.
use autonomous_agentic_platf.Prelude.{
  ℕ, String, Bool, true, false, not, ◌&&◌, ◌||◌, Option, none, some, List, [], ◌∷◌, str_eq, ◌==◌,
  if◌then◌else◌, all, any, contains,
}
use text.Mathlib.Text.{starts_with}
use autonomous_agentic_platf.Gate.Tree.{
  Node, Nodes, Keywords, import_names, import_from, call, attribute, name, constant, string_value,
  all_literal, first_only,
}
use autonomous_agentic_platf.Gate.Modules.{
  allowed_os_attrs, network_modules, forbidden_modules, writable_prefixes, includes, writes,
  root_of,
}
use autonomous_agentic_platf.Gate.Audit.{path_argument, mode_of}

-- A module of the allowlist, neither of the network nor forbidden.
unfoldable pub module_permitted : List String → String → Bool
unfolding root_of
module_permitted allowlist dotted =
    not (contains (root_of dotted) network_modules)
    && (not (contains (root_of dotted) forbidden_modules) && contains (root_of dotted) allowlist)

-- A path that may be opened in a mode: to read, or outside the read-only places.
unfoldable pub path_permitted : String → String → Bool
unfolding writes
path_permitted path mode =
    not (writes mode)
    || (not (starts_with path "/datasets")
        && not (
            starts_with path "/"
            && not (any (λ prefix. starts_with path prefix) writable_prefixes)))

unfoldable pub open_permitted : Nodes → Keywords → Bool
unfolding path_permitted
open_permitted args keywords = elim (path_argument args) [
  | none ↦ true
  | some path ↦ path_permitted path (mode_of args keywords)
]

-- A call of a function by its name: no code or module that is computed, no input, no file opened
-- for writing that is read-only.
unfoldable pub name_call_permitted : String → Nodes → Keywords → Bool
unfolding path_permitted
name_call_permitted id args keywords =
    not (contains id ("eval" ∷ "exec" ∷ "compile" ∷ []) && not (all_literal args))
    && (not (str_eq id "__import__" && not (all_literal (first_only args)))
        && (not (str_eq id "input") && (not (str_eq id "open") || open_permitted args keywords)))

unfoldable pub attribute_call_permitted : Node → String → Nodes → Bool
attribute_call_permitted (name id) attr args =
    not
      (str_eq id "importlib" && str_eq attr "import_module" && not (all_literal (first_only args)))
attribute_call_permitted _ attr args = true

unfoldable pub call_permitted : Node → Nodes → Keywords → Bool
unfolding name_call_permitted attribute_call_permitted
call_permitted (name id) args keywords = name_call_permitted id args keywords
call_permitted (attribute at value attr) args keywords = attribute_call_permitted value attr args
call_permitted _ args keywords = true

abbrev pub os_name_permitted : String → Bool
os_name_permitted attr = contains attr allowed_os_attrs

-- `from … import`: of this program nothing, of `os` the attributes that are allowed.
unfoldable pub import_from_permitted : List String → ℕ → Option String → List String → Bool
unfolding module_permitted
import_from_permitted allowlist level from names = level == 0 && elim from [
  | none ↦ true
  | some module_name ↦
      if str_eq module_name "os"
      then all os_name_permitted names
      else str_eq module_name "" || module_permitted allowlist module_name
]

-- The rule for a node of each kind, but for the attributes of `os`.
unfoldable pub permitted : List String → Node → Bool
unfolding module_permitted call_permitted
permitted allowlist (import_names line names) = all (module_permitted allowlist) names
permitted allowlist (import_from line level from names) =
    import_from_permitted allowlist level from names
permitted allowlist (call line func args keywords) = call_permitted func args keywords
permitted allowlist _ = true

-- The attributes of `os`.
unfoldable pub os_permitted : Node → Bool
os_permitted (attribute line (name id) attr) = not (str_eq id "os") || os_name_permitted attr
os_permitted _ = true

-- A text that names the file of the metrics.
unfoldable pub mentions_metrics : Node → Bool
mentions_metrics (constant value) = elim (string_value (constant value)) [
  | none ↦ false
  | some t ↦ includes t "metrics.json"
]
mentions_metrics _ = false
