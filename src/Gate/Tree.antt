-- ===== src/Gate/Tree.antt =====
-- The syntax tree of a program, and `ast.walk`.
use autonomous_agentic_platf.Prelude.{
  ℕ, String, Bool, true, false, ◌&&◌, ◌||◌, Option, none, some, List, [], ◌∷◌, ◌++◌, str_eq,
}

-- The value of a constant.
pub data Literal : Type 0 where
  text_value : (value : String) → Literal
  true_value : Literal
  other_value : Literal

mutual
  -- `exit` is a break, a return or a raise. A name, a constant and the two imports have no node
  -- below them that the gate looks at. The `else` of a loop or a branch stands in its body.
  pub data Node : Type 0 where
    import_names : (line : ℕ) (names : List String) → Node
    import_from : (line level : ℕ) (from : Option String) (names : List String) → Node
    call : (line : ℕ) (func : Node) (args : Nodes) (keywords : Keywords) → Node
    attribute : (line : ℕ) (value : Node) (attr : String) → Node
    name : (id : String) → Node
    constant : (value : Literal) → Node
    while_loop : (line : ℕ) (test : Node) (body : Nodes) → Node
    if_branch : (test : Node) (body : Nodes) → Node
    comparison : (left : Node) (comparators : Nodes) → Node
    exit : (children : Nodes) → Node
    other : (children : Nodes) → Node

  pub data Nodes : Type 0 where
    nil : Nodes
    cons : (first : Node) (rest : Nodes) → Nodes

  pub data Keywords : Type 0 where
    end : Keywords
    keyword : (arg : Option String) (value : Node) (rest : Keywords) → Keywords

-- `ast.walk`, which promises no order.
unfoldable mutual
  pub walk : Node → List Node
  walk (call line func args keywords) =
      call line func args keywords ∷ walk func ++ (walk_all args ++ walk_keywords keywords)
  walk (attribute line value attr) = attribute line value attr ∷ walk value
  walk (while_loop line test body) = while_loop line test body ∷ walk test ++ walk_all body
  walk (if_branch test body) = if_branch test body ∷ walk test ++ walk_all body
  walk (comparison left comparators) =
      comparison left comparators ∷ walk left ++ walk_all comparators
  walk (exit children) = exit children ∷ walk_all children
  walk (other children) = other children ∷ walk_all children
  walk (import_names line names) = import_names line names ∷ []
  walk (import_from line level from names) = import_from line level from names ∷ []
  walk (name id) = name id ∷ []
  walk (constant value) = constant value ∷ []

  pub walk_all : Nodes → List Node
  walk_all nil = []
  walk_all (cons first rest) = walk first ++ walk_all rest

  pub walk_keywords : Keywords → List Node
  walk_keywords end = []
  walk_keywords (keyword arg value rest) = walk value ++ walk_keywords rest

-- `_string_value`
abbrev pub string_value : Node → Option String
string_value (constant (text_value value)) = some value
string_value _ = none

-- `isinstance(a, ast.Constant)`
abbrev pub is_constant : Node → Bool
is_constant (constant value) = true
is_constant _ = false

-- `_all_literal`
abbrev pub all_literal : Nodes → Bool
all_literal nil = true
all_literal (cons first rest) = is_constant first && all_literal rest

-- `args[:1]`
abbrev pub first_only : Nodes → Nodes
first_only nil = nil
first_only (cons first rest) = cons first nil

-- `_is_true`
abbrev pub is_true : Node → Bool
is_true (constant true_value) = true
is_true _ = false

abbrev pub is_exit : Node → Bool
is_exit (exit children) = true
is_exit _ = false

-- `any(_string_value(c) == value for c in comparators)`
abbrev pub any_string : String → Nodes → Bool
any_string value nil = false
any_string value (cons first rest) =
    elim (string_value first) [ none ↦ false | some t ↦ str_eq t value ] || any_string value rest

-- `_is_main_guard`
abbrev pub is_main_guard : Node → Bool
is_main_guard (comparison (name id) comparators) =
    str_eq id "__name__" && any_string "__main__" comparators
is_main_guard _ = false
