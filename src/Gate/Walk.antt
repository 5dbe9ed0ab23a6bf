-- ===== src/Gate/Walk.antt =====
-- The visitor and `ast.walk`.
use autonomous_agentic_platf.Prelude.{String, ◌≡◌, refl, sym, ◌∙◌, List, [], ◌∷◌, ◌++◌}
use autonomous_agentic_platf.Gate.Tree.{
  Node, Nodes, Keywords, nil, cons, end, keyword, import_names, import_from, call, attribute, name,
  constant, while_loop, if_branch, comparison, exit, other, walk, walk_all, walk_keywords,
}
use autonomous_agentic_platf.Gate.Findings.{Findings}
use autonomous_agentic_platf.Gate.Audit.{check_node, visit, visit_all, visit_keywords}

-- The visitor's methods on nodes in order.
unfoldable pub check_nodes : List String → List Node → Findings → Findings
check_nodes allowlist [] f = f
check_nodes allowlist (n ∷ nodes) f = check_nodes allowlist nodes (check_node allowlist n f)

check_nodes-append :
    (allowlist : List String) (xs ys : List Node) (f : Findings)
    → check_nodes allowlist (xs ++ ys) f ≡ check_nodes allowlist ys (check_nodes allowlist xs f)
unfolding check_nodes
check_nodes-append allowlist [] ys f = refl
check_nodes-append allowlist (x ∷ xs) ys f =
    check_nodes-append allowlist xs ys (check_node allowlist x f)

-- The visitor leaves the findings that its methods leave on the nodes of the tree in the order
-- of the walk.
mutual
  unfolding visit walk check_nodes

  pub visit-walk :
      (allowlist : List String) (n : Node) (f : Findings)
      → visit allowlist n f ≡ check_nodes allowlist (walk n) f
  visit-walk allowlist (call line func args keywords) f =
      let start = check_node allowlist (call line func args keywords) f in
      let looked = check_nodes allowlist (walk func) start in
      simp
        (
          visit-walk allowlist func start,
          visit_all-walk_all allowlist args looked,
          visit_keywords-walk_keywords allowlist keywords
              (check_nodes allowlist (walk_all args) looked),
        )
        (sym (
          check_nodes-append allowlist (walk func) (walk_all args ++ walk_keywords keywords) start
          ∙ check_nodes-append allowlist (walk_all args) (walk_keywords keywords) looked))
  visit-walk allowlist (attribute line value attr) f =
      visit-walk allowlist value (check_node allowlist (attribute line value attr) f)
  visit-walk allowlist (while_loop line test body) f =
      let start = check_node allowlist (while_loop line test body) f in
      simp
        (
          visit-walk allowlist test start,
          visit_all-walk_all allowlist body (check_nodes allowlist (walk test) start),
        )
        (sym (check_nodes-append allowlist (walk test) (walk_all body) start))
  visit-walk allowlist (if_branch test body) f =
      let start = check_node allowlist (if_branch test body) f in
      simp
        (
          visit-walk allowlist test start,
          visit_all-walk_all allowlist body (check_nodes allowlist (walk test) start),
        )
        (sym (check_nodes-append allowlist (walk test) (walk_all body) start))
  visit-walk allowlist (comparison left comparators) f =
      let start = check_node allowlist (comparison left comparators) f in
      simp
        (
          visit-walk allowlist left start,
          visit_all-walk_all allowlist comparators (check_nodes allowlist (walk left) start),
        )
        (sym (check_nodes-append allowlist (walk left) (walk_all comparators) start))
  visit-walk allowlist (exit children) f =
      visit_all-walk_all allowlist children (check_node allowlist (exit children) f)
  visit-walk allowlist (other children) f =
      visit_all-walk_all allowlist children (check_node allowlist (other children) f)
  visit-walk allowlist (import_names line names) f = refl
  visit-walk allowlist (import_from line level from names) f = refl
  visit-walk allowlist (name id) f = refl
  visit-walk allowlist (constant value) f = refl

  visit_all-walk_all :
      (allowlist : List String) (nodes : Nodes) (f : Findings)
      → visit_all allowlist nodes f ≡ check_nodes allowlist (walk_all nodes) f
  visit_all-walk_all allowlist nil f = refl
  visit_all-walk_all allowlist (cons first rest) f =
      simp
        (
          visit-walk allowlist first f,
          visit_all-walk_all allowlist rest (check_nodes allowlist (walk first) f),
        )
        (sym (check_nodes-append allowlist (walk first) (walk_all rest) f))

  visit_keywords-walk_keywords :
      (allowlist : List String) (keywords : Keywords) (f : Findings)
      → visit_keywords allowlist keywords f ≡ check_nodes allowlist (walk_keywords keywords) f
  visit_keywords-walk_keywords allowlist end f = refl
  visit_keywords-walk_keywords allowlist (keyword arg value rest) f =
      simp
        (
          visit-walk allowlist value f,
          visit_keywords-walk_keywords allowlist rest (check_nodes allowlist (walk value) f),
        )
        (sym (check_nodes-append allowlist (walk value) (walk_keywords rest) f))
