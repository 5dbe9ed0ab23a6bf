-- ===== src/Examples/Access.antt =====
-- The theorem on tickets, at a stolen ticket.
use autonomous_agentic_platf.Prelude.{
  ◌≡◌, refl, ◌⊎◌, true, false, List, [], ◌∷◌, lookup, insert, remove,
}
use autonomous_agentic_platf.Access.{Step, issue, authenticate, ticket_of, all_let_in}
use autonomous_agentic_platf.Access.SingleUse.{issue-once}

-- A ticket of run `a` is tried on run `b`, and then on its own run, twice.
abbrev probes : List Step
probes =
    authenticate true "b" (ticket_of "t")
    ∷ authenticate true "a" (ticket_of "t")
    ∷ issue "u" "b"
    ∷ authenticate true "a" (ticket_of "t")
    ∷ []

issue-once_example :
    (all_let_in "secret" "t" (issue "t" "a" ∷ probes) [] ≡ [])
    ⊎ (all_let_in "secret" "t" (issue "t" "a" ∷ probes) [] ≡ "a" ∷ [])
issue-once_example = issue-once "secret" "t" "a" probes [] refl refl

-- The honest use comes first.
used_once :
    all_let_in "secret" "t"
      (issue "t" "a"
        ∷ authenticate false "a" (ticket_of "t")
        ∷ authenticate true "a" (ticket_of "t")
        ∷ probes)
      []
    ≡ "a" ∷ []
unfolding all_let_in lookup insert remove
used_once = refl
