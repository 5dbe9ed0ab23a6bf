-- ===== src/Access/SingleUse.antt =====
-- A ticket lets one socket in, of the run it was issued for.
use text.Mathlib.TextEquality.{eq_iff}
use autonomous_agentic_platf.Prelude.{
  String, ◌≡◌, refl, sym, ap, ◌∙◌, ◌⊎◌, inl, inr, Bool, true, false, not, ◌&&◌, none, some, List,
  [], ◌∷◌, arith, eq_iff, str_eq, if◌then◌else◌, Bool-cases, all, lookup, insert, remove,
  lookup-insert_any, lookup-remove,
}
use autonomous_agentic_platf.Access.{
  token_matches, ticket_of, token_of, Step, issue, authenticate, expire, authenticate_websocket,
  consume_ticket, issue_ticket, is_owner, take_step, let_in, all_let_in,
}

-- The step does not issue that ticket.
abbrev pub issues_other : String → Step → Bool
issues_other ticket (issue new run_id) = not (str_eq new ticket)
issues_other ticket _ = true

module _ (configured ticket : String) (real : str_eq ticket "" ≡ false) where
  -- A step lets nobody in and keeps the ticket of the run or has it gone, or it lets in a socket of
  -- the run and has the ticket gone.
  Cases : String → Step → List (String × String) → Type 0
  Cases owner s tickets =
      ((let_in configured ticket s tickets ≡ [])
        × ((lookup ticket (take_step configured s tickets) ≡ some owner)
            ⊎ (lookup ticket (take_step configured s tickets) ≡ none)))
      ⊎ ((let_in configured ticket s tickets ≡ owner ∷ [])
          × (lookup ticket (take_step configured s tickets) ≡ none))

  -- The same of an authentication, by what it gives.
  abbrev Given : String → String → String → Bool × List (String × String) → Type 0
  Given owner run_id presented r =
      (((if str_eq presented ticket && r.0 then run_id ∷ [] else []) ≡ [])
        × ((lookup ticket r.1 ≡ some owner) ⊎ (lookup ticket r.1 ≡ none)))
      ⊎ (((if str_eq presented ticket && r.0 then run_id ∷ [] else []) ≡ owner ∷ [])
          × (lookup ticket r.1 ≡ none))

  abbrev Gone : String → String → Bool × List (String × String) → Type 0
  Gone run_id presented r =
      ((if str_eq presented ticket && r.0 then run_id ∷ [] else []) ≡ [])
      × (lookup ticket r.1 ≡ none)

  nobody_else :
      (presented run_id : String) (b : Bool)
      → str_eq presented ticket ≡ false
      → (if str_eq presented ticket && b then run_id ∷ [] else []) ≡ []
  nobody_else presented run_id b other = rw other refl

  refused :
      (presented run_id : String)
      → (if str_eq presented ticket && false then run_id ∷ [] else []) ≡ []
  refused presented run_id = elim (Bool-cases (str_eq presented ticket)) [
    | inl e ↦ rw e refl
    | inr e ↦ rw e refl
  ]

  -- The three ways of an authentication by ticket.
  by_ticket :
      (P : Bool × List (String × String) → Type 0) (reachable : Bool) (run_id presented : String)
      (tickets : List (String × String))
      → (str_eq presented ticket ≡ false → P (token_matches configured none, tickets))
      → P (false, tickets)
      → P (is_owner run_id (lookup presented tickets), remove presented tickets)
      → P (authenticate_websocket configured reachable run_id (ticket_of presented) tickets)
  unfolding authenticate_websocket consume_ticket
  by_ticket P reachable run_id presented tickets blank down up =
      elim (Bool-cases (str_eq presented "")) [
        | inl e ↦
            rw e
              (blank ground (arith, eq_iff presented ticket, eq_iff presented "", eq_iff ticket ""))
        | inr e ↦ elim (Bool-cases reachable) [ inl r ↦ rw (e, r) up | inr r ↦ rw (e, r) down ]
      ]

  presented-Given :
      (owner run_id presented : String) (tickets : List (String × String))
      → lookup ticket tickets ≡ some owner
      → Given owner run_id presented
          (is_owner run_id (lookup presented tickets), remove presented tickets)
  presented-Given owner run_id presented tickets held =
      elim (Bool-cases (str_eq presented ticket)) [
        | inr other ↦ rw other (
            inl (
              refl,
              inl (
                  lookup-remove ticket presented tickets
                  ∙ (ap (λ b. if b then none else lookup ticket tickets) other ∙ held)),
            ))
        | inl same ↦
            let is : presented ≡ ticket = (eq_iff presented ticket).0 same in
            let gone : lookup ticket (remove presented tickets) ≡ none =
              lookup-remove ticket presented tickets
              ∙ ap (λ b. if b then none else lookup ticket tickets) same in
            let found : lookup presented tickets ≡ some owner =
              ap (λ t. lookup t tickets) is ∙ held in
            elim (Bool-cases (str_eq owner run_id)) [
              | inl e ↦
                  inr
                    (rw (same, found, e) (ap (λ x. x ∷ []) (sym ((eq_iff owner run_id).0 e))), gone)
              | inr e ↦ inl (rw (same, found, e) refl, inr gone)
            ]
      ]

  presents-Cases :
      (reachable : Bool) (owner run_id presented : String) (tickets : List (String × String))
      → lookup ticket tickets ≡ some owner
      → Cases owner (authenticate reachable run_id (ticket_of presented)) tickets
  unfolding Cases take_step let_in
  presents-Cases reachable owner run_id presented tickets held =
      by_ticket (Given owner run_id presented) reachable run_id presented tickets
        (λ other.
          inl (nobody_else presented run_id (token_matches configured none) other, inl held))
        (inl (refused presented run_id, inl held))
        (presented-Given owner run_id presented tickets held)

  step-Cases :
      (s : Step) (owner : String) (tickets : List (String × String))
      → issues_other ticket s ≡ true
      → lookup ticket tickets ≡ some owner
      → Cases owner s tickets
  unfolding Cases take_step issue_ticket let_in
  step-Cases (issue new run_id) owner tickets other held =
      inl (refl, inl (lookup-insert_any ticket new run_id tickets ∙ ground arith))
  step-Cases (expire gone) owner tickets other held = elim (Bool-cases (str_eq gone ticket)) [
    | inl same ↦ inl (refl, inr (lookup-remove ticket gone tickets ∙ ground arith))
    | inr apart ↦ inl (refl, inl (lookup-remove ticket gone tickets ∙ ground arith))
  ]
  step-Cases (authenticate reachable run_id (token_of token)) owner tickets other held =
      inl (refl, inl held)
  step-Cases (authenticate reachable run_id (ticket_of presented)) owner tickets other held =
      presents-Cases reachable owner run_id presented tickets held

  presented-Gone :
      (run_id presented : String) (tickets : List (String × String))
      → lookup ticket tickets ≡ none
      → Gone run_id presented (is_owner run_id (lookup presented tickets), remove presented tickets)
  presented-Gone run_id presented tickets gone = elim (Bool-cases (str_eq presented ticket)) [
    | inr other ↦ (
      nobody_else presented run_id _ other,
      lookup-remove ticket presented tickets
          ∙ ap (λ b. if b then none else lookup ticket tickets) other
          ∙ gone,
    )
    | inl same ↦
        let is : presented ≡ ticket = (eq_iff presented ticket).0 same in
        let none_left : lookup presented tickets ≡ none = ap (λ t. lookup t tickets) is ∙ gone in
        (
          rw (same, none_left) refl,
          lookup-remove ticket presented tickets
              ∙ ap (λ b. if b then none else lookup ticket tickets) same,
        )
  ]

  -- Without the ticket nobody is let in by it.
  presents-gone :
      (reachable : Bool) (run_id presented : String) (tickets : List (String × String))
      → lookup ticket tickets ≡ none
      → (let_in configured ticket (authenticate reachable run_id (ticket_of presented)) tickets
          ≡ [])
        × (lookup ticket
              (take_step configured (authenticate reachable run_id (ticket_of presented)) tickets)
            ≡ none)
  unfolding take_step let_in
  presents-gone reachable run_id presented tickets gone =
      by_ticket (Gone run_id presented) reachable run_id presented tickets
        (λ other. (nobody_else presented run_id (token_matches configured none) other, gone))
        (refused presented run_id, gone) (presented-Gone run_id presented tickets gone)

  step-gone :
      (s : Step) (tickets : List (String × String))
      → issues_other ticket s ≡ true
      → lookup ticket tickets ≡ none
      → (let_in configured ticket s tickets ≡ [])
        × (lookup ticket (take_step configured s tickets) ≡ none)
  unfolding take_step issue_ticket let_in
  step-gone (issue new run_id) tickets other gone =
      (refl, lookup-insert_any ticket new run_id tickets ∙ ground arith)
  step-gone (expire dropped) tickets other gone =
      (refl, lookup-remove ticket dropped tickets ∙ ground arith)
  step-gone (authenticate reachable run_id (token_of token)) tickets other gone = (refl, gone)
  step-gone (authenticate reachable run_id (ticket_of presented)) tickets other gone =
      presents-gone reachable run_id presented tickets gone

  all-gone :
      (steps : List Step) (tickets : List (String × String))
      → all (issues_other ticket) steps ≡ true
      → lookup ticket tickets ≡ none
      → all_let_in configured ticket steps tickets ≡ []
  unfolding all_let_in
  all-gone [] tickets other gone = refl
  all-gone (s ∷ steps) tickets other gone =
      let (nobody, still) = step-gone s tickets (ground arith) gone in
      rw nobody (all-gone steps (take_step configured s tickets) (ground arith) still)

  all-held :
      (steps : List Step) (owner : String) (tickets : List (String × String))
      → all (issues_other ticket) steps ≡ true
      → lookup ticket tickets ≡ some owner
      → (all_let_in configured ticket steps tickets ≡ [])
        ⊎ (all_let_in configured ticket steps tickets ≡ owner ∷ [])
  unfolding all_let_in Cases
  all-held [] owner tickets other held = inl refl
  all-held (s ∷ steps) owner tickets other held =
      let rest : all (issues_other ticket) steps ≡ true = ground arith in
      elim (step-Cases s owner tickets (ground arith) held) [
        | inl (nobody, inl still) ↦
            rw nobody (all-held steps owner (take_step configured s tickets) rest still)
        | inl (nobody, inr gone) ↦
            rw nobody (inl (all-gone steps (take_step configured s tickets) rest gone))
        | inr (one, gone) ↦
            rw (one, all-gone steps (take_step configured s tickets) rest gone) (inr refl)
      ]

-- Behind the issue of a ticket that is not empty, whatever sockets authenticate in whatever
-- order, other tickets are issued and tickets expire, the ticket lets in one socket at most, and
-- that of the run it was issued for.
pub issue-once :
    (configured ticket run_id : String) (steps : List Step) (tickets : List (String × String))
    → str_eq ticket "" ≡ false
    → all (issues_other ticket) steps ≡ true
    → (all_let_in configured ticket (issue ticket run_id ∷ steps) tickets ≡ [])
      ⊎ (all_let_in configured ticket (issue ticket run_id ∷ steps) tickets ≡ run_id ∷ [])
unfolding all_let_in let_in take_step issue_ticket
issue-once configured ticket run_id steps tickets real other =
    all-held configured ticket real steps run_id (insert ticket run_id tickets) other (
      lookup-insert_any ticket ticket run_id tickets
      ∙ ap (λ b. if b then some run_id else lookup ticket tickets) ((eq_iff ticket ticket).1 refl))
