-- ===== src/Access.antt =====
-- The tickets of sockets in backend/app/core/security.py, with the tickets in Redis as a dict from
-- ticket to run. `GETDEL` is one step, so sockets that race come in some order of their steps.
pub mod SingleUse
use autonomous_agentic_platf.Prelude.{
  ℕ, zero, suc, ◌+◌, ◌-◌, ◌*◌, ◌≤◌, ◌<◌, min, max, String, ◌≡◌, refl, sym, ap, ◌∙◌, ◌≢◌, ◌↔◌, ◌⊎◌,
  inl, inr, Bool, true, false, not, ◌&&◌, ◌||◌, Option, none, some, List, [], ◌∷◌, ◌++◌, map,
  reverse, arith, eq_iff, str_eq, ltb, leb, ◌==◌, if◌then◌else◌, ltb→lt, lt→ltb, leb→le, le→leb,
  Bool-cases, Option-cases, or_else, is_some, is_none, length, is_empty, all, any, select, find?,
  count_if, length-append, count_if-append, count_if-le-length, All, All-append, All-reverse,
  All-imp, length-reverse, contains, lookup, insert, merge, ℤ, pos, negsuc, Floats, joined,
  joined-append, append_assoc, append-nil, remove, keys, lookup-insert_any, lookup-remove,
  lookup-keys,
}

-- `PLATFORM_API_TOKEN`, which may be empty.
abbrev pub auth_required : String → Bool
auth_required configured = not (str_eq configured "")

unfoldable pub token_matches : String → Option String → Bool
token_matches configured candidate =
    if not (auth_required configured) then true else elim candidate [
      | none ↦ false
      | some token ↦ not (str_eq token "") && str_eq token configured
    ]

-- `issue_ticket`, for the ticket that was drawn.
unfoldable pub issue_ticket : String → String → List (String × String) → List (String × String)
issue_ticket ticket run_id tickets = insert ticket run_id tickets

-- `consume_ticket`: none also where Redis, which is asked first, cannot be reached.
unfoldable pub consume_ticket :
    Bool → String → List (String × String) → Option String × List (String × String)
consume_ticket reachable ticket tickets =
    if str_eq ticket ""
    then (none, tickets)
    else if not reachable
    then (none, tickets)
    else (lookup ticket tickets, remove ticket tickets)

abbrev pub is_owner : String → Option String → Bool
is_owner run_id none = false
is_owner run_id (some owner) = str_eq owner run_id

-- What a socket brings: `if ticket` is false for an empty one.
pub data Credential : Type 0 where
  ticket_of : (ticket : String) → Credential
  token_of : (token : Option String) → Credential

unfoldable pub authenticate_websocket :
    String → Bool → String → Credential → List (String × String) → Bool × List (String × String)
unfolding consume_ticket token_matches
authenticate_websocket configured reachable run_id (ticket_of ticket) tickets =
    if str_eq ticket ""
    then (token_matches configured none, tickets)
    else let (owner, left) = consume_ticket reachable ticket tickets in
      (is_owner run_id owner, left)
authenticate_websocket configured reachable run_id (token_of token) tickets =
    (token_matches configured token, tickets)

-- One step on the tickets: one is issued, a socket of a run authenticates, or one expires.
pub data Step : Type 0 where
  issue : (ticket run_id : String) → Step
  authenticate : (reachable : Bool) (run_id : String) (credential : Credential) → Step
  expire : (ticket : String) → Step

unfoldable pub take_step : String → Step → List (String × String) → List (String × String)
unfolding issue_ticket authenticate_websocket
take_step configured (issue ticket run_id) tickets = issue_ticket ticket run_id tickets
take_step configured (authenticate reachable run_id credential) tickets =
    (authenticate_websocket configured reachable run_id credential tickets).1
take_step configured (expire ticket) tickets = remove ticket tickets

-- The run of a socket that a step lets in by that ticket.
unfoldable pub let_in : String → String → Step → List (String × String) → List String
unfolding authenticate_websocket
let_in configured ticket (authenticate reachable run_id (ticket_of presented)) tickets =
    if str_eq presented ticket
      && (authenticate_websocket configured reachable run_id (ticket_of presented) tickets).0
    then run_id ∷ []
    else []
let_in configured ticket _ tickets = []

-- The runs of the sockets that the steps let in by that ticket.
unfoldable pub all_let_in : String → String → List Step → List (String × String) → List String
unfolding take_step let_in
all_let_in configured ticket [] tickets = []
all_let_in configured ticket (s ∷ steps) tickets =
    let_in configured ticket s tickets
    ++ all_let_in configured ticket steps (take_step configured s tickets)
