-- ===== src/Socket/Quota.antt =====
-- `_claim_slot` and `_release_slot`: the connections of one run, with each command to Redis as a
-- step of its own, in any order of the connections. The ids are those of `uuid4`, so `SADD` adds a
-- member. Each claim sets the set to expire 3600 s later; when it does expire is left open. A
-- command that raises has no effect; a `SREM` of `_release_slot` that raises is one that does not
-- come.
pub mod Bound
use autonomous_agentic_platf.Prelude.{
  ℕ, zero, suc, ◌+◌, ◌-◌, ◌*◌, ◌≤◌, ◌<◌, min, max, String, ◌≡◌, refl, sym, ap, ◌∙◌, ◌≢◌, ◌↔◌, ◌⊎◌,
  inl, inr, Bool, true, false, not, ◌&&◌, ◌||◌, Option, none, some, List, [], ◌∷◌, ◌++◌, map,
  reverse, arith, eq_iff, str_eq, ltb, leb, ◌==◌, if◌then◌else◌, ltb→lt, lt→ltb, leb→le, le→leb,
  Bool-cases, Option-cases, or_else, is_some, is_none, length, is_empty, all, any, select, find?,
  count_if, length-append, count_if-append, count_if-le-length, All, All-append, All-reverse,
  All-imp, length-reverse, contains, lookup, insert, merge, ℤ, pos, negsuc, Floats, joined,
  joined-append, append_assoc, append-nil, remove, keys, lookup-insert_any, lookup-remove,
  lookup-keys,
}

-- `MAX_CONNECTIONS_PER_RUN`
abbrev pub max_connections_per_run : ℕ
max_connections_per_run = 8

-- Where a connection stands: it asks for a slot, it was refused and leaves, it streams, or it is
-- over and leaves.
pub data Phase : Type 0 where
  claiming refused streaming closing : Phase

-- A connection, and whether the set in Redis has its id.
pub record Member : Type 0 where
  pub conn_id : ℕ
  pub phase : Phase
  pub counted : Bool

-- `sadd`, `scard` with the test behind it, the end of a stream, and the two `srem`; a `sadd` that
-- raises; an `expire`, a `scard` or the `srem` of a refusal that raises; and the set expires.
pub data Command : Type 0 where
  sadd : (conn_id : ℕ) → Command
  scard : (conn_id : ℕ) → Command
  end_stream : (conn_id : ℕ) → Command
  srem : (conn_id : ℕ) → Command
  sadd_raises : (conn_id : ℕ) → Command
  accounting_raises : (conn_id : ℕ) → Command
  key_expires : Command

abbrev pub streaming_phase : Phase → Bool
streaming_phase streaming = true
streaming_phase _ = false

abbrev pub is_streaming : Member → Bool
is_streaming m = streaming_phase m.phase

-- What the test makes of a member that asks, with that number of members.
unfoldable pub settle : ℕ → Phase → Phase
settle members claiming = if ltb max_connections_per_run members then refused else streaming
settle members refused = refused
settle members streaming = streaming
settle members closing = closing

unfoldable pub over : Phase → Phase
over claiming = claiming
over refused = refused
over streaming = closing
over closing = closing

-- The `except` of `_claim_slot`, which returns True.
unfoldable pub admit : Phase → Phase
admit claiming = streaming
admit refused = streaming
admit streaming = streaming
admit closing = closing

-- The connection with that id takes the next phase.
unfoldable pub set_phase : ℕ → (Phase → Phase) → List Member → List Member
set_phase conn_id next [] = []
set_phase conn_id next (m ∷ members) =
    let rest = set_phase conn_id next members in
    if m.conn_id == conn_id then record m { phase = next m.phase } ∷ members else m ∷ rest

abbrev pub leaves : ℕ → Member → Bool
leaves conn_id m =
    m.conn_id == conn_id && elim m.phase [ refused ↦ true | closing ↦ true | _ ↦ false ]

-- What `SCARD` gives.
abbrev pub cardinality : List Member → ℕ
cardinality members = count_if (λ m. m.counted) members

abbrev pub forgotten : Member → Member
forgotten m = record m { counted = false }

unfoldable pub command : Command → List Member → List Member
unfolding settle over admit set_phase
command (sadd conn_id) members =
    record { conn_id = conn_id; phase = claiming; counted = true } ∷ members
command (scard conn_id) members = set_phase conn_id (settle (cardinality members)) members
command (end_stream conn_id) members = set_phase conn_id over members
command (srem conn_id) members = select (λ m. not (leaves conn_id m)) members
command (sadd_raises conn_id) members =
    record { conn_id = conn_id; phase = streaming; counted = false } ∷ members
command (accounting_raises conn_id) members = set_phase conn_id admit members
command key_expires members = map forgotten members

unfoldable pub commands : List Command → List Member → List Member
unfolding command
commands [] members = members
commands (c ∷ more) members = commands more (command c members)

abbrev pub streams : List Member → ℕ
streams members = count_if is_streaming members

-- The connections that the set does not have.
abbrev pub uncounted : List Member → ℕ
uncounted members = count_if (λ m. not m.counted) members

-- A connection is let in because its accounting failed.
abbrev pub is_failure : Command → Bool
is_failure (sadd_raises conn_id) = true
is_failure (accounting_raises conn_id) = true
is_failure _ = false

abbrev pub is_expiry : Command → Bool
is_expiry key_expires = true
is_expiry _ = false
