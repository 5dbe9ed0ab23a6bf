-- ===== src/Socket/Session.antt =====
-- `run_stream` from its first frame to its `finally`: the guards, the session and the cleanup. A
-- loop that stops when its rounds are used up is a task that is cancelled there, which comes to
-- the same `finally`.
pub mod Reading
pub mod Cleanup
use autonomous_agentic_platf.Prelude.{
  ℕ, zero, suc, ◌+◌, ◌-◌, ◌*◌, ◌≤◌, ◌<◌, min, max, String, ◌≡◌, refl, sym, ap, ◌∙◌, ◌≢◌, ◌↔◌, ◌⊎◌,
  inl, inr, Bool, true, false, not, ◌&&◌, ◌||◌, Option, none, some, List, [], ◌∷◌, ◌++◌, map,
  reverse, arith, eq_iff, str_eq, ltb, leb, ◌==◌, if◌then◌else◌, ltb→lt, lt→ltb, leb→le, le→leb,
  Bool-cases, Option-cases, or_else, is_some, is_none, length, is_empty, all, any, select, find?,
  count_if, length-append, count_if-append, count_if-le-length, All, All-append, All-reverse,
  All-imp, length-reverse, contains, lookup, insert, merge, ℤ, pos, negsuc, Floats, joined,
  joined-append, append_assoc, append-nil, remove, keys, lookup-insert_any, lookup-remove,
  lookup-keys,
}
use autonomous_agentic_platf.Socket.{
  Conn, Outside, CloseCode, unauthenticated, not_found, quota_exceeded, internal_error, Reader,
  running, returned, raised, hello, heartbeat_s, write, close, pump,
}

-- What the guards found, what `_send_hello` read of the run (none where it raised), and whether the
-- `SREM` of the end succeeds.
pub record Request : Type 0 where
  pub authenticated : Bool
  pub run_exists : Bool
  pub slot_claimed : Bool
  pub last_seq : Option ℕ
  pub after_seq : ℕ
  pub srem_works : Bool

-- The connection when the handler is over, `_open_connections`, and whether the slot was given
-- back: by `_release_slot`, which swallows what its `SREM` raises.
pub record Outcome : Type 0 where
  pub conn : Conn
  pub open_connections : ℕ
  pub slot_released : Bool

-- All the guards of the handler pass.
abbrev pub admitted : Request → Bool
admitted r = r.authenticated && r.run_exists && r.slot_claimed

module _ (w : Outside) where
  -- The body of the `try`: the reader is started behind `hello`.
  unfoldable pub session : ℕ → Request → Conn → Conn
  unfolding write pump
  session rounds r c = elim r.last_seq [
    | none ↦ record c { close_code = internal_error }
    | some last_seq ↦ pump w rounds r.after_seq (write w (hello last_seq heartbeat_s) c).1
  ]

  -- The `finally`: `await reader` raises what the reader raised, and what is behind it is skipped.
  unfoldable pub clean_up : Bool → ℕ → Conn → Outcome
  clean_up srem_works open_connections c = elim c.reader [
    | raised ↦ record { conn = c; open_connections = open_connections; slot_released = false }
    | _ ↦ record {
      conn = close w c.close_code c;
      open_connections = open_connections - 1;
      slot_released = srem_works;
    }
  ]

  abbrev pub refuse : CloseCode → ℕ → Conn → Outcome
  refuse code open_connections c = record {
    conn = close w code c;
    open_connections = open_connections;
    slot_released = false;
  }

  -- `run_stream`
  unfoldable pub run_stream : ℕ → Request → ℕ → Conn → Outcome
  unfolding session clean_up
  run_stream rounds r open_connections c =
      if not r.authenticated
      then refuse unauthenticated open_connections c
      else if not r.run_exists
      then refuse not_found open_connections c
      else if not r.slot_claimed
      then refuse quota_exceeded open_connections c
      else clean_up r.srem_works (open_connections + 1) (session rounds r c)
