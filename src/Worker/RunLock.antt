-- ===== src/Worker/RunLock.antt =====
-- `RunLock` of backend/app/core/redis.py: the lock of one run with its lease. Each call is one
-- command or one script in Redis, so one step, at the time that Redis reads. The clock is in
-- seconds.
pub mod Exclusive
use autonomous_agentic_platf.Prelude.{
  ℕ, zero, suc, ◌+◌, ◌-◌, ◌*◌, ◌≤◌, ◌<◌, min, max, String, ◌≡◌, refl, sym, ap, ◌∙◌, ◌≢◌, ◌↔◌, ◌⊎◌,
  inl, inr, Bool, true, false, not, ◌&&◌, ◌||◌, Option, none, some, List, [], ◌∷◌, ◌++◌, map,
  reverse, arith, eq_iff, str_eq, ltb, leb, ◌==◌, if◌then◌else◌, ltb→lt, lt→ltb, leb→le, le→leb,
  Bool-cases, Option-cases, or_else, is_some, is_none, length, is_empty, all, any, select, find?,
  count_if, length-append, count_if-append, count_if-le-length, All, All-append, All-reverse,
  All-imp, length-reverse, contains, lookup, insert, merge, ℤ, pos, negsuc, Floats, joined,
  joined-append, append_assoc, append-nil, remove, keys, lookup-insert_any, lookup-remove,
  lookup-keys,
}

-- The key of the lock: its value, and when it expires.
pub record Key : Type 0 where
  pub owner : String
  pub expires : ℕ

-- One `RunLock` object. The identity is that of the worker, so two jobs of one worker share it.
pub record Holder : Type 0 where
  pub worker_id : String
  pub acquired : Bool

pub data Call : Type 0 where
  acquire renew release : Call

-- The key as Redis reads it: an expired one is gone.
abbrev pub live_key : ℕ → Option Key → Option Key
live_key now none = none
live_key now (some key) = if ltb now key.expires then some key else none

abbrev pub owned_by : String → Option Key → Bool
owned_by worker none = false
owned_by worker (some key) = str_eq key.owner worker

-- `SET lock:run:{id} {worker_id} NX EX {ttl}`
abbrev pub set_if_absent : ℕ → ℕ → String → Option Key → Option Key × Bool
set_if_absent ttl now worker none = (some (record { owner = worker; expires = now + ttl }), true)
set_if_absent ttl now worker (some key) = (some key, false)

-- `_RENEW_SCRIPT`
abbrev pub renew_script : ℕ → ℕ → String → Option Key → Option Key × Bool
renew_script ttl now worker key =
    if owned_by worker key
    then (some (record { owner = worker; expires = now + ttl }), true)
    else (key, false)

-- `_RELEASE_SCRIPT`
abbrev pub release_script : String → Option Key → Option Key × Bool
release_script worker key = if owned_by worker key then (none, true) else (key, false)

-- A method of `RunLock`: the key and the holder after it, and what it returns.
abbrev pub call_lock : ℕ → ℕ → Holder → Call → Option Key → Option Key × Holder × Bool
call_lock ttl now h acquire key =
    let (after, won) = set_if_absent ttl now h.worker_id (live_key now key) in
    (after, record h { acquired = won }, won)
call_lock ttl now h renew key =
    let (after, done) = renew_script ttl now h.worker_id (live_key now key) in (after, h, done)
call_lock ttl now h release key =
    if h.acquired
    then (let (after, done) = release_script h.worker_id (live_key now key) in
        (after, record h { acquired = false }, done))
    else (live_key now key, h, false)

-- A call at a time, by the worker of a holder that has acquired or not.
pub record Event : Type 0 where
  pub now : ℕ
  pub holder : Holder
  pub call : Call

-- Calls of any jobs in an order: the key after them, and what they return.
unfoldable pub all_calls : ℕ → List Event → Option Key → Option Key × List Bool
all_calls ttl [] key = (key, [])
all_calls ttl (e ∷ events) key =
    let (after, holder, answer) = call_lock ttl e.now e.holder e.call key in
    let (last, answers) = all_calls ttl events after in (last, answer ∷ answers)
