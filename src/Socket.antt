-- ===== src/Socket.antt =====
-- `RunConnection` and the loops of `run_stream`: one socket of a client, which is sent the backlog
-- of a run and then its live events. Redis, the socket, the database and the clock answer by the
-- number of the call, in `Outside`; at each point where the writing loop awaits, the reader task
-- handles the frames of the client that have come, so that both are interleaved there. Handling
-- one frame awaits at most once, as its last act, and is one step.
pub mod Filter
pub mod Sent
pub mod Order
pub mod Rounds
pub mod Due
pub mod Up
pub mod Delivery
pub mod Silence
pub mod Session
pub mod Quota
use autonomous_agentic_platf.Prelude.{
  ℕ, zero, suc, ◌+◌, ◌-◌, ◌*◌, ◌≤◌, ◌<◌, min, max, String, ◌≡◌, refl, sym, ap, ◌∙◌, ◌≢◌, ◌↔◌, ◌⊎◌,
  inl, inr, Bool, true, false, not, ◌&&◌, ◌||◌, Option, none, some, List, [], ◌∷◌, ◌++◌, map,
  reverse, arith, eq_iff, str_eq, ltb, leb, ◌==◌, if◌then◌else◌, ltb→lt, lt→ltb, leb→le, le→leb,
  Bool-cases, Option-cases, or_else, is_some, is_none, length, is_empty, all, any, select, find?,
  count_if, length-append, count_if-append, count_if-le-length, All, All-append, All-reverse,
  All-imp, length-reverse, contains, lookup, insert, merge, ℤ, pos, negsuc, Floats, joined,
  joined-append, append_assoc, append-nil, remove, keys, lookup-insert_any, lookup-remove,
  lookup-keys,
}
use autonomous_agentic_platf.Socket.Filter.{matches_filter}

-- `TERMINAL_EVENTS`, by their wire names.
abbrev pub terminal_events : List String
terminal_events = "run.completed" ∷ "run.failed" ∷ "run.cancelled" ∷ []

-- `CloseCode`
pub data CloseCode : Type 0 where
  normal going_away internal_error protocol_error unauthenticated not_found quota_exceeded :
      CloseCode

-- An entry of the stream, decoded: `id` is the stream's own.
pub record StoredEvent : Type 0 where
  pub id : ℕ
  pub seq : ℕ
  pub type : String
  pub payload : String

abbrev pub ends_run : StoredEvent → Bool
ends_run e = contains e.type terminal_events

-- The cursor of the tail: `$` or an id, where 0 is `0-0`.
pub data Cursor : Type 0 where
  newest : Cursor
  behind : (id : ℕ) → Cursor

-- What the server writes. The envelope's time and run, and the summary in `hello`, are left out.
pub data Frame : Type 0 where
  stored : (event : StoredEvent) → Frame
  hello : (last_seq interval_s : ℕ) → Frame
  replay_gap : (requested_after oldest_available : ℕ) → Frame
  run_snapshot : (payload : String) → Frame
  replay_complete : (through_seq : ℕ) → Frame
  ping : Frame
  error : (code : String) → Frame

abbrev pub frame_type : Frame → String
frame_type (stored event) = event.type
frame_type (hello last_seq interval_s) = "hello"
frame_type (replay_gap requested_after oldest_available) = "replay.gap"
frame_type (run_snapshot payload) = "run.snapshot"
frame_type (replay_complete through_seq) = "replay.complete"
frame_type ping = "ping"
frame_type (error code) = "error"

-- What the server tells the worker: `publish_control`.
pub data Control : Type 0 where
  cancel_run : (reason : String) → Control
  approve_gate : (gate decision notes : Option String) → Control

-- `payload.get("reason") or "cancelled from the UI"`
abbrev pub reason_text : Option String → String
reason_text none = "cancelled from the UI"
reason_text (some reason) = if str_eq reason "" then "cancelled from the UI" else reason

-- A JSON object of the client. `bad_payload` is a subscribe, cancel or approve with a payload that
-- is neither empty nor an object: `payload.get` raises.
pub data ClientMessage : Type 0 where
  pong auth resync bad_payload : ClientMessage
  subscribe : (types : Option (List String)) → ClientMessage
  cancel : (reason : Option String) → ClientMessage
  approve : (gate decision notes : Option String) → ClientMessage
  unknown : ClientMessage

-- What a turn of the reader gets: `ws.receive` raises or the client disconnects, a binary frame,
-- neither text nor bytes, a text that is no JSON, an exception that is not caught (`json.loads`
-- raises a RecursionError at deep nesting, or `ws.receive` another than the two), JSON that is no
-- object, or an object.
pub data Inbound : Type 0 where
  gone binary no_text not_json uncaught not_object : Inbound
  object : (message : ClientMessage) → Inbound

-- The task of the reader: it runs, it returned, or it raised.
pub data Reader : Type 0 where
  running returned raised : Reader

pub record Conn : Type 0 where
  pub filter : Option (List String)
  pub missed_pongs : ℕ
  pub last_ping : ℕ
  pub closed : Bool
  pub finished : Bool
  pub resync : Bool
  pub close_code : CloseCode
  pub close_sent : Option CloseCode
  pub frames : List Frame
  pub published : List Control
  pub reader : Reader
  pub calls : ℕ

abbrev pub fresh_conn : Conn
fresh_conn = record {
  filter = none;
  missed_pongs = 0;
  last_ping = 0;
  closed = false;
  finished = false;
  resync = false;
  close_code = normal;
  close_sent = none;
  frames = [];
  published = [];
  reader = running;
  calls = 0;
}

-- The outside, by the number of the call: `none` and `false` are failures, and `now` is
-- `time.monotonic()` in whole seconds.
pub record Outside : Type 0 where
  pub xrange : ℕ → (count : ℕ) → Option (List StoredEvent)
  pub xread : ℕ → Cursor → (count : ℕ) → Option (List StoredEvent)
  pub accepts : ℕ → Bool
  pub publishes : ℕ → Bool
  pub snapshot : ℕ → Option String
  pub now : ℕ → ℕ
  pub inbound : ℕ → List Inbound

abbrev pub heartbeat_s : ℕ
heartbeat_s = 20

abbrev pub max_missed_pongs : ℕ
max_missed_pongs = 2

-- `read_backlog`, on what `XRANGE` gave: the events, the cursor and the oldest number.
unfoldable pub backlog_events : ℕ → List StoredEvent → List StoredEvent
backlog_events after_seq entries = select (λ e. ltb after_seq e.seq) entries

-- The id of the last entry, or the id that was given.
unfoldable pub last_id : ℕ → List StoredEvent → ℕ
last_id id [] = id
last_id id (e ∷ entries) = last_id e.id entries

abbrev pub oldest_seq : List StoredEvent → Option ℕ
oldest_seq entries = elim (find? (λ e. ltb 0 e.seq) entries) [ none ↦ none | some e ↦ some e.seq ]

-- `read_live`, on what `XREAD` gave: the new cursor.
unfoldable pub next_cursor : Cursor → List StoredEvent → Cursor
unfolding last_id
next_cursor cursor [] = cursor
next_cursor cursor (e ∷ entries) = behind (last_id e.id entries)

module _ (w : Outside) where
  -- `send`
  unfoldable pub write : Frame → Conn → Bool × Conn
  write frame c =
      if c.closed
      then (false, c)
      else if w.accepts c.calls
      then (true, record c { calls = c.calls + 1; frames = c.frames ++ frame ∷ [] })
      else (false, record c { calls = c.calls + 1; closed = true })

  -- `close`
  abbrev pub close : CloseCode → Conn → Conn
  close code c = if c.closed then c else record c { closed = true; close_sent = some code }

  -- `send_error`, of the reader.
  abbrev pub answer_error : String → Conn → Conn
  unfolding write
  answer_error code c = if matches_filter "error" c.filter then (write (error code) c).1 else c

  -- `publish_control`: where it raises, so does the reader.
  unfoldable pub publish_control : Control → Conn → Conn
  publish_control message c =
      if w.publishes c.calls
      then record c { calls = c.calls + 1; published = c.published ++ message ∷ [] }
      else record c { calls = c.calls + 1; reader = raised }

  -- `_handle_client_message`
  unfoldable pub handle_message : ClientMessage → Conn → Conn
  unfolding write publish_control
  handle_message pong c = record c { missed_pongs = 0 }
  handle_message auth c = c
  handle_message resync c = record c { resync = true }
  handle_message bad_payload c = record c { reader = raised }
  handle_message (subscribe types) c = record c { filter = types }
  handle_message (cancel reason) c = publish_control (cancel_run (reason_text reason)) c
  handle_message (approve gate decision notes) c =
      publish_control (approve_gate gate decision notes) c
  handle_message unknown c = answer_error "unknown_message_type" c

  -- One round of `_read_client`.
  unfoldable pub read_frame : Inbound → Conn → Conn
  unfolding handle_message write
  read_frame gone c = record c { closed = true; reader = returned }
  read_frame binary c =
      close protocol_error (record c { close_code = protocol_error; reader = returned })
  read_frame no_text c = c
  read_frame not_json c =
      close protocol_error (record c { close_code = protocol_error; reader = returned })
  read_frame uncaught c = record c { reader = raised }
  read_frame not_object c = answer_error "malformed_message" c
  read_frame (object message) c = handle_message message c

  abbrev pub reads : Conn → Bool
  reads c = not c.closed && elim c.reader [ running ↦ true | _ ↦ false ]

  -- `_read_client`, on the frames that have come.
  unfoldable pub read_client : List Inbound → Conn → Conn
  unfolding read_frame
  read_client [] c = c
  read_client (inbound ∷ more) c = read_client more (if reads c then read_frame inbound c else c)

  -- A point where the writing loop awaits.
  unfoldable pub yielded : Conn → Conn
  unfolding read_client
  yielded c = read_client (w.inbound c.calls) (record c { calls = c.calls + 1 })

  unfoldable pub send : Frame → Conn → Bool × Conn
  unfolding write yielded
  send frame c = let (sent, c1) = write frame c in (sent, yielded c1)

  -- `send_event`
  unfoldable pub send_event : Frame → Conn → Bool × Conn
  unfolding send
  send_event frame c =
      if matches_filter (frame_type frame) c.filter then send frame c else (true, c)

  -- `_send_snapshot`
  unfoldable pub send_snapshot : Conn → Conn
  unfolding send_event yielded
  send_snapshot c = elim (w.snapshot c.calls) [
    | none ↦ (send_event (error "snapshot_failed") (yielded c)).1
    | some payload ↦ (send_event (run_snapshot payload) (yielded c)).1
  ]

  -- `_forward`, on each event of a list, until one cannot be sent.
  unfoldable pub forward_all : List StoredEvent → Conn → Bool × Conn
  unfolding send_event
  forward_all [] c = (true, c)
  forward_all (e ∷ events) c =
      let (sent, c1) = send_event (stored e) c in
      elim sent [ true ↦ forward_all events c1 | false ↦ (false, c1) ]

  -- The first `if` of `_replay`: history that the client needs was trimmed.
  unfoldable pub signal_gap : ℕ → Option ℕ → Conn → Conn
  unfolding send_event send_snapshot
  signal_gap after_seq none c = c
  signal_gap after_seq (some oldest) c =
      if not (after_seq == 0) && ltb (after_seq + 1) oldest
      then send_snapshot (send_event (replay_gap after_seq oldest) c).1
      else c

  abbrev pub through : ℕ → List StoredEvent → ℕ
  through after_seq [] = after_seq
  through after_seq (e ∷ events) = through (max after_seq e.seq) events

  unfoldable pub complete_replay : ℕ → List StoredEvent → Bool × Conn → Conn
  unfolding send_event
  complete_replay after_seq events (false, c) = c
  complete_replay after_seq events (true, c) =
      let c1 = (send_event (replay_complete (through after_seq events)) c).1 in
      if any ends_run events then record c1 { finished = true } else c1

  -- `_replay`
  unfoldable pub replay : ℕ → Conn → Cursor × Conn
  unfolding backlog_events last_id forward_all signal_gap complete_replay send_event yielded
  replay after_seq c = elim (w.xrange c.calls 5000) [
    | none ↦ (newest, (send_event (error "replay_failed") (yielded c)).1)
    | some entries ↦
        let events = backlog_events after_seq entries in
        (
          behind (last_id 0 entries),
          complete_replay after_seq events
              (forward_all events (signal_gap after_seq (oldest_seq entries) (yielded c))),
        )
  ]

  -- `_heartbeat`
  unfoldable pub heartbeat : Conn → Bool × Conn
  unfolding send_event
  heartbeat c =
      let now = w.now c.calls in
      let asked = record c { calls = c.calls + 1 } in
      if ltb (now - c.last_ping) heartbeat_s
      then (true, asked)
      else if leb max_missed_pongs c.missed_pongs
      then (false, record asked { close_code = going_away })
      else send_event ping (record asked { missed_pongs = c.missed_pongs + 1; last_ping = now })

  -- The loop over the events of one read: it goes on unless one cannot be sent or is terminal.
  unfoldable pub forward_live : List StoredEvent → Conn → Bool × Conn
  unfolding send_event
  forward_live [] c = (true, c)
  forward_live (e ∷ events) c =
      let (sent, c1) = send_event (stored e) c in
      elim sent [
        | false ↦ (false, c1)
        | true ↦ elim (ends_run e) [
          | true ↦ (false, (send_event (replay_complete e.seq) c1).1)
          | false ↦ forward_live events c1
        ]
      ]

  -- What follows a read: the events, or on silence the heartbeat.
  unfoldable pub after_read : List StoredEvent → Conn → Bool × Conn
  unfolding forward_live heartbeat
  after_read [] c = heartbeat c
  after_read (e ∷ events) c = forward_live (e ∷ events) c

  unfoldable pub resynced : Conn → Conn
  unfolding send_snapshot
  resynced c = if c.resync then send_snapshot (record c { resync = false }) else c

  -- The loop of `_pump`, for a number of rounds.
  unfoldable pub tail_live : ℕ → Cursor → Conn → Conn
  unfolding resynced yielded after_read next_cursor
  tail_live zero cursor c = c
  tail_live (suc rounds) cursor c = elim (c.closed || c.finished) [
    | true ↦ c
    | false ↦
        let c1 = resynced c in
        elim (w.xread c1.calls cursor 200) [
          | none ↦ tail_live rounds cursor (yielded (yielded c1))
          | some events ↦
              let (goes_on, c2) = after_read events (yielded c1) in
              elim goes_on [ true ↦ tail_live rounds (next_cursor cursor events) c2 | false ↦ c2 ]
        ]
  ]

  -- `_pump`
  unfoldable pub pump : ℕ → ℕ → Conn → Conn
  unfolding replay tail_live
  pump rounds after_seq c =
      let (cursor, c1) = replay after_seq c in
      elim (c1.closed || c1.finished) [
        | true ↦ c1
        | false ↦
            tail_live rounds cursor (record c1 { last_ping = w.now c1.calls; calls = c1.calls + 1 })
      ]
