-- ===== src/Examples/Socket.antt =====
-- The theorems on a socket, at a short log and concrete worlds.
use autonomous_agentic_platf.Prelude.{
  ◌+◌, ◌*◌, ◌≤◌, String, ◌≡◌, refl, inl, inr, true, Option, none, some, List, [], ◌∷◌, arith, ltb,
  if◌then◌else◌, ltb→lt, Bool-cases, count_if,
}
use mathlib.Core.Path.{subst}
use autonomous_agentic_platf.Socket.{
  StoredEvent, newest, Conn, fresh_conn, Outside, object, pong, bad_payload, pump, tail_live,
  backlog_events, last_id, next_cursor,
}
use autonomous_agentic_platf.Socket.Filter.{matches_filter}
use autonomous_agentic_platf.Socket.Sent.{sent}
use autonomous_agentic_platf.Socket.Due.{passed, due_events}
use autonomous_agentic_platf.Socket.Delivery.{pump-delivers}
use autonomous_agentic_platf.Socket.Order.{Ascending, Follows, cursor_id, pump-Ascending}
use autonomous_agentic_platf.Socket.Silence.{EndsSilently, tail_live-EndsSilently}
use autonomous_agentic_platf.Socket.Quota.{
  sadd, scard, srem, end_stream, accounting_raises, key_expires, Command, commands, streams,
  max_connections_per_run, is_failure,
}
use autonomous_agentic_platf.Socket.Quota.Bound.{commands-le}
use autonomous_agentic_platf.Socket.Session.{Request, run_stream}
use autonomous_agentic_platf.Socket.Session.Cleanup.{
  CleansUp, Leaks, run_stream-CleansUp, run_stream-Leaks,
}

abbrev started : StoredEvent
started = record { id = 1; seq = 1; type = "node.started"; payload = "{}" }

abbrev delta : StoredEvent
delta = record { id = 2; seq = 2; type = "token.delta"; payload = "{}" }

abbrev completed : StoredEvent
completed = record { id = 3; seq = 3; type = "run.completed"; payload = "{}" }

-- The log has three entries, and the third is not there yet when the backlog is read.
abbrev short_run : Outside
short_run = record {
  xrange = λ call count. some (started ∷ delta ∷ []);
  xread = λ call cursor count. some (if ltb (cursor_id cursor) 3 then completed ∷ [] else []);
  accepts = λ call. true;
  publishes = λ call. true;
  snapshot = λ call. none;
  now = λ call. 3 * call;
  inbound = λ call. [];
}

-- The client asked for the families of the runs and the tokens.
abbrev some_families : Option (List String)
some_families = some ("run." ∷ "token.*" ∷ [])

abbrev filtered_conn : Conn
filtered_conn = record fresh_conn { filter = some_families }

pump-delivers_example :
    sent (pump short_run 1 1 filtered_conn).frames
    ≡ passed some_families (due_events (backlog_events 1 (started ∷ delta ∷ [])) (completed ∷ []))
unfolding last_id next_cursor
pump-delivers_example =
    pump-delivers short_run some_families (λ call. refl) (λ call. refl) (started ∷ delta ∷ [])
      ((completed ∷ []) ∷ []) 1 filtered_conn
      (record { is_open = refl; goes_on = refl; no_resync = refl; filters = refl }) refl refl
      ((λ call. refl), refl, tt)

passed_value :
    passed some_families (due_events (backlog_events 1 (started ∷ delta ∷ [])) (completed ∷ []))
    ≡ delta ∷ completed ∷ []
unfolding backlog_events matches_filter
passed_value = refl

abbrev Numbered : StoredEvent → Type 0
Numbered e = e.seq ≡ e.id

pump-Ascending_example : Ascending (λ e. e.seq) (sent (pump short_run 3 0 fresh_conn).frames)
pump-Ascending_example =
    pump-Ascending short_run Numbered (λ e f le lf less. omega arith)
      (λ call count cursor reply e.
        subst (λ o. elim o [ none ↦ Unit | some r ↦ Follows Numbered (cursor_id cursor) r ]) e
          (elim (Bool-cases (ltb (cursor_id cursor) 3)) [
            | inl h ↦ let less = ltb→lt _ _ h in rw h (refl, omega arith, tt)
            | inr h ↦ rw h tt
          ]))
      (λ call count reply e.
        subst (λ o. elim o [ none ↦ Unit | some r ↦ Follows Numbered 0 r ]) e
          (refl, omega arith, (refl, omega arith, tt)))
      3 0 fresh_conn refl

abbrev a_request : Request
a_request = record {
  authenticated = true;
  run_exists = true;
  slot_claimed = true;
  last_seq = some 3;
  after_seq = 0;
  srem_works = true;
}

-- The client answers at each await.
abbrev answering : Outside
answering = record short_run { inbound = λ call. object pong ∷ [] }

run_stream-CleansUp_example : CleansUp a_request 7 (run_stream answering 20 a_request 7 fresh_conn)
run_stream-CleansUp_example =
    run_stream-CleansUp answering (λ call. refl) (λ call. (refl, tt)) 20 a_request 7 fresh_conn refl

-- The client sends `{"type": "subscribe", "payload": "x"}`.
abbrev misshapen : Outside
misshapen = record short_run { inbound = λ call. object bad_payload ∷ [] }

run_stream-Leaks_example : Leaks 7 (run_stream misshapen 20 a_request 7 fresh_conn)
run_stream-Leaks_example =
    run_stream-Leaks misshapen 20 a_request 3 7 fresh_conn [] refl refl refl refl refl refl refl
      refl

abbrev idle_run : Outside
idle_run = record short_run { xread = λ call cursor count. some [] }

tail_live-EndsSilently_example :
    EndsSilently filtered_conn (tail_live idle_run 18 newest filtered_conn)
unfolding matches_filter
tail_live-EndsSilently_example =
    tail_live-EndsSilently idle_run (λ call count cursor. refl) (λ call. refl) (λ call. omega arith)
      (λ call. omega arith) 18 (omega arith) newest filtered_conn
      (record {
        is_open = refl;
        goes_on = refl;
        no_resync = refl;
        filtered = refl;
        missed = omega arith;
      })
      (omega arith)

-- Nine clients ask at once, all test before any leaves, and one test raises.
abbrev nine : List Command
nine =
    sadd 1
    ∷ sadd 2
    ∷ sadd 3
    ∷ sadd 4
    ∷ sadd 5
    ∷ sadd 6
    ∷ sadd 7
    ∷ sadd 8
    ∷ scard 1
    ∷ sadd 9
    ∷ scard 9
    ∷ accounting_raises 2
    ∷ srem 9
    ∷ end_stream 1
    ∷ scard 3
    ∷ []

commands-le_example :
    streams (commands nine []) ≤ max_connections_per_run + count_if is_failure nine
commands-le_example = commands-le nine [] (omega arith) refl refl

streams-nine : streams (commands nine []) ≡ 2
unfolding commands
streams-nine = refl

-- Eight clients stream for an hour in which no other asks; then a ninth is let in.
abbrev hour : List Command
hour =
    sadd 1
    ∷ scard 1
    ∷ sadd 2
    ∷ scard 2
    ∷ sadd 3
    ∷ scard 3
    ∷ sadd 4
    ∷ scard 4
    ∷ sadd 5
    ∷ scard 5
    ∷ sadd 6
    ∷ scard 6
    ∷ sadd 7
    ∷ scard 7
    ∷ sadd 8
    ∷ scard 8
    ∷ key_expires
    ∷ sadd 9
    ∷ scard 9
    ∷ []

streams-hour : streams (commands hour []) ≡ 9
unfolding commands
streams-hour = refl
