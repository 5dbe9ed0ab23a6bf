-- ===== src/Socket/Session/Cleanup.antt =====
-- What a session leaves behind: `_open_connections`, the slot and the socket.
use autonomous_agentic_platf.Prelude.{
  ℕ, ◌+◌, String, ◌≡◌, refl, sym, ap, ◌∙◌, inl, inr, Bool, true, false, ◌&&◌, some, List, [], ◌∷◌,
  ◌++◌, arith, Bool-cases, Option-cases, All,
}
use mathlib.Core.Path.{subst}
use autonomous_agentic_platf.Socket.{
  Conn, Outside, Reader, running, returned, raised, Inbound, gone, binary, no_text, not_json,
  uncaught, not_object, object, pong, auth, resync, bad_payload, subscribe, cancel, approve,
  publish_control, unknown, hello, heartbeat_s, write, close, reads, answer_error, CloseCode,
  unauthenticated, not_found, quota_exceeded, protocol_error, handle_message, read_frame,
  read_client, yielded, pump, error,
}
use autonomous_agentic_platf.Socket.Filter.{matches_filter}
use autonomous_agentic_platf.Socket.Session.{
  Request, Outcome, admitted, session, clean_up, run_stream,
}
use autonomous_agentic_platf.Socket.Session.Reading.{pump-keeps, pump-keeps_from, write-keeps}

-- The reader did not raise.
abbrev Sound : Reader → Type 0
Sound running = Unit
Sound returned = Unit
Sound raised = ⊥

-- A turn of the reader at which every exception is caught, and the payload is an object, where
-- one is read.
abbrev pub is_proper : Inbound → Bool
is_proper uncaught = false
is_proper (object bad_payload) = false
is_proper _ = true

-- The server counts what it counted before, has given back the slot if it had taken it and the
-- SREM for it works, and has closed the socket.
abbrev pub CleansUp : Request → ℕ → Outcome → Type 0
CleansUp r open_connections o =
    (o.open_connections ≡ open_connections)
    × (o.slot_released ≡ (admitted r && r.srem_works))
    × (o.conn.closed ≡ true)

-- The connection is counted for good, and keeps its slot.
abbrev pub Leaks : ℕ → Outcome → Type 0
Leaks open_connections o = (o.open_connections ≡ open_connections + 1) × (o.slot_released ≡ false)

module _ (w : Outside) where
  close-closed : (code : CloseCode) (c : Conn) → (close w code c).closed ≡ true
  close-closed code c = elim (Bool-cases c.closed) [ inl e ↦ rw e refl | inr e ↦ rw e refl ]

  close-reader :
      (P : Reader → Type 0) (code : CloseCode) (c : Conn) → P c.reader → P (close w code c).reader
  close-reader P code c h = elim (Bool-cases c.closed) [ inl e ↦ rw e h | inr e ↦ rw e h ]

  answer-reader :
      (P : Reader → Type 0) (code : String) (c : Conn)
      → P c.reader
      → P (answer_error w code c).reader
  unfolding answer_error
  answer-reader P code c h = elim (Bool-cases (matches_filter "error" c.filter)) [
    | inl e ↦ rw e (write-keeps w P (error code) c h)
    | inr e ↦ rw e h
  ]

  clean_up-by :
      (srem_works : Bool) (open_connections : ℕ) (c : Conn) (reader : Reader)
      → c.reader ≡ reader
      → Sound reader
      → ((clean_up w srem_works (open_connections + 1) c).open_connections ≡ open_connections)
        × ((clean_up w srem_works (open_connections + 1) c).slot_released ≡ srem_works)
        × ((clean_up w srem_works (open_connections + 1) c).conn.closed ≡ true)
  unfolding clean_up
  clean_up-by srem_works open_connections c running e h =
      rw (clean_up, e) (omega arith, refl, close-closed c.close_code c)
  clean_up-by srem_works open_connections c returned e h =
      rw (clean_up, e) (omega arith, refl, close-closed c.close_code c)
  clean_up-by srem_works open_connections c raised e h = absurd h

  clean_up-Sound :
      (srem_works : Bool) (open_connections : ℕ) (c : Conn)
      → Sound c.reader
      → ((clean_up w srem_works (open_connections + 1) c).open_connections ≡ open_connections)
        × ((clean_up w srem_works (open_connections + 1) c).slot_released ≡ srem_works)
        × ((clean_up w srem_works (open_connections + 1) c).conn.closed ≡ true)
  clean_up-Sound srem_works open_connections c h =
      clean_up-by srem_works open_connections c c.reader refl h

  module _ (publishes : (call : ℕ) → w.publishes call ≡ true) where
    read_frame-Sound :
        (inbound : Inbound) (c : Conn)
        → is_proper inbound ≡ true
        → Sound c.reader
        → Sound (read_frame w inbound c).reader
    unfolding read_frame handle_message publish_control
    read_frame-Sound gone c proper h = tt
    read_frame-Sound binary c proper h =
        close-reader Sound protocol_error
          (record c { close_code = protocol_error; reader = returned }) tt
    read_frame-Sound no_text c proper h = h
    read_frame-Sound not_json c proper h =
        close-reader Sound protocol_error
          (record c { close_code = protocol_error; reader = returned }) tt
    read_frame-Sound uncaught c proper h = absurd (cc)
    read_frame-Sound not_object c proper h = answer-reader Sound "malformed_message" c h
    read_frame-Sound (object pong) c proper h = h
    read_frame-Sound (object auth) c proper h = h
    read_frame-Sound (object resync) c proper h = h
    read_frame-Sound (object bad_payload) c proper h = absurd (cc)
    read_frame-Sound (object (subscribe types)) c proper h = h
    read_frame-Sound (object (cancel reason)) c proper h = rw (publishes c.calls) h
    read_frame-Sound (object (approve gate decision notes)) c proper h = rw (publishes c.calls) h
    read_frame-Sound (object unknown) c proper h = answer-reader Sound "unknown_message_type" c h

    read_client-Sound :
        (inbound : List Inbound) (c : Conn)
        → All (λ i. is_proper i ≡ true) inbound
        → Sound c.reader
        → Sound (read_client w inbound c).reader
    unfolding read_client
    read_client-Sound [] c proper h = h
    read_client-Sound (i ∷ more) c proper h = elim (Bool-cases (reads w c)) [
      | inl e ↦
          rw (read_client, e)
            (read_client-Sound more (read_frame w i c) proper.1 (read_frame-Sound i c proper.0 h))
      | inr e ↦ rw (read_client, e) (read_client-Sound more c proper.1 h)
    ]

    module _ (proper : (call : ℕ) → All (λ i. is_proper i ≡ true) (w.inbound call)) where
      session-Sound :
          (rounds : ℕ) (r : Request) (c : Conn)
          → Sound c.reader
          → Sound (session w rounds r c).reader
      unfolding session
      session-Sound rounds r c h = elim (Option-cases r.last_seq) [
        | inl e ↦ rw (session, e) h
        | inr (last_seq, e) ↦
            rw (session, e)
              (pump-keeps w Sound (λ call c h. read_client-Sound (w.inbound call) c (proper call) h)
                rounds r.after_seq (write w (hello last_seq heartbeat_s) c).1
                (write-keeps w Sound (hello last_seq heartbeat_s) c h))
      ]

      -- Where the reader catches every exception of receiving and parsing a text, no payload of a
      -- message is misshapen and every publish of a control message succeeds, a connection whose
      -- reader has not stopped leaves behind the count of connections that it found, has given
      -- back its slot exactly if it was admitted and the SREM for it succeeds, and is closed,
      -- however the session goes, also if it is cancelled between two rounds of its tail.
      pub run_stream-CleansUp :
          (rounds : ℕ) (r : Request) (open_connections : ℕ) (c : Conn)
          → c.reader ≡ running
          → CleansUp r open_connections (run_stream w rounds r open_connections c)
      unfolding run_stream
      run_stream-CleansUp rounds r open_connections c start = elim (Bool-cases r.authenticated) [
        | inr fails ↦ rw (run_stream, fails) (refl, refl, close-closed unauthenticated c)
        | inl known ↦ elim (Bool-cases r.run_exists) [
          | inr fails ↦ rw (run_stream, known, fails) (refl, refl, close-closed not_found c)
          | inl exists ↦ elim (Bool-cases r.slot_claimed) [
            | inr fails ↦
                rw (run_stream, known, exists, fails) (refl, refl, close-closed quota_exceeded c)
            | inl claimed ↦
                rw (run_stream, known, exists, claimed)
                  (clean_up-Sound r.srem_works open_connections (session w rounds r c)
                    (session-Sound rounds r c (subst Sound (sym start) tt)))
          ]
        ]
      ]

  reads-raised : (c : Conn) → c.reader ≡ raised → reads w c ≡ false
  reads-raised c h = elim (Bool-cases c.closed) [ inl e ↦ rw e refl | inr e ↦ rw (e, h) refl ]

  -- A reader that has raised reads no more.
  read_client-raised :
      (inbound : List Inbound) (c : Conn)
      → c.reader ≡ raised
      → (read_client w inbound c).reader ≡ raised
  unfolding read_client
  read_client-raised [] c h = h
  read_client-raised (i ∷ more) c h =
      rw (read_client, reads-raised c h) (read_client-raised more c h)

  reads-running : (c : Conn) → c.closed ≡ false → c.reader ≡ running → reads w c ≡ true
  reads-running c is_open h = rw (is_open, h) refl

  session-raised :
      (rounds : ℕ) (r : Request) (last_seq : ℕ) (c : Conn) (more : List Inbound)
      → r.last_seq ≡ some last_seq
      → c.closed ≡ false
      → c.reader ≡ running
      → w.accepts c.calls ≡ true
      → w.inbound (c.calls + 1) ≡ object bad_payload ∷ more
      → (session w rounds r c).reader ≡ raised
  unfolding session write yielded read_client read_frame handle_message
  session-raised rounds r last_seq c more has is_open start accepted came =
      let c1 = record c {
        calls = c.calls + 1;
        frames = c.frames ++ hello last_seq heartbeat_s ∷ [];
      } in
      let greeted : (write w (hello last_seq heartbeat_s) c).1 ≡ c1 =
        rw (write, is_open, accepted) refl in
      let first : (yielded w c1).reader ≡ raised =
        rw (yielded, came, read_client, reads-running c1 is_open start)
          (read_client-raised more _ refl) in
      rw (session, has)
        (ap (λ x. (pump w rounds r.after_seq x).reader) greeted
          ∙ pump-keeps_from w (λ x. x ≡ raised)
              (λ call c h. read_client-raised (w.inbound call) c h) rounds r.after_seq c1 first)

  -- If an admitted client accepts hello and its first message is there at the first await and is
  -- a subscribe, cancel or approve whose payload is no object, then however the session goes on,
  -- the count of connections stays one too high and the slot is not given back.
  pub run_stream-Leaks :
      (rounds : ℕ) (r : Request) (last_seq open_connections : ℕ) (c : Conn) (more : List Inbound)
      → r.authenticated ≡ true
      → r.run_exists ≡ true
      → r.slot_claimed ≡ true
      → r.last_seq ≡ some last_seq
      → c.closed ≡ false
      → c.reader ≡ running
      → w.accepts c.calls ≡ true
      → w.inbound (c.calls + 1) ≡ object bad_payload ∷ more
      → Leaks open_connections (run_stream w rounds r open_connections c)
  unfolding run_stream clean_up
  run_stream-Leaks rounds r last_seq open_connections c more known exists claimed has is_open start
        accepted came =
      rw
        (
          run_stream,
          known,
          exists,
          claimed,
          clean_up,
          session-raised rounds r last_seq c more has is_open start accepted came,
        )
        (refl, refl)
