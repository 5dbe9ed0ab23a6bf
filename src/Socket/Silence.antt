-- ===== src/Socket/Silence.antt =====
-- A connection on an idle run, and a client that is silent.
use mathlib.Core.Path.{subst}
use autonomous_agentic_platf.Prelude.{
  ℕ, zero, suc, ◌+◌, ◌-◌, ◌*◌, ◌≤◌, ◌<◌, min, ◌≡◌, refl, sym, ap, ◌∙◌, inl, inr, Bool, true, false,
  some, [], arith, ltb, leb, ltb→lt, Bool-cases,
}
use autonomous_agentic_platf.Socket.{
  Conn, Outside, Cursor, next_cursor, going_away, heartbeat, heartbeat_s, max_missed_pongs,
  send_event, yielded, read_client, after_read, resynced, tail_live,
}
use autonomous_agentic_platf.Socket.Rounds.{resume, round-reply, resynced-same}
use autonomous_agentic_platf.Socket.Filter.{matches_filter}

-- The connection is open, and its filter does not pass a `ping`.
pub record Deaf (c : Conn) : Type 0 where
  pub is_open : c.closed ≡ false
  pub goes_on : c.finished ≡ false
  pub no_resync : c.resync ≡ false
  pub filtered : matches_filter "ping" c.filter ≡ false
  pub missed : c.missed_pongs ≤ max_missed_pongs

-- How far the connection is from its end: a round counts 5 seconds, and a missed pong 30.
abbrev spent : Outside → ℕ → Conn → ℕ
spent w rounds c = 5 * rounds + min 25 (w.now c.calls - c.last_ping) + 30 * c.missed_pongs

-- The server ended the connection, and wrote nothing.
abbrev pub EndsSilently : Conn → Conn → Type 0
EndsSilently before after = (after.close_code ≡ going_away) × (after.frames ≡ before.frames)

module _ (w : Outside)
    (idle : (call count : ℕ) (cursor : Cursor) → w.xread call cursor count ≡ some [])
    (silent : (call : ℕ) → w.inbound call ≡ [])
    (forwards : (call : ℕ) → w.now call ≤ w.now (call + 1))
    (blocks : (call : ℕ) → w.now call + 5 ≤ w.now (call + 1 + 1)) where
  yielded-silent : (c : Conn) → yielded w c ≡ record c { calls = c.calls + 1 }
  unfolding yielded read_client
  yielded-silent c = rw (yielded, silent c.calls) refl

  -- One round is the heartbeat.
  round-silent :
      (rounds : ℕ) (cursor : Cursor) (c : Conn) (r : Bool × Conn)
      → Deaf c
      → heartbeat w (record c { calls = c.calls + 1 }) ≡ r
      → tail_live w (suc rounds) cursor c ≡ resume w rounds cursor r
  unfolding after_read next_cursor
  round-silent rounds cursor c r h e =
      let calm : yielded w (resynced w c) ≡ record c { calls = c.calls + 1 } =
        ap (yielded w) (resynced-same w c h.no_resync) ∙ yielded-silent c in
      round-reply w rounds cursor c [] r h.is_open h.goes_on (idle (resynced w c).calls 200 cursor)
        (ap (heartbeat w) calm ∙ e)

  heartbeat-early :
      (c : Conn)
      → ltb (w.now c.calls - c.last_ping) heartbeat_s ≡ true
      → heartbeat w c ≡ (true, record c { calls = c.calls + 1 })
  unfolding heartbeat
  heartbeat-early c e = rw (heartbeat, e) refl

  heartbeat-dead :
      (c : Conn)
      → ltb (w.now c.calls - c.last_ping) heartbeat_s ≡ false
      → leb max_missed_pongs c.missed_pongs ≡ true
      → heartbeat w c ≡ (false, record c { calls = c.calls + 1; close_code = going_away })
  unfolding heartbeat
  heartbeat-dead c e d = rw (heartbeat, e, d) refl

  heartbeat-alive :
      (c : Conn)
      → ltb (w.now c.calls - c.last_ping) heartbeat_s ≡ false
      → leb max_missed_pongs c.missed_pongs ≡ false
      → matches_filter "ping" c.filter ≡ false
      → heartbeat w c ≡ (
        true,
        record c {
          calls = c.calls + 1;
          missed_pongs = c.missed_pongs + 1;
          last_ping = w.now c.calls;
        },
      )
  unfolding heartbeat send_event
  heartbeat-alive c e d f = rw (heartbeat, e, d, f) refl

  waits :
      (rounds : ℕ) (cursor : Cursor) (c : Conn)
      → Deaf c
      → c.last_ping ≤ w.now c.calls
      → 86 ≤ spent w rounds c
      → EndsSilently c (tail_live w rounds cursor c)
  unfolding tail_live
  waits zero cursor c h pinged left = let missed = h.missed in absurd (omega arith)
  waits (suc rounds) cursor c h pinged left =
      let asked = record c { calls = c.calls + 1 } in
      let now = w.now asked.calls in
      let next = record asked { calls = asked.calls + 1 } in
      let forward = forwards c.calls in
      let further = forwards asked.calls in
      let block = blocks c.calls in
      elim (Bool-cases (ltb (now - c.last_ping) heartbeat_s)) [
        | inl early ↦
            let is_early = ltb→lt _ _ early in
            subst (EndsSilently c)
              (sym (round-silent rounds cursor c _ h (heartbeat-early asked early)))
              (waits rounds cursor next
                (record {
                  is_open = h.is_open;
                  goes_on = h.goes_on;
                  no_resync = h.no_resync;
                  filtered = h.filtered;
                  missed = h.missed;
                })
                (omega arith) (omega arith))
        | inr due ↦ elim (Bool-cases (leb max_missed_pongs c.missed_pongs)) [
          | inl dead ↦
              subst (EndsSilently c)
                (sym (round-silent rounds cursor c _ h (heartbeat-dead asked due dead)))
                (refl, refl)
          | inr alive ↦
              let is_alive : c.missed_pongs < max_missed_pongs = ground arith in
              let pings = record next { missed_pongs = c.missed_pongs + 1; last_ping = now } in
              subst (EndsSilently c)
                (sym
                  (round-silent rounds cursor c _ h (heartbeat-alive asked due alive h.filtered)))
                (waits rounds cursor pings
                  (record {
                    is_open = h.is_open;
                    goes_on = h.goes_on;
                    no_resync = h.no_resync;
                    filtered = h.filtered;
                    missed = omega arith;
                  })
                  (omega arith) (omega arith))
        ]
      ]

  -- On an idle run, an open connection without a pending resync and with at most two missed
  -- pongs, whose client is silent and has a filter that does not pass a ping, is dropped with
  -- GOING_AWAY within 18 reads, without a single ping, or any other frame, having been written to
  -- it. The clock does not go back, and any two calls in a row take at least 5 seconds, as one of
  -- them is the blocking read.
  pub tail_live-EndsSilently :
      (rounds : ℕ)
      → 18 ≤ rounds
      → (cursor : Cursor) (c : Conn) → Deaf c
      → c.last_ping ≤ w.now c.calls
      → EndsSilently c (tail_live w rounds cursor c)
  tail_live-EndsSilently rounds enough cursor c h pinged =
      waits rounds cursor c h pinged (omega arith)
