-- ===== src/Socket/Session/Reading.antt =====
-- Only the reader task ends itself: what the frames of the client keep of its state, every step of
-- the connection keeps.
use autonomous_agentic_platf.Prelude.{
  ℕ, zero, suc, ◌+◌, ◌-◌, inl, inr, Bool, true, false, not, ◌&&◌, ◌||◌, Option, none, some, List,
  [], ◌∷◌, ltb, leb, ◌==◌, Bool-cases, Option-cases, any,
}
use autonomous_agentic_platf.Socket.{
  Conn, Outside, Reader, StoredEvent, Frame, stored, replay_gap, replay_complete, run_snapshot,
  error, ping, Cursor, ends_run, frame_type, backlog_events, next_cursor, oldest_seq, through,
  heartbeat_s, max_missed_pongs, write, read_client, yielded, send, send_event, send_snapshot,
  forward_all, signal_gap, complete_replay, replay, heartbeat, forward_live, after_read, resynced,
  tail_live, pump,
}
use autonomous_agentic_platf.Socket.Filter.{matches_filter}

module _ (w : Outside) (P : Reader → Type 0) where
  pub write-keeps : (frame : Frame) (c : Conn) → P c.reader → P (write w frame c).1.reader
  unfolding write
  write-keeps frame c h = elim (Bool-cases c.closed) [
    | inl e ↦ rw (write, e) h
    | inr e ↦ elim (Bool-cases (w.accepts c.calls)) [
      | inl a ↦ rw (write, e, a) h
      | inr a ↦ rw (write, e, a) h
    ]
  ]

module _ (w : Outside) (P : Reader → Type 0)
    (reading : (call : ℕ) (c : Conn)
      → P c.reader
      → P (read_client w (w.inbound call) c).reader) where
  yielded-keeps : (c : Conn) → P c.reader → P (yielded w c).reader
  unfolding yielded
  yielded-keeps c h = reading c.calls (record c { calls = c.calls + 1 }) h

  send_event-keeps : (frame : Frame) (c : Conn) → P c.reader → P (send_event w frame c).1.reader
  unfolding send_event send
  send_event-keeps frame c h = elim (Bool-cases (matches_filter (frame_type frame) c.filter)) [
    | inl e ↦ rw (send_event, e) (yielded-keeps (write w frame c).1 (write-keeps w P frame c h))
    | inr e ↦ rw (send_event, e) h
  ]

  send_snapshot-keeps : (c : Conn) → P c.reader → P (send_snapshot w c).reader
  unfolding send_snapshot
  send_snapshot-keeps c h = elim (Option-cases (w.snapshot c.calls)) [
    | inl e ↦
        rw (send_snapshot, e)
          (send_event-keeps (error "snapshot_failed") (yielded w c) (yielded-keeps c h))
    | inr (payload, e) ↦
        rw (send_snapshot, e)
          (send_event-keeps (run_snapshot payload) (yielded w c) (yielded-keeps c h))
  ]

  forward_all-keeps :
      (es : List StoredEvent) (c : Conn) → P c.reader → P (forward_all w es c).1.reader
  unfolding forward_all
  forward_all-keeps [] c h = h
  forward_all-keeps (e ∷ es) c h =
      let next = send_event-keeps (stored e) c h in
      elim (Bool-cases (send_event w (stored e) c).0) [
        | inl s ↦ rw (forward_all, s) (forward_all-keeps es _ next)
        | inr s ↦ rw (forward_all, s) next
      ]

  signal_gap-keeps :
      (after_seq : ℕ) (oldest : Option ℕ) (c : Conn)
      → P c.reader
      → P (signal_gap w after_seq oldest c).reader
  unfolding signal_gap
  signal_gap-keeps after_seq none c h = h
  signal_gap-keeps after_seq (some oldest) c h =
      elim (Bool-cases (not (after_seq == 0) && ltb (after_seq + 1) oldest)) [
        | inl e ↦ rw e (send_snapshot-keeps _ (send_event-keeps (replay_gap after_seq oldest) c h))
        | inr e ↦ rw e h
      ]

  complete_replay-keeps :
      (after_seq : ℕ) (events : List StoredEvent) (r : Bool × Conn)
      → P r.1.reader
      → P (complete_replay w after_seq events r).reader
  unfolding complete_replay
  complete_replay-keeps after_seq events (false, c) h = h
  complete_replay-keeps after_seq events (true, c) h =
      let next = send_event-keeps (replay_complete (through w after_seq events)) c h in
      elim (Bool-cases (any ends_run events)) [ inl e ↦ rw e next | inr e ↦ rw e next ]

  -- `_replay` starts with an await.
  replay-keeps :
      (after_seq : ℕ) (c : Conn) → P (yielded w c).reader → P (replay w after_seq c).1.reader
  unfolding replay
  replay-keeps after_seq c h = elim (Option-cases (w.xrange c.calls 5000)) [
    | inl e ↦ rw (replay, e) (send_event-keeps (error "replay_failed") (yielded w c) h)
    | inr (entries, e) ↦
        rw (replay, e)
          (complete_replay-keeps after_seq (backlog_events after_seq entries) _ (
            forward_all-keeps (backlog_events after_seq entries) _
              (signal_gap-keeps after_seq (oldest_seq entries) _ h)))
  ]

  heartbeat-keeps : (c : Conn) → P c.reader → P (heartbeat w c).1.reader
  unfolding heartbeat
  heartbeat-keeps c h = elim (Bool-cases (ltb (w.now c.calls - c.last_ping) heartbeat_s)) [
    | inl e ↦ rw (heartbeat, e) h
    | inr e ↦ elim (Bool-cases (leb max_missed_pongs c.missed_pongs)) [
      | inl m ↦ rw (heartbeat, e, m) h
      | inr m ↦ rw (heartbeat, e, m) (send_event-keeps ping _ h)
    ]
  ]

  forward_live-keeps :
      (es : List StoredEvent) (c : Conn) → P c.reader → P (forward_live w es c).1.reader
  unfolding forward_live
  forward_live-keeps [] c h = h
  forward_live-keeps (e ∷ es) c h =
      let next = send_event-keeps (stored e) c h in
      elim (Bool-cases (send_event w (stored e) c).0) [
        | inl s ↦ elim (Bool-cases (ends_run e)) [
          | inl t ↦ rw (forward_live, s, t) (send_event-keeps (replay_complete e.seq) _ next)
          | inr t ↦ rw (forward_live, s, t) (forward_live-keeps es _ next)
        ]
        | inr s ↦ rw (forward_live, s) next
      ]

  after_read-keeps :
      (es : List StoredEvent) (c : Conn) → P c.reader → P (after_read w es c).1.reader
  unfolding after_read
  after_read-keeps [] c h = heartbeat-keeps c h
  after_read-keeps (e ∷ es) c h = forward_live-keeps (e ∷ es) c h

  resynced-keeps : (c : Conn) → P c.reader → P (resynced w c).reader
  unfolding resynced
  resynced-keeps c h = elim (Bool-cases c.resync) [
    | inl e ↦ rw (resynced, e) (send_snapshot-keeps (record c { resync = false }) h)
    | inr e ↦ rw (resynced, e) h
  ]

  tail_live-keeps :
      (rounds : ℕ) (cursor : Cursor) (c : Conn)
      → P c.reader
      → P (tail_live w rounds cursor c).reader
  unfolding tail_live
  tail_live-keeps zero cursor c h = h
  tail_live-keeps (suc rounds) cursor c h = elim (Bool-cases (c.closed || c.finished)) [
    | inl over ↦ rw (tail_live, over) h
    | inr live ↦
        let c1 = resynced w c in
        let h1 = yielded-keeps c1 (resynced-keeps c h) in
        elim (Option-cases (w.xread c1.calls cursor 200)) [
          | inl failed ↦
              rw (tail_live, live, failed)
                (tail_live-keeps rounds cursor _ (yielded-keeps (yielded w c1) h1))
          | inr (events, got) ↦
              let next = after_read-keeps events (yielded w c1) h1 in
              elim (Bool-cases (after_read w events (yielded w c1)).0) [
                | inl on ↦
                    rw (tail_live, live, got, on)
                      (tail_live-keeps rounds (next_cursor cursor events) _ next)
                | inr off ↦ rw (tail_live, live, got, off) next
              ]
        ]
  ]

  -- What holds at the first await and the frames of the client keep, the whole of `_pump` keeps.
  pub pump-keeps_from :
      (rounds after_seq : ℕ) (c : Conn)
      → P (yielded w c).reader
      → P (pump w rounds after_seq c).reader
  unfolding pump
  pump-keeps_from rounds after_seq c h =
      let c1 = (replay w after_seq c).1 in
      let replayed = replay-keeps after_seq c h in
      elim (Bool-cases (c1.closed || c1.finished)) [
        | inl over ↦ rw (pump, over) replayed
        | inr live ↦ rw (pump, live) (tail_live-keeps rounds (replay w after_seq c).0 _ replayed)
      ]

  pub pump-keeps :
      (rounds after_seq : ℕ) (c : Conn) → P c.reader → P (pump w rounds after_seq c).reader
  pump-keeps rounds after_seq c h = pump-keeps_from rounds after_seq c (yielded-keeps c h)
