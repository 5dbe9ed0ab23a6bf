-- ===== src/Socket/Delivery.antt =====
-- What a socket that stays up is sent: the backlog and the live events that its filter passes, up
-- to the end of the run.
use autonomous_agentic_platf.Prelude.{
  ℕ, suc, ◌+◌, String, ◌≡◌, refl, sym, ap, ◌∙◌, inl, inr, Bool, true, false, not, ◌&&◌, ◌||◌,
  Option, none, some, List, [], ◌∷◌, ◌++◌, ltb, ◌==◌, if◌then◌else◌, Bool-cases, Option-cases,
  length, any, joined, append_assoc, append-nil,
}
use mathlib.Core.Path.{subst}
use autonomous_agentic_platf.Socket.{
  StoredEvent, error, Conn, Outside, Cursor, behind, ends_run, replay_gap, run_snapshot,
  replay_complete, backlog_events, last_id, next_cursor, oldest_seq, through, send_snapshot,
  yielded, forward_all, signal_gap, complete_replay, replay, forward_live, after_read, resynced,
  tail_live, pump,
}
use autonomous_agentic_platf.Socket.Rounds.{
  resume, round-reply, resynced-same, resume-stops, resume-goes,
}
use autonomous_agentic_platf.Socket.Filter.{matches_filter}
use autonomous_agentic_platf.Socket.Sent.{yielded-sent, signal_gap-sent, complete_replay-sent, sent}
use autonomous_agentic_platf.Socket.Due.{
  until_terminal, until_terminal-append, passed, due_events, Serves, Up, select-append, or-second,
}
use autonomous_agentic_platf.Socket.Up.{
  yielded-Up, send_event-Up, forward_all-Adds, forward_live-Adds, forward_live-stops,
}

module _ (w : Outside) (filter : Option (List String))
    (accepts : (call : ℕ) → w.accepts call ≡ true) (silent : (call : ℕ) → w.inbound call ≡ []) where
  -- The chunks of the reads are one list of events.
  tail_live-delivers :
      (chunks : List (List StoredEvent)) (cursor : Cursor) (c : Conn)
      → Up filter c
      → Serves w chunks cursor
      → sent (tail_live w (length chunks) cursor c).frames
        ≡ sent c.frames ++ passed filter (until_terminal (joined chunks))
  unfolding tail_live
  tail_live-delivers [] cursor c h serves = sym (append-nil (sent c.frames))
  tail_live-delivers ([] ∷ chunks) cursor c h serves = absurd (cc)
  tail_live-delivers ((e ∷ es) ∷ chunks) cursor c h (gives, filled, serves) =
      let chunk = e ∷ es in
      let later = next_cursor cursor chunk in
      let asked = record c { calls = c.calls + 1 } in
      let calm : yielded w (resynced w c) ≡ asked =
        ap (yielded w) (resynced-same w c h.no_resync) ∙ yielded-Up w filter accepts silent c in
      let up : Up filter asked = record {
        is_open = h.is_open;
        goes_on = h.goes_on;
        no_resync = h.no_resync;
        filters = h.filters;
      } in
      let reply = forward_live w chunk asked in
      let first : tail_live w (suc (length chunks)) cursor c
          ≡ resume w (length chunks) later reply =
        round-reply w (length chunks) cursor c chunk reply h.is_open h.goes_on
          (gives (resynced w c).calls) (ap (after_read w chunk) calm) in
      let split = until_terminal-append chunk (joined chunks) in
      elim (Bool-cases (any ends_run chunk)) [
        | inl ends ↦
            let (stops, all_sent) =
              forward_live-stops w filter accepts silent chunk asked up ends in
            ap (λ x. sent x.frames) (first ∙ resume-stops w (length chunks) later reply stops)
            ∙ all_sent
            ∙ ap (λ l. sent c.frames ++ passed filter l)
                (sym (
                  split
                  ∙ ap
                      (λ b.
                        if b then until_terminal chunk else chunk ++ until_terminal (joined chunks))
                      ends))
        | inr goes ↦
            let step = forward_live-Adds w filter accepts silent chunk asked up goes in
            let rest = until_terminal (joined chunks) in
            ap (λ x. sent x.frames) (first ∙ resume-goes w (length chunks) later reply step.on)
            ∙ tail_live-delivers chunks later reply.1 step.up serves
            ∙ ap (λ l. l ++ passed filter rest) step.added
            ∙ append_assoc (sent c.frames) (passed filter chunk) (passed filter rest)
            ∙ ap (λ l. sent c.frames ++ l)
                (sym (select-append (λ e. matches_filter e.type filter) chunk rest))
            ∙ ap (λ l. sent c.frames ++ passed filter l)
                (sym (
                  split
                  ∙ ap
                      (λ b.
                        if b then until_terminal chunk else chunk ++ until_terminal (joined chunks))
                      goes))
      ]

  send_snapshot-Up : (c : Conn) → Up filter c → Up filter (send_snapshot w c)
  unfolding send_snapshot
  send_snapshot-Up c h =
      let asked : Up filter (yielded w c) =
        subst (Up filter) (sym (yielded-Up w filter accepts silent c)) (record {
          is_open = h.is_open;
          goes_on = h.goes_on;
          no_resync = h.no_resync;
          filters = h.filters;
        }) in
      elim (Option-cases (w.snapshot c.calls)) [
        | inl e ↦
            rw (send_snapshot, e)
              (send_event-Up w filter accepts silent (error "snapshot_failed") (yielded w c) asked)
        | inr (payload, e) ↦
            rw (send_snapshot, e)
              (send_event-Up w filter accepts silent (run_snapshot payload) (yielded w c) asked)
      ]

  signal_gap-Up :
      (after_seq : ℕ) (oldest : Option ℕ) (c : Conn)
      → Up filter c
      → Up filter (signal_gap w after_seq oldest c)
  unfolding signal_gap
  signal_gap-Up after_seq none c h = h
  signal_gap-Up after_seq (some oldest) c h =
      elim (Bool-cases (not (after_seq == 0) && ltb (after_seq + 1) oldest)) [
        | inl e ↦ rw e (
            send_snapshot-Up _
              (send_event-Up w filter accepts silent (replay_gap after_seq oldest) c h))
        | inr e ↦ rw e h
      ]

  -- The end of a replay whose events were all sent.
  complete_replay-ends :
      (after_seq : ℕ) (events : List StoredEvent) (r : Bool × Conn)
      → r.0 ≡ true
      → any ends_run events ≡ true
      → (complete_replay w after_seq events r).finished ≡ true
  unfolding complete_replay
  complete_replay-ends after_seq events (true, c) on ends = rw ends refl
  complete_replay-ends after_seq events (false, c) on ends = absurd (cc)

  complete_replay-Up :
      (after_seq : ℕ) (events : List StoredEvent) (r : Bool × Conn)
      → r.0 ≡ true
      → Up filter r.1
      → any ends_run events ≡ false
      → Up filter (complete_replay w after_seq events r)
  unfolding complete_replay
  complete_replay-Up after_seq events (true, c) on h goes =
      rw goes
        (send_event-Up w filter accepts silent (replay_complete (through w after_seq events)) c h)
  complete_replay-Up after_seq events (false, c) on h goes = absurd (cc)

  -- `_pump`, by what the replay gives.
  pump-over :
      (rounds after_seq : ℕ) (c : Conn) (cursor : Cursor) (next : Conn)
      → replay w after_seq c ≡ (cursor, next)
      → (next.closed || next.finished) ≡ true
      → pump w rounds after_seq c ≡ next
  unfolding pump
  pump-over rounds after_seq c cursor next e over = rw (pump, e, over) (ap (λ r. r.1) e)

  pump-goes :
      (rounds after_seq : ℕ) (c : Conn) (cursor : Cursor) (next : Conn)
      → replay w after_seq c ≡ (cursor, next)
      → (next.closed || next.finished) ≡ false
      → pump w rounds after_seq c
        ≡ tail_live w rounds cursor
            (record next { last_ping = w.now next.calls; calls = next.calls + 1 })
  unfolding pump
  pump-goes rounds after_seq c cursor next e goes =
      rw (pump, e, goes)
        (ap
          (λ r.
            tail_live w rounds r.0
              (record r.1 { last_ping = w.now r.1.calls; calls = r.1.calls + 1 }))
          e)

  -- A connection that is up and has been sent no event, whose client sends nothing, whose writes
  -- are all accepted, whose backlog is read and whose reads give chunks that are not empty, is
  -- sent exactly the events that its filter passes: those of the backlog behind its cursor and,
  -- unless one of them is terminal, those of the chunks up to the first that is, in their order.
  pub pump-delivers :
      (entries : List StoredEvent) (chunks : List (List StoredEvent)) (after_seq : ℕ) (c : Conn)
      → Up filter c
      → sent c.frames ≡ []
      → w.xrange c.calls 5000 ≡ some entries
      → Serves w chunks (behind (last_id 0 entries))
      → sent (pump w (length chunks) after_seq c).frames
        ≡ passed filter (due_events (backlog_events after_seq entries) (joined chunks))
  unfolding pump replay
  pump-delivers entries chunks after_seq c h none_yet got serves =
      let events = backlog_events after_seq entries in
      let cursor = behind (last_id 0 entries) in
      let live = joined chunks in
      let asked : Up filter (yielded w c) =
        subst (Up filter) (sym (yielded-Up w filter accepts silent c)) (record {
          is_open = h.is_open;
          goes_on = h.goes_on;
          no_resync = h.no_resync;
          filters = h.filters;
        }) in
      let c1 = signal_gap w after_seq (oldest_seq entries) (yielded w c) in
      let up = signal_gap-Up after_seq (oldest_seq entries) (yielded w c) asked in
      let still_none : sent c1.frames ≡ [] =
        signal_gap-sent w after_seq (oldest_seq entries) (yielded w c)
        ∙ yielded-sent w c
        ∙ none_yet in
      let step = forward_all-Adds w filter accepts silent events c1 up in
      let c2 = complete_replay w after_seq events (forward_all w events c1) in
      let replayed : sent c2.frames ≡ passed filter events =
        complete_replay-sent w after_seq events (forward_all w events c1)
        ∙ step.added
        ∙ ap (λ l. l ++ passed filter events) still_none in
      let is_replay : replay w after_seq c ≡ (cursor, c2) = rw (replay, got) refl in
      elim (Bool-cases (any ends_run events)) [
        | inl ends ↦
            let finished =
              complete_replay-ends after_seq events (forward_all w events c1) step.on ends in
            ap (λ x. sent x.frames)
              (pump-over (length chunks) after_seq c cursor c2 is_replay
                (or-second c2.closed c2.finished finished))
            ∙ replayed
            ∙ ap (λ b. passed filter (if b then events else events ++ until_terminal live))
                (sym ends)
        | inr goes ↦
            let up2 =
              complete_replay-Up after_seq events (forward_all w events c1) step.on step.up goes in
            let pinged : Up filter
                (record c2 { last_ping = w.now c2.calls; calls = c2.calls + 1 }) =
              record {
                is_open = up2.is_open;
                goes_on = up2.goes_on;
                no_resync = up2.no_resync;
                filters = up2.filters;
              } in
            ap (λ x. sent x.frames)
              (pump-goes (length chunks) after_seq c cursor c2 is_replay
                (rw (up2.is_open, up2.goes_on) refl))
            ∙ tail_live-delivers chunks cursor _ pinged serves
            ∙ ap (λ l. l ++ passed filter (until_terminal live)) replayed
            ∙ sym (select-append (λ e. matches_filter e.type filter) events (until_terminal live))
            ∙ ap (λ b. passed filter (if b then events else events ++ until_terminal live))
                (sym goes)
      ]
