-- ===== src/Socket/Sent.antt =====
-- What each step of a connection adds to the stored events among its frames.
use autonomous_agentic_platf.Prelude.{
  ℕ, ◌+◌, ◌-◌, String, ◌≡◌, refl, ap, ◌∙◌, ◌⊎◌, inl, inr, Bool, true, false, not, ◌&&◌, Option,
  none, some, List, [], ◌∷◌, ◌++◌, ltb, leb, ◌==◌, Bool-cases, Option-cases, any, append-nil,
}
use autonomous_agentic_platf.Socket.{
  heartbeat_s, max_missed_pongs, close, CloseCode, protocol_error, returned, answer_error,
  StoredEvent, Frame, stored, hello, replay_gap, run_snapshot, replay_complete, ping, error, Conn,
  Outside, ClientMessage, pong, auth, resync, bad_payload, subscribe, cancel, approve, Control,
  cancel_run, approve_gate, reason_text, publish_control, unknown, Inbound, gone, binary, no_text,
  not_json, uncaught, not_object, object, frame_type, ends_run, write, handle_message, read_frame,
  reads, read_client, yielded, send, send_event, send_snapshot, signal_gap, through,
  complete_replay, heartbeat, resynced,
}
use autonomous_agentic_platf.Socket.Filter.{matches_filter}

-- The stored events among the frames.
abbrev pub sent : List Frame → List StoredEvent
sent [] = []
sent (stored event ∷ frames) = event ∷ sent frames
sent (hello last_seq interval ∷ frames) = sent frames
sent (replay_gap requested_after oldest_available ∷ frames) = sent frames
sent (run_snapshot payload ∷ frames) = sent frames
sent (replay_complete through_seq ∷ frames) = sent frames
sent (ping ∷ frames) = sent frames
sent (error code ∷ frames) = sent frames

pub sent-append : (xs ys : List Frame) → sent (xs ++ ys) ≡ sent xs ++ sent ys
sent-append [] ys = refl
sent-append (stored e ∷ xs) ys = ap (λ l. e ∷ l) (sent-append xs ys)
sent-append (hello a b ∷ xs) ys = sent-append xs ys
sent-append (replay_gap a b ∷ xs) ys = sent-append xs ys
sent-append (run_snapshot a ∷ xs) ys = sent-append xs ys
sent-append (replay_complete a ∷ xs) ys = sent-append xs ys
sent-append (ping ∷ xs) ys = sent-append xs ys
sent-append (error a ∷ xs) ys = sent-append xs ys

module _ (w : Outside) where
  -- A frame is written, or the connection has the frames that it had.
  write-sent :
      (frame : Frame) (c : Conn)
      → (sent (write w frame c).1.frames ≡ sent c.frames ++ sent (frame ∷ []))
        ⊎ (sent (write w frame c).1.frames ≡ sent c.frames)
  unfolding write
  write-sent frame c = elim (Bool-cases c.closed) [
    | inl e ↦ rw (write, e) (inr refl)
    | inr e ↦ elim (Bool-cases (w.accepts c.calls)) [
      | inl a ↦ rw (write, e, a) (inl (sent-append c.frames (frame ∷ [])))
      | inr a ↦ rw (write, e, a) (inr refl)
    ]
  ]

  write-quiet :
      (frame : Frame) (c : Conn)
      → sent (frame ∷ []) ≡ []
      → sent (write w frame c).1.frames ≡ sent c.frames
  write-quiet frame c h = elim (write-sent frame c) [
    | inl e ↦ e ∙ ap (λ l. sent c.frames ++ l) h ∙ append-nil (sent c.frames)
    | inr e ↦ e
  ]

  close-sent : (code : CloseCode) (c : Conn) → sent (close w code c).frames ≡ sent c.frames
  close-sent code c = elim (Bool-cases c.closed) [ inl e ↦ rw e refl | inr e ↦ rw e refl ]

  answer-sent : (code : String) (c : Conn) → sent (answer_error w code c).frames ≡ sent c.frames
  unfolding answer_error
  answer-sent code c = elim (Bool-cases (matches_filter "error" c.filter)) [
    | inl e ↦ rw e (write-quiet (error code) c refl)
    | inr e ↦ rw e refl
  ]

  publish_control-sent :
      (message : Control) (c : Conn) → sent (publish_control w message c).frames ≡ sent c.frames
  unfolding publish_control
  publish_control-sent message c = elim (Bool-cases (w.publishes c.calls)) [
    | inl e ↦ rw e refl
    | inr e ↦ rw e refl
  ]

  handle_message-sent :
      (message : ClientMessage) (c : Conn)
      → sent (handle_message w message c).frames ≡ sent c.frames
  unfolding handle_message
  handle_message-sent pong c = refl
  handle_message-sent auth c = refl
  handle_message-sent resync c = refl
  handle_message-sent bad_payload c = refl
  handle_message-sent (subscribe types) c = refl
  handle_message-sent (cancel reason) c = publish_control-sent (cancel_run (reason_text reason)) c
  handle_message-sent (approve gate decision notes) c =
      publish_control-sent (approve_gate gate decision notes) c
  handle_message-sent unknown c = answer-sent "unknown_message_type" c

  read_frame-sent :
      (inbound : Inbound) (c : Conn) → sent (read_frame w inbound c).frames ≡ sent c.frames
  unfolding read_frame
  read_frame-sent gone c = refl
  read_frame-sent binary c =
      close-sent protocol_error (record c { close_code = protocol_error; reader = returned })
  read_frame-sent no_text c = refl
  read_frame-sent not_json c =
      close-sent protocol_error (record c { close_code = protocol_error; reader = returned })
  read_frame-sent uncaught c = refl
  read_frame-sent not_object c = answer-sent "malformed_message" c
  read_frame-sent (object message) c = handle_message-sent message c

  read_client-sent :
      (inbound : List Inbound) (c : Conn) → sent (read_client w inbound c).frames ≡ sent c.frames
  unfolding read_client
  read_client-sent [] c = refl
  read_client-sent (one ∷ more) c = elim (Bool-cases (reads w c)) [
    | inl e ↦
        rw (read_client, e) (read_client-sent more (read_frame w one c) ∙ read_frame-sent one c)
    | inr e ↦ rw (read_client, e) (read_client-sent more c)
  ]

  pub yielded-sent : (c : Conn) → sent (yielded w c).frames ≡ sent c.frames
  unfolding yielded
  yielded-sent c = read_client-sent (w.inbound c.calls) (record c { calls = c.calls + 1 })

  pub send_event-sent :
      (frame : Frame) (c : Conn)
      → (sent (send_event w frame c).1.frames ≡ sent c.frames ++ sent (frame ∷ []))
        ⊎ (sent (send_event w frame c).1.frames ≡ sent c.frames)
  unfolding send_event send
  send_event-sent frame c = elim (Bool-cases (matches_filter (frame_type frame) c.filter)) [
    | inl e ↦ rw e (elim (write-sent frame c) [
      | inl done ↦ inl (yielded-sent (write w frame c).1 ∙ done)
      | inr refused ↦ inr (yielded-sent (write w frame c).1 ∙ refused)
    ])
    | inr e ↦ rw e (inr refl)
  ]

  pub send_event-quiet :
      (frame : Frame) (c : Conn)
      → sent (frame ∷ []) ≡ []
      → sent (send_event w frame c).1.frames ≡ sent c.frames
  send_event-quiet frame c h = elim (send_event-sent frame c) [
    | inl e ↦ e ∙ ap (λ l. sent c.frames ++ l) h ∙ append-nil (sent c.frames)
    | inr e ↦ e
  ]

  send_snapshot-sent : (c : Conn) → sent (send_snapshot w c).frames ≡ sent c.frames
  unfolding send_snapshot
  send_snapshot-sent c = elim (Option-cases (w.snapshot c.calls)) [
    | inl e ↦
        rw (send_snapshot, e)
          (send_event-quiet (error "snapshot_failed") (yielded w c) refl ∙ yielded-sent c)
    | inr (payload, e) ↦
        rw (send_snapshot, e)
          (send_event-quiet (run_snapshot payload) (yielded w c) refl ∙ yielded-sent c)
  ]

  pub signal_gap-sent :
      (after_seq : ℕ) (oldest : Option ℕ) (c : Conn)
      → sent (signal_gap w after_seq oldest c).frames ≡ sent c.frames
  unfolding signal_gap
  signal_gap-sent after_seq none c = refl
  signal_gap-sent after_seq (some oldest) c =
      elim (Bool-cases (not (after_seq == 0) && ltb (after_seq + 1) oldest)) [
        | inl e ↦ rw e (
            send_snapshot-sent (send_event w (replay_gap after_seq oldest) c).1
            ∙ send_event-quiet (replay_gap after_seq oldest) c refl)
        | inr e ↦ rw e refl
      ]

  pub heartbeat-sent : (c : Conn) → sent (heartbeat w c).1.frames ≡ sent c.frames
  unfolding heartbeat
  heartbeat-sent c =
      let now = w.now c.calls in
      elim (Bool-cases (ltb (now - c.last_ping) heartbeat_s)) [
        | inl e ↦ rw e refl
        | inr e ↦ elim (Bool-cases (leb max_missed_pongs c.missed_pongs)) [
          | inl m ↦ rw (e, m) refl
          | inr m ↦ rw (e, m) (send_event-quiet ping _ refl)
        ]
      ]

  pub resynced-sent : (c : Conn) → sent (resynced w c).frames ≡ sent c.frames
  unfolding resynced
  resynced-sent c = elim (Bool-cases c.resync) [
    | inl e ↦ rw e (send_snapshot-sent (record c { resync = false }))
    | inr e ↦ rw e refl
  ]

  pub complete_replay-sent :
      (after_seq : ℕ) (events : List StoredEvent) (r : Bool × Conn)
      → sent (complete_replay w after_seq events r).frames ≡ sent r.1.frames
  unfolding complete_replay
  complete_replay-sent after_seq events (false, c) = refl
  complete_replay-sent after_seq events (true, c) = elim (Bool-cases (any ends_run events)) [
    | inl e ↦ rw e (send_event-quiet (replay_complete (through w after_seq events)) c refl)
    | inr e ↦ rw e (send_event-quiet (replay_complete (through w after_seq events)) c refl)
  ]
