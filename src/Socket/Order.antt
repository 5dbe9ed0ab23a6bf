-- ===== src/Socket/Order.antt =====
-- The events that a socket is sent are in order, and none is sent twice.
use mathlib.Core.Path.{subst}
use autonomous_agentic_platf.Prelude.{
  ℕ, zero, suc, ◌≤◌, ◌<◌, ◌≡◌, refl, sym, ◌∙◌, inl, inr, ◌||◌, some, List, [], ◌∷◌, ◌++◌, arith,
  ltb, Bool-cases, Option-cases, All, All-append, All-imp,
}
use autonomous_agentic_platf.Socket.{
  StoredEvent, stored, error, Conn, Outside, Cursor, newest, behind, ends_run, replay_complete,
  backlog_events, last_id, next_cursor, oldest_seq, send_event, yielded, forward_all, signal_gap,
  replay, forward_live, after_read, resynced, tail_live, pump,
}
use autonomous_agentic_platf.Socket.Sent.{
  sent, yielded-sent, send_event-sent, send_event-quiet, signal_gap-sent, heartbeat-sent,
  resynced-sent, complete_replay-sent,
}

-- Each event has a smaller key than those behind it.
abbrev pub Ascending : (StoredEvent → ℕ) → List StoredEvent → Type 0
Ascending key [] = Unit
Ascending key (e ∷ es) = All (λ later. key e < key later) es × Ascending key es

Ascending-append :
    (key : StoredEvent → ℕ) (es : List StoredEvent) (e : StoredEvent)
    → All (λ x. key x < key e) es
    → Ascending key es
    → Ascending key (es ++ e ∷ [])
Ascending-append key [] e below h = (tt, tt)
Ascending-append key (x ∷ es) e below h = (
  All-append (λ later. key x < key later) es (e ∷ []) h.0 (below.0, tt),
  Ascending-append key es e below.1 h.1,
)

-- The entries are of the log, in the order of their ids, and behind the one with the given id.
abbrev pub Follows : (StoredEvent → Type 0) → ℕ → List StoredEvent → Type 0
Follows Logged id [] = Unit
Follows Logged id (e ∷ es) = Logged e × (id < e.id) × Follows Logged e.id es

-- `$` and `0-0` are behind no entry.
abbrev pub cursor_id : Cursor → ℕ
cursor_id newest = 0
cursor_id (behind id) = id

module _ (Logged : StoredEvent → Type 0) where
  Follows-weaken :
      (a b : ℕ) (es : List StoredEvent) → a ≤ b → Follows Logged b es → Follows Logged a es
  Follows-weaken a b [] l h = tt
  Follows-weaken a b (e ∷ es) l (logged, above, rest) = (logged, omega arith, rest)

  last_id-le : (id : ℕ) (es : List StoredEvent) → Follows Logged id es → id ≤ last_id id es
  unfolding last_id
  last_id-le id [] h = omega arith
  last_id-le id (e ∷ es) (logged, above, rest) = let ih = last_id-le e.id es rest in omega arith

  last_id_mono :
      (a b : ℕ) (es : List StoredEvent) → a ≤ b → (n : ℕ) → last_id b es ≤ n → last_id a es ≤ n
  unfolding last_id
  last_id_mono a b [] l n h = omega arith
  last_id_mono a b (e ∷ es) l n h = h

  -- The events behind the cursor of the client, in the order of the entries.
  backlog_events-Follows :
      (after_seq id : ℕ) (es : List StoredEvent)
      → Follows Logged id es
      → Follows Logged id (backlog_events after_seq es)
        × (last_id id (backlog_events after_seq es) ≤ last_id id es)
  unfolding backlog_events last_id
  backlog_events-Follows after_seq id [] h = (tt, omega arith)
  backlog_events-Follows after_seq id (e ∷ es) (logged, above, rest) =
      let (kept, ends) = backlog_events-Follows after_seq e.id es rest in
      elim (Bool-cases (ltb after_seq e.seq)) [
        | inl h ↦ rw h ((logged, above, kept), ends)
        | inr h ↦ rw h (
          Follows-weaken id e.id (backlog_events after_seq es) (omega arith) kept,
          last_id_mono id e.id (backlog_events after_seq es) (omega arith) _ ends,
        )
      ]

  -- What was sent is of the log, in the order of its ids, and has no id above `id`.
  record Sent (id : ℕ) (es : List StoredEvent) : Type 0 where
    ordered : Ascending (λ e. e.id) es
    logged : All Logged es
    below : All (λ e. e.id ≤ id) es

  Sent-weaken : (a b : ℕ) (es : List StoredEvent) → a ≤ b → Sent a es → Sent b es
  Sent-weaken a b es l h = record {
    ordered = h.ordered;
    logged = h.logged;
    below = All-imp (λ e. e.id ≤ a) (λ e. e.id ≤ b) (λ e k. omega arith) es h.below;
  }

  Sent-append :
      (id : ℕ) (es : List StoredEvent) (e : StoredEvent)
      → Sent id es
      → Logged e
      → id < e.id
      → Sent e.id (es ++ e ∷ [])
  Sent-append id es e h logged above = record {
    ordered =
        Ascending-append (λ x. x.id) es e
          (All-imp (λ x. x.id ≤ id) (λ x. x.id < e.id) (λ x k. omega arith) es h.below) h.ordered;
    logged = All-append Logged es (e ∷ []) h.logged (logged, tt);
    below =
        All-append (λ x. x.id ≤ e.id) es (e ∷ [])
          (All-imp (λ x. x.id ≤ id) (λ x. x.id ≤ e.id) (λ x k. omega arith) es h.below)
          (omega arith, tt);
  }

  module _ (w : Outside) where
    send_event-Sent :
        (id : ℕ) (e : StoredEvent) (c : Conn)
        → Sent id (sent c.frames)
        → Logged e
        → id < e.id
        → Sent e.id (sent (send_event w (stored e) c).1.frames)
    send_event-Sent id e c h logged above = elim (send_event-sent w (stored e) c) [
      | inl done ↦ subst (Sent e.id) (sym done) (Sent-append id (sent c.frames) e h logged above)
      | inr not_done ↦ subst (Sent e.id) (sym not_done) (Sent-weaken id e.id _ (omega arith) h)
    ]

    forward_all-Sent :
        (id : ℕ) (es : List StoredEvent) (c : Conn)
        → Sent id (sent c.frames)
        → Follows Logged id es
        → Sent (last_id id es) (sent (forward_all w es c).1.frames)
    unfolding forward_all last_id
    forward_all-Sent id [] c h follows = h
    forward_all-Sent id (e ∷ es) c h (logged, above, rest) =
        let next = send_event-Sent id e c h logged above in
        elim (Bool-cases (send_event w (stored e) c).0) [
          | inl s ↦ rw (forward_all, s) (forward_all-Sent e.id es _ next rest)
          | inr s ↦ rw (forward_all, s) (Sent-weaken e.id _ _ (last_id-le e.id es rest) next)
        ]

    forward_live-Sent :
        (id : ℕ) (es : List StoredEvent) (c : Conn)
        → Sent id (sent c.frames)
        → Follows Logged id es
        → Sent (last_id id es) (sent (forward_live w es c).1.frames)
    unfolding forward_live last_id
    forward_live-Sent id [] c h follows = h
    forward_live-Sent id (e ∷ es) c h (logged, above, rest) =
        let next = send_event-Sent id e c h logged above in
        let stops = Sent-weaken e.id _ _ (last_id-le e.id es rest) next in
        let c1 = (send_event w (stored e) c).1 in
        elim (Bool-cases (send_event w (stored e) c).0) [
          | inl s ↦ elim (Bool-cases (ends_run e)) [
            | inl t ↦
                rw (forward_live, s, t)
                  (subst (Sent (last_id e.id es))
                    (sym (send_event-quiet w (replay_complete e.seq) c1 refl)) stops)
            | inr t ↦ rw (forward_live, s, t) (forward_live-Sent e.id es _ next rest)
          ]
          | inr s ↦ rw (forward_live, s) stops
        ]

    after_read-Sent :
        (cursor : Cursor) (es : List StoredEvent) (c : Conn)
        → Sent (cursor_id cursor) (sent c.frames)
        → Follows Logged (cursor_id cursor) es
        → Sent (cursor_id (next_cursor cursor es)) (sent (after_read w es c).1.frames)
    unfolding after_read next_cursor
    after_read-Sent cursor [] c h follows =
        subst (Sent (cursor_id cursor)) (sym (heartbeat-sent w c)) h
    after_read-Sent cursor (e ∷ es) c h follows =
        forward_live-Sent (cursor_id cursor) (e ∷ es) c h follows

    module _
        (reads-Follows : (call count : ℕ) (cursor : Cursor) (reply : List StoredEvent)
          → w.xread call cursor count ≡ some reply
          → Follows Logged (cursor_id cursor) reply) where
      tail_live-Sent :
          (rounds : ℕ) (cursor : Cursor) (c : Conn)
          → Sent (cursor_id cursor) (sent c.frames)
          → (id : ℕ) × Sent id (sent (tail_live w rounds cursor c).frames)
      unfolding tail_live
      tail_live-Sent zero cursor c h = (cursor_id cursor, h)
      tail_live-Sent (suc rounds) cursor c h = elim (Bool-cases (c.closed || c.finished)) [
        | inl over ↦ rw (tail_live, over) (cursor_id cursor, h)
        | inr live ↦
            let c1 = resynced w c in
            let h1 = subst (Sent (cursor_id cursor)) (sym (resynced-sent w c)) h in
            let h2 = subst (Sent (cursor_id cursor)) (sym (yielded-sent w c1)) h1 in
            elim (Option-cases (w.xread c1.calls cursor 200)) [
              | inl failed ↦
                  rw (tail_live, live, failed)
                    (tail_live-Sent rounds cursor (yielded w (yielded w c1))
                      (subst (Sent (cursor_id cursor)) (sym (yielded-sent w (yielded w c1))) h2))
              | inr (events, got) ↦
                  let next =
                    after_read-Sent cursor events (yielded w c1) h2
                      (reads-Follows c1.calls 200 cursor events got) in
                  elim (Bool-cases (after_read w events (yielded w c1)).0) [
                    | inl on ↦
                        rw (tail_live, live, got, on)
                          (tail_live-Sent rounds (next_cursor cursor events) _ next)
                    | inr off ↦
                        rw (tail_live, live, got, off) (cursor_id (next_cursor cursor events), next)
                  ]
            ]
      ]

      module _
          (backlog-Follows : (call count : ℕ) (reply : List StoredEvent)
            → w.xrange call count ≡ some reply
            → Follows Logged 0 reply) where
        replay-Sent :
            (after_seq : ℕ) (c : Conn)
            → sent c.frames ≡ []
            → Sent (cursor_id (replay w after_seq c).0) (sent (replay w after_seq c).1.frames)
        unfolding replay
        replay-Sent after_seq c h = elim (Option-cases (w.xrange c.calls 5000)) [
          | inl failed ↦
              rw (replay, failed)
                (subst (Sent 0)
                  (sym (
                    send_event-quiet w (error "replay_failed") (yielded w c) refl
                    ∙ yielded-sent w c
                    ∙ h))
                  (record { ordered = tt; logged = tt; below = tt }))
          | inr (entries, got) ↦
              let events = backlog_events after_seq entries in
              let (kept, ends) =
                backlog_events-Follows after_seq 0 entries
                  (backlog-Follows c.calls 5000 entries got) in
              let c1 = signal_gap w after_seq (oldest_seq entries) (yielded w c) in
              let none_yet : sent c1.frames ≡ [] =
                signal_gap-sent w after_seq (oldest_seq entries) (yielded w c)
                ∙ yielded-sent w c
                ∙ h in
              let start =
                subst (Sent 0) (sym none_yet) (record { ordered = tt; logged = tt; below = tt }) in
              rw (replay, got)
                (subst (Sent (last_id 0 entries))
                  (sym (complete_replay-sent w after_seq events (forward_all w events c1)))
                  (Sent-weaken (last_id 0 events) (last_id 0 entries) _ ends
                    (forward_all-Sent 0 events c1 start kept)))
        ]

        pump-Sent :
            (rounds after_seq : ℕ) (c : Conn)
            → sent c.frames ≡ []
            → (id : ℕ) × Sent id (sent (pump w rounds after_seq c).frames)
        unfolding pump
        pump-Sent rounds after_seq c h =
            let c1 = (replay w after_seq c).1 in
            let cursor = (replay w after_seq c).0 in
            let replayed = replay-Sent after_seq c h in
            elim (Bool-cases (c1.closed || c1.finished)) [
              | inl over ↦ rw (pump, over) (cursor_id cursor, replayed)
              | inr live ↦ rw (pump, live) (tail_live-Sent rounds cursor _ replayed)
            ]

  seq-above :
      (order : (e f : StoredEvent) → Logged e → Logged f → e.id < f.id → e.seq < f.seq)
      (e : StoredEvent) (es : List StoredEvent)
      → Logged e
      → All Logged es
      → All (λ later. e.id < later.id) es
      → All (λ later. e.seq < later.seq) es
  seq-above order e [] one logged above = tt
  seq-above order e (f ∷ es) one (first, logged) (less, above) =
      (order e f one first less, seq-above order e es one logged above)

  -- The order of the ids is the order of the numbers.
  Ascending-seq :
      (order : (e f : StoredEvent) → Logged e → Logged f → e.id < f.id → e.seq < f.seq)
      (es : List StoredEvent)
      → All Logged es
      → Ascending (λ e. e.id) es
      → Ascending (λ e. e.seq) es
  Ascending-seq order [] logged h = tt
  Ascending-seq order (e ∷ es) logged h =
      (seq-above order e es logged.0 logged.1 h.0, Ascending-seq order es logged.1 h.1)

-- Whatever the client sends, whichever writes, reads and snapshots fail, the stored events that a
-- connection is sent go strictly up in seq, so none is sent twice, if none was sent before. Redis
-- is taken to answer each read with entries of the log behind the id that was asked for, in the
-- order of the ids, and the seqs of the log to go up with its ids.
pub pump-Ascending :
    (w : Outside) (Logged : StoredEvent → Type 0)
    → ((e f : StoredEvent) → Logged e → Logged f → e.id < f.id → e.seq < f.seq)
    → ((call count : ℕ) (cursor : Cursor) (reply : List StoredEvent)
        → w.xread call cursor count ≡ some reply
        → Follows Logged (cursor_id cursor) reply)
    → ((call count : ℕ) (reply : List StoredEvent)
        → w.xrange call count ≡ some reply
        → Follows Logged 0 reply)
    → (rounds after_seq : ℕ) (c : Conn) → sent c.frames ≡ []
    → Ascending (λ e. e.seq) (sent (pump w rounds after_seq c).frames)
pump-Ascending w Logged order reads backlog rounds after_seq c h =
    let (id, all_sent) = pump-Sent Logged w reads backlog rounds after_seq c h in
    Ascending-seq Logged order _ all_sent.logged all_sent.ordered
