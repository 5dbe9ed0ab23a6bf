-- ===== src/Socket/Up.antt =====
-- Each step of a connection that stays up, on what it sends.
use autonomous_agentic_platf.Prelude.{
  ℕ, ◌+◌, String, ◌≡◌, refl, sym, ap, ◌∙◌, inl, inr, Bool, true, false, ◌||◌, Option, List, [], ◌∷◌,
  ◌++◌, if◌then◌else◌, Bool-cases, any, append_assoc, append-nil,
}
use mathlib.Core.Path.{subst}
use autonomous_agentic_platf.Socket.{
  StoredEvent, Frame, stored, Conn, Outside, ends_run, frame_type, replay_complete, write, send,
  send_event, yielded, read_client, forward_all, forward_live,
}
use autonomous_agentic_platf.Socket.Filter.{matches_filter}
use autonomous_agentic_platf.Socket.Sent.{sent, sent-append, send_event-quiet}
use autonomous_agentic_platf.Socket.Due.{
  until_terminal, passed, Up, select-append, or-left, or-right,
}

module _ (w : Outside) (filter : Option (List String))
    (accepts : (call : ℕ) → w.accepts call ≡ true) (silent : (call : ℕ) → w.inbound call ≡ []) where
  pub yielded-Up : (c : Conn) → yielded w c ≡ record c { calls = c.calls + 1 }
  unfolding yielded read_client
  yielded-Up c = rw (yielded, silent c.calls) refl

  -- A step that goes on, keeps the connection up, and adds these stored events.
  pub record Adds (es : List StoredEvent) (c : Conn) (r : Bool × Conn) : Type 0 where
    pub on : r.0 ≡ true
    pub up : Up filter r.1
    pub added : sent r.1.frames ≡ sent c.frames ++ passed filter es

  write-Up :
      (frame : Frame) (c : Conn)
      → c.closed ≡ false
      → write w frame c ≡ (true, record c { calls = c.calls + 1; frames = c.frames ++ frame ∷ [] })
  unfolding write
  write-Up frame c h = rw (write, h, accepts c.calls) refl

  send-Up :
      (frame : Frame) (c : Conn)
      → Up filter c
      → send w frame c
        ≡ (true, record c { calls = c.calls + 1 + 1; frames = c.frames ++ frame ∷ [] })
  unfolding send
  send-Up frame c h =
      ap (λ r. (r.0, yielded w r.1)) (write-Up frame c h.is_open)
      ∙ ap (λ x. (true, x)) (yielded-Up _)

  send_event-filtered :
      (frame : Frame) (c : Conn)
      → matches_filter (frame_type frame) c.filter ≡ false
      → send_event w frame c ≡ (true, c)
  unfolding send_event
  send_event-filtered frame c e = ap (λ b. if b then send w frame c else (true, c)) e

  send_event-passes :
      (frame : Frame) (c : Conn)
      → Up filter c
      → matches_filter (frame_type frame) c.filter ≡ true
      → send_event w frame c
        ≡ (true, record c { calls = c.calls + 1 + 1; frames = c.frames ++ frame ∷ [] })
  unfolding send_event
  send_event-passes frame c h e =
      ap (λ b. if b then send w frame c else (true, c)) e ∙ send-Up frame c h

  pub send_event-Up : (frame : Frame) (c : Conn) → Up filter c → Up filter (send_event w frame c).1
  send_event-Up frame c h = elim (Bool-cases (matches_filter (frame_type frame) c.filter)) [
    | inl e ↦
        subst (λ r. Up filter r.1) (sym (send_event-passes frame c h e))
          (record {
            is_open = h.is_open;
            goes_on = h.goes_on;
            no_resync = h.no_resync;
            filters = h.filters;
          })
    | inr e ↦ subst (λ r. Up filter r.1) (sym (send_event-filtered frame c e)) h
  ]

  passes :
      (e : StoredEvent) (c : Conn)
      → Up filter c
      → (b : Bool) → matches_filter e.type c.filter ≡ b
      → matches_filter e.type filter ≡ b
  passes e c h b m = ap (λ f. matches_filter e.type f) (sym h.filters) ∙ m

  send_event-Adds :
      (e : StoredEvent) (c : Conn) → Up filter c → Adds (e ∷ []) c (send_event w (stored e) c)
  send_event-Adds e c h = elim (Bool-cases (matches_filter e.type c.filter)) [
    | inl m ↦ subst (Adds (e ∷ []) c) (sym (send_event-passes (stored e) c h m)) (record {
      on = refl;
      up = record {
        is_open = h.is_open;
        goes_on = h.goes_on;
        no_resync = h.no_resync;
        filters = h.filters;
      };
      added =
          sent-append c.frames (stored e ∷ [])
          ∙ ap (λ b. sent c.frames ++ (if b then e ∷ [] else [])) (sym (passes e c h true m));
    })
    | inr m ↦ subst (Adds (e ∷ []) c) (sym (send_event-filtered (stored e) c m)) (record {
      on = refl;
      up = h;
      added =
          sym (append-nil (sent c.frames))
          ∙ ap (λ b. sent c.frames ++ (if b then e ∷ [] else [])) (sym (passes e c h false m));
    })
  ]

  -- One event, and then the others.
  Adds-cons :
      (e : StoredEvent) (es : List StoredEvent) (c : Conn) (all_sent : List StoredEvent)
      → Up filter c
      → all_sent ≡ sent (send_event w (stored e) c).1.frames ++ passed filter es
      → all_sent ≡ sent c.frames ++ passed filter (e ∷ es)
  Adds-cons e es c all_sent h rest =
      rest
      ∙ ap (λ l. l ++ passed filter es) (send_event-Adds e c h).added
      ∙ append_assoc (sent c.frames) (passed filter (e ∷ [])) (passed filter es)
      ∙ ap (λ l. sent c.frames ++ l)
          (sym (select-append (λ e. matches_filter e.type filter) (e ∷ []) es))

  pub forward_all-Adds :
      (es : List StoredEvent) (c : Conn) → Up filter c → Adds es c (forward_all w es c)
  unfolding forward_all
  forward_all-Adds [] c h = record { on = refl; up = h; added = sym (append-nil (sent c.frames)) }
  forward_all-Adds (e ∷ es) c h =
      let one = send_event-Adds e c h in
      let rest = forward_all-Adds es _ one.up in
      rw (forward_all, one.on)
        (record { on = rest.on; up = rest.up; added = Adds-cons e es c _ h rest.added })

  -- The loop over one read goes on where no event is terminal.
  pub forward_live-Adds :
      (es : List StoredEvent) (c : Conn)
      → Up filter c
      → any ends_run es ≡ false
      → Adds es c (forward_live w es c)
  unfolding forward_live
  forward_live-Adds [] c h no_end = record {
    on = refl;
    up = h;
    added = sym (append-nil (sent c.frames));
  }
  forward_live-Adds (e ∷ es) c h no_end =
      let one = send_event-Adds e c h in
      let rest =
        forward_live-Adds es (send_event w (stored e) c).1 one.up
          (or-right (ends_run e) (any ends_run es) no_end) in
      rw (forward_live, one.on, or-left (ends_run e) (any ends_run es) no_end)
        (record { on = rest.on; up = rest.up; added = Adds-cons e es c _ h rest.added })

  -- Otherwise it stops, behind the first that is.
  pub forward_live-stops :
      (es : List StoredEvent) (c : Conn)
      → Up filter c
      → any ends_run es ≡ true
      → ((forward_live w es c).0 ≡ false)
        × (sent (forward_live w es c).1.frames ≡ sent c.frames ++ passed filter (until_terminal es))
  unfolding forward_live
  forward_live-stops [] c h ends = absurd (cc)
  forward_live-stops (e ∷ es) c h ends =
      let one = send_event-Adds e c h in
      elim (Bool-cases (ends_run e)) [
        | inl t ↦
            rw (forward_live, one.on, t)
              (refl, send_event-quiet w (replay_complete e.seq) _ refl ∙ one.added)
        | inr t ↦
            let (stops, rest) =
              forward_live-stops es (send_event w (stored e) c).1 one.up
                (ap (λ b. b || any ends_run es) (sym t) ∙ ends) in
            rw (forward_live, one.on, t) (stops, Adds-cons e (until_terminal es) c _ h rest)
      ]
