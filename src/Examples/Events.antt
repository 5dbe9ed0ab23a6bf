-- ===== src/Examples/Events.antt =====
-- The theorems on the event stream, at short texts and small limits.
use autonomous_agentic_platf.Prelude.{
  ℕ, ◌≡◌, refl, sym, ap, ◌∙◌, ◌≢◌, inl, inr, Bool, true, none, some, List, [], ◌∷◌, map, str_eq,
  ◌==◌, if◌then◌else◌, Bool-cases, lookup, insert, pos, remove,
}
use autonomous_agentic_platf.Events.Emitter.{
  Text, Reply, published, add_raised, expire_raised, incr_raised, Op, token, other, tick,
  fresh_emitter, flush_tokens, run, after_op, emit_token, emit, flush_nodes, flush_node, publish,
}
use autonomous_agentic_platf.Events.Emitter.Coalescing.{view, said_by, run-view}
use autonomous_agentic_platf.Events.Emitter.Sequence.{Gapless, run-Gapless}
use autonomous_agentic_platf.Events.Lines.{fresh_stream, receive_all, flush}
use autonomous_agentic_platf.Events.Entries.{Codec, append_event, decode_entry, int_field}
use autonomous_agentic_platf.Events.Entries.Roundtrip.{decode_entry-append_event}
use autonomous_agentic_platf.Events.Lines.Chunks.{receive_all-chunking}

-- Two tokens of the coder, one of the planner, and an event.
abbrev some_ops : List Op
some_ops =
    token "coder" (104 ∷ 101 ∷ [])
    ∷ token "planner" (120 ∷ [])
    ∷ token "coder" (121 ∷ [])
    ∷ tick
    ∷ other "node.completed" (some "{}")
    ∷ token "coder" (33 ∷ [])
    ∷ []

-- Redis works.
abbrev works : ℕ → Reply
works call = published

-- The second publish fails before it has a number.
abbrev drops_second : ℕ → Reply
drops_second call = if call == 1 then incr_raised else published

run-view_example :
    view "coder" (flush_tokens works (run works some_ops fresh_emitter)).stream
    ≡ said_by "coder" some_ops
run-view_example = run-view works (λ call. refl) "coder" some_ops

drops_second-keeps :
    (r : Reply) → incr_raised ≢ r → published ≢ r → (call : ℕ) → drops_second call ≢ r
drops_second-keeps r not_incr not_published call e = elim (Bool-cases (call == 1)) [
  | inl h ↦ not_incr (sym (ap (λ b. if b then incr_raised else published) h) ∙ e)
  | inr h ↦ not_published (sym (ap (λ b. if b then incr_raised else published) h) ∙ e)
]

run-Gapless_example : Gapless 0 (run drops_second some_ops fresh_emitter).stream
run-Gapless_example =
    run-Gapless drops_second some_ops
      (drops_second-keeps add_raised (λ e. absurd (cc)) (λ e. absurd (cc)))
      (drops_second-keeps expire_raised (λ e. absurd (cc)) (λ e. absurd (cc)))

-- An EXPIRE that raises behind the first INCR loses the first event, and its number.
abbrev expire_fails : ℕ → Reply
expire_fails call = if call == 0 then expire_raised else published

first_seq : map (λ x. x.seq) (run expire_fails some_ops fresh_emitter).stream ≡ 2 ∷ 3 ∷ []
unfolding run after_op emit_token emit flush_tokens flush_nodes flush_node publish lookup insert
    remove
first_seq = refl

-- `ab`, a newline and `c`, in two ways.
abbrev two_cuts : List Text
two_cuts = (97 ∷ []) ∷ (98 ∷ 10 ∷ []) ∷ (99 ∷ []) ∷ []

abbrev one_cut : List Text
one_cut = (97 ∷ 98 ∷ 10 ∷ 99 ∷ []) ∷ []

receive_all-chunking_example :
    receive_all 64 two_cuts fresh_stream ≡ receive_all 64 one_cut fresh_stream
receive_all-chunking_example = receive_all-chunking 64 two_cuts one_cut refl

dropped_value : (flush 4 (receive_all 4 two_cuts fresh_stream)).truncations ≡ 2 ∷ []
unfolding flush receive_all
dropped_value = refl

-- The only payload is `{}`, and the only number that is written is 7.
abbrev tiny : Codec
tiny = record {
  Json = Bool;
  dumps = λ payload. "{}";
  loads = λ text. if str_eq text "{}" then some true else none;
  is_object = λ payload. payload;
  empty_object = true;
  value_object = λ payload. true;
  show = λ n. "7";
  read = λ text.
      if str_eq text "7" then some (pos 7) else if str_eq text "1" then some (pos 1) else none;
}

decode_entry-append_event_example :
    decode_entry tiny "5-0" (append_event tiny (pos 7) "node.started" "" true)
    ≡ some (record {
      v = pos 1;
      seq = pos 7;
      type = "node.started";
      ts = "";
      payload = true;
      id = "5-0";
    })
decode_entry-append_event_example =
    decode_entry-append_event tiny "5-0" "node.started" "" (pos 7) true
      (record {
        read_one = refl;
        read_show = refl;
        show_filled = refl;
        loads_dumps = refl;
        dumps_filled = refl;
      })
      refl refl

-- A number of the protocol that does not parse is not tolerated.
malformed_version : decode_entry tiny "5-0" (("v", "x") ∷ []) ≡ none
unfolding decode_entry int_field
malformed_version = refl
