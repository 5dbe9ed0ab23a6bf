-- ===== src/Events/Emitter.antt =====
-- `RunEmitter`: the events of one run, with the tokens of the models coalesced. A text is the list
-- of its code points. The timer that flushes after 80 ms is an operation of its own, which may come
-- at any time. Each operation is one step: the publishing that it awaits is not interleaved with
-- another task's.
pub mod Coalescing
pub mod Sequence
use autonomous_agentic_platf.Prelude.{
  ℕ, zero, suc, ◌+◌, ◌-◌, ◌*◌, ◌≤◌, ◌<◌, min, max, String, ◌≡◌, refl, sym, ap, ◌∙◌, ◌≢◌, ◌↔◌, ◌⊎◌,
  inl, inr, Bool, true, false, not, ◌&&◌, ◌||◌, Option, none, some, List, [], ◌∷◌, ◌++◌, map,
  reverse, arith, eq_iff, str_eq, ltb, leb, ◌==◌, if◌then◌else◌, ltb→lt, lt→ltb, leb→le, le→leb,
  Bool-cases, Option-cases, or_else, is_some, is_none, length, is_empty, all, any, select, find?,
  count_if, length-append, count_if-append, count_if-le-length, All, All-append, All-reverse,
  All-imp, length-reverse, contains, lookup, insert, merge, ℤ, pos, negsuc, Floats, joined,
  joined-append, append_assoc, append-nil, remove, keys, lookup-insert_any, lookup-remove,
  lookup-keys,
}

abbrev pub Text : Type 0
Text = List ℕ

-- `COALESCE_CHARS`
abbrev pub coalesce_chars : ℕ
coalesce_chars = 64

-- `CONTROL_EVENTS`, by their wire names.
abbrev pub control_events : List String
control_events = "hello" ∷ "ping" ∷ "replay.complete" ∷ "replay.gap" ∷ "run.snapshot" ∷ "error" ∷ []

-- What an entry of the stream says: a `token.delta`, or another event with its JSON.
pub data Body : Type 0 where
  token_delta : (node : String) (text : Text) → Body
  event : (type payload : String) → Body

pub record Entry : Type 0 where
  pub seq : ℕ
  pub body : Body

-- What Redis does with a publish: each command succeeds, `XADD` raises, `EXPIRE` raises (if it is
-- sent, which it is only behind an `INCR` that gives 1), or already `INCR` does. A command that
-- raises has no effect.
pub data Reply : Type 0 where
  published add_raised expire_raised incr_raised : Reply

-- `seq` is the counter in Redis, which is taken not to expire within the run. `stream` is the log
-- of all entries that `XADD` appended: which of the oldest its `maxlen` has trimmed since, about
-- `maxlen` being left, is up to Redis. `calls` counts the publishes.
pub record Emitter : Type 0 where
  pub buffers : List (String × List Text)
  pub seq : ℕ
  pub stream : List Entry
  pub calls : ℕ

abbrev pub fresh_emitter : Emitter
fresh_emitter = record { buffers = []; seq = 0; stream = []; calls = 0 }

-- The number of characters that are buffered.
abbrev pub buffered_chars : List Text → ℕ
buffered_chars [] = 0
buffered_chars (chunk ∷ chunks) = length chunk + buffered_chars chunks

-- `json.dumps(payload)`, none where it raises.
abbrev pub payload_json : Option String → String
payload_json payload = or_else payload "{\"_unserialisable\": true}"

abbrev pub chunks_of : String → Emitter → List Text
chunks_of node e = or_else (lookup node e.buffers) []

-- `next_seq` and `append_event` succeed.
abbrev pub appended : Body → Emitter → Emitter × ℕ
appended body e = (
  record e {
    seq = e.seq + 1;
    stream = e.stream ++ record { seq = e.seq + 1; body = body } ∷ [];
    calls = e.calls + 1;
  },
  e.seq + 1,
)

-- The number is taken, and the event is lost.
abbrev pub lost : Emitter → Emitter × ℕ
lost e = (record e { seq = e.seq + 1; calls = e.calls + 1 }, 0)

module _ (redis : ℕ → Reply) where
  -- `_publish`, with the number that it returns: `INCR`, `EXPIRE` behind the first one, `XADD`.
  unfoldable pub publish : Body → Emitter → Emitter × ℕ
  publish body e = elim (redis e.calls) [
    | published ↦ appended body e
    | add_raised ↦ lost e
    | expire_raised ↦ if e.seq + 1 == 1 then lost e else appended body e
    | incr_raised ↦ (record e { calls = e.calls + 1 }, 0)
  ]

  -- `_flush_node`
  unfoldable pub flush_node : String → Emitter → Emitter
  unfolding publish
  flush_node node e =
      let text = joined (chunks_of node e) in
      let popped = record e { buffers = remove node e.buffers } in
      if is_empty text then popped else (publish (token_delta node text) popped).0

  unfoldable pub flush_nodes : List String → Emitter → Emitter
  unfolding flush_node
  flush_nodes [] e = e
  flush_nodes (node ∷ nodes) e = flush_nodes nodes (flush_node node e)

  -- `flush_tokens`: what the timer runs, and what `aclose` ends with.
  unfoldable pub flush_tokens : Emitter → Emitter
  unfolding flush_nodes
  flush_tokens e = flush_nodes (keys e.buffers) e

  -- `emit_token`
  unfoldable pub emit_token : String → Text → Emitter → Emitter
  unfolding flush_node
  emit_token node text e =
      if is_empty text
      then e
      else let buffer = chunks_of node e ++ text ∷ [] in
        let held = record e { buffers = insert node buffer e.buffers } in
        if leb coalesce_chars (buffered_chars buffer) then flush_node node held else held

  -- `emit`; none for the ValueError on a control frame.
  unfoldable pub emit : String → Option String → Emitter → Option (Emitter × ℕ)
  unfolding flush_tokens publish
  emit type payload e =
      if contains type control_events
      then none
      else some (publish (event type (payload_json payload)) (flush_tokens e))

-- What the engine and the timer do.
pub data Op : Type 0 where
  token : (node : String) (text : Text) → Op
  other : (type : String) (payload : Option String) → Op
  tick : Op

abbrev pub after_emit : Emitter → Option (Emitter × ℕ) → Emitter
after_emit e none = e
after_emit e (some r) = r.0

unfoldable pub after_op : (ℕ → Reply) → Op → Emitter → Emitter
unfolding emit_token emit flush_tokens
after_op redis (token node text) e = emit_token redis node text e
after_op redis (other type payload) e = after_emit e (emit redis type payload e)
after_op redis tick e = flush_tokens redis e

unfoldable pub run : (ℕ → Reply) → List Op → Emitter → Emitter
unfolding after_op
run redis [] e = e
run redis (op ∷ ops) e = run redis ops (after_op redis op e)
