-- ===== src/Events/Emitter/Coalescing.antt =====
-- Coalescing is invisible: the log says, for each node, what an emitter that holds nothing back
-- would have said.
use mathlib.Core.List.{map-append}
use autonomous_agentic_platf.Prelude.{
  ℕ, ◌+◌, String, ◌≡◌, refl, sym, ◌∙◌, inl, inr, true, Option, List, [], ◌∷◌, ◌++◌, map, arith,
  eq_iff, str_eq, leb, if◌then◌else◌, Bool-cases, is_empty, contains, lookup, insert, joined,
  joined-append, append_assoc, append-nil, remove, keys, lookup-insert_any, lookup-remove,
  lookup-keys,
}
use autonomous_agentic_platf.Events.Emitter.{
  Body, token_delta, event, Entry, published, Emitter, chunks_of, Op, token, other, tick,
  control_events, payload_json, Reply, flush_node, publish, flush_tokens, emit, emit_token,
  after_op, run, flush_nodes, after_emit, fresh_emitter, Text, coalesce_chars, buffered_chars,
}

-- What a reader of the log sees who follows the tokens of one node: its characters one by one, and
-- the other events.
pub data Item : Type 0 where
  char : ℕ → Item
  seen : (type payload : String) → Item

abbrev pub items : String → Body → List Item
items node (token_delta from text) = if str_eq from node then map char text else []
items node (event type payload) = seen type payload ∷ []

unfoldable pub view : String → List Entry → List Item
view node [] = []
view node (e ∷ es) = items node e.body ++ view node es

-- What an operation says, with nothing held back.
abbrev pub said : String → Op → List Item
said node (token from text) = items node (token_delta from text)
said node (other type payload) =
    if contains type control_events then [] else items node (event type (payload_json payload))
said node tick = []

unfoldable pub said_by : String → List Op → List Item
said_by node [] = []
said_by node (op ∷ ops) = said node op ++ said_by node ops

-- What the log says, and then the buffer.
abbrev told : String → Emitter → List Item
told node e = view node e.stream ++ map char (joined (chunks_of node e))

view-append :
    (node : String) (es : List Entry) (e : Entry)
    → view node (es ++ e ∷ []) ≡ view node es ++ items node e.body
unfolding view
view-append node [] e = append-nil (items node e.body)
view-append node (x ∷ es) e =
    rw (view-append node es e)
      (sym (append_assoc (items node x.body) (view node es) (items node e.body)))

empty-nil : {A : Type 0} (xs : List A) → is_empty xs ≡ true → xs ≡ []
empty-nil [] h = refl
empty-nil (x ∷ xs) h = absurd (ground arith)

items-nil : (node from : String) → items node (token_delta from []) ≡ []
items-nil node from = ground arith

module _ (redis : ℕ → Reply) (up : (k : ℕ) → redis k ≡ published) where
  publish_up :
      (body : Body) (e : Emitter)
      → (publish redis body e).0 ≡ record e {
        seq = e.seq + 1;
        stream = e.stream ++ record { seq = e.seq + 1; body = body } ∷ [];
        calls = e.calls + 1;
      }
  unfolding publish
  publish_up body e = rw (publish, up e.calls) refl

  flush_node-chunks :
      (node from : String) (e : Emitter)
      → chunks_of node (flush_node redis from e)
        ≡ (if str_eq from node then [] else chunks_of node e)
  unfolding flush_node
  flush_node-chunks node from e = elim (Bool-cases (is_empty (joined (chunks_of from e)))) [
    | inl empty ↦ ground (arith, lookup-remove node from e.buffers)
    | inr full ↦ ground (
      arith,
      lookup-remove node from e.buffers,
      publish_up (token_delta from (joined (chunks_of from e)))
          (record e { buffers = remove from e.buffers }),
    )
  ]

  -- What a flush of another node, or of an empty buffer, and one of this node do to the view.
  flush_node-view :
      (node from : String) (e : Emitter)
      → view node (flush_node redis from e).stream
        ≡ view node e.stream ++ items node (token_delta from (joined (chunks_of from e)))
  unfolding flush_node
  flush_node-view node from e = elim (Bool-cases (is_empty (joined (chunks_of from e)))) [
    | inl empty ↦
        let nothing = empty-nil _ empty in
        rw (empty, nothing, items-nil node from) (sym (append-nil (view node e.stream)))
    | inr full ↦
        let text = joined (chunks_of from e) in
        let popped : Emitter = record e { buffers = remove from e.buffers } in
        let out = publish_up (token_delta from text) popped in
        rw (full, out)
          (view-append node e.stream (record { seq = e.seq + 1; body = token_delta from text }))
  ]

  flush_node-told :
      (node from : String) (e : Emitter) → told node (flush_node redis from e) ≡ told node e
  flush_node-told node from e =
      let shown = flush_node-view node from e in
      let left = flush_node-chunks node from e in
      elim (Bool-cases (str_eq from node)) [
        | inl same ↦
            let key : from ≡ node = (eq_iff from node).0 same in
            rw (shown, left, same, key)
              (append-nil (view node e.stream ++ map char (joined (chunks_of node e))))
        | inr apart ↦ rw (shown, left, apart, append-nil (view node e.stream)) refl
      ]

  flush_nodes-told :
      (node : String) (nodes : List String) (e : Emitter)
      → told node (flush_nodes redis nodes e) ≡ told node e
  unfolding flush_nodes
  flush_nodes-told node [] e = refl
  flush_nodes-told node (from ∷ nodes) e =
      flush_nodes-told node nodes (flush_node redis from e) ∙ flush_node-told node from e

  flush_nodes-chunks :
      (node : String) (nodes : List String) (e : Emitter)
      → chunks_of node (flush_nodes redis nodes e)
        ≡ (if contains node nodes then [] else chunks_of node e)
  unfolding flush_nodes
  flush_nodes-chunks node [] e = refl
  flush_nodes-chunks node (from ∷ nodes) e = ground (
    arith,
    eq_iff node from,
    eq_iff from node,
    flush_node-chunks node from e,
    flush_nodes-chunks node nodes (flush_node redis from e),
  )

  flush_tokens-told : (node : String) (e : Emitter) → told node (flush_tokens redis e) ≡ told node e
  unfolding flush_tokens
  flush_tokens-told node e = flush_nodes-told node (keys e.buffers) e

  flush_tokens-chunks : (node : String) (e : Emitter) → chunks_of node (flush_tokens redis e) ≡ []
  unfolding flush_tokens
  flush_tokens-chunks node e =
      ground (arith, flush_nodes-chunks node (keys e.buffers) e, lookup-keys node e.buffers)

  flush_tokens-view :
      (node : String) (e : Emitter) → view node (flush_tokens redis e).stream ≡ told node e
  flush_tokens-view node e =
      let quiet = flush_tokens-chunks node e in
      sym (append-nil (view node (flush_tokens redis e).stream))
      ∙ rw quiet at (flush_tokens-told node e)

  -- The state between the append to the buffer and the test of its size.
  abbrev held : String → Text → Emitter → Emitter
  held from text e = record e { buffers = insert from (chunks_of from e ++ text ∷ []) e.buffers }

  held-told :
      (node from : String) (text : Text) (e : Emitter)
      → told node (held from text e) ≡ told node e ++ items node (token_delta from text)
  held-told node from text e =
      let found = lookup-insert_any node from (chunks_of from e ++ text ∷ []) e.buffers in
      elim (Bool-cases (str_eq from node)) [
        | inl same ↦
            let key : from ≡ node = (eq_iff from node).0 same in
            rw
              (
                found,
                same,
                joined-append (chunks_of from e) (text ∷ []),
                append-nil text,
                map-append (λ x. char x) (joined (chunks_of from e)) text,
                key,
              )
              (sym (
                append_assoc (view node e.stream) (map char (joined (chunks_of node e)))
                  (map char text)))
        | inr apart ↦ rw (found, apart) (sym (append-nil (told node e)))
      ]

  emit_token-told :
      (node from : String) (text : Text) (e : Emitter)
      → told node (emit_token redis from text e) ≡ told node e ++ said node (token from text)
  unfolding emit_token
  emit_token-told node from text e = elim (Bool-cases (is_empty text)) [
    | inl empty ↦
        rw (empty, empty-nil text empty, items-nil node from) (sym (append-nil (told node e)))
    | inr full ↦
        elim (Bool-cases (leb coalesce_chars (buffered_chars (chunks_of from e ++ text ∷ [])))) [
          | inl due ↦
              rw (full, due)
                (flush_node-told node from (held from text e) ∙ held-told node from text e)
          | inr early ↦ rw (full, early) (held-told node from text e)
        ]
  ]

  emit-told :
      (node : String) (type : String) (payload : Option String) (e : Emitter)
      → told node (after_emit e (emit redis type payload e))
        ≡ told node e ++ said node (other type payload)
  unfolding emit
  emit-told node type payload e = elim (Bool-cases (contains type control_events)) [
    | inl control ↦ rw control (sym (append-nil (told node e)))
    | inr durable ↦
        let out = publish_up (event type (payload_json payload)) (flush_tokens redis e) in
        let more = view-append node (flush_tokens redis e).stream (record {
          seq = (flush_tokens redis e).seq + 1;
          body = event type (payload_json payload);
        }) in
        rw (durable, out, more, flush_tokens-chunks node e, flush_tokens-view node e)
          (append-nil (told node e ++ seen type (payload_json payload) ∷ []))
  ]

  after_op-told :
      (node : String) (op : Op) (e : Emitter)
      → told node (after_op redis op e) ≡ told node e ++ said node op
  unfolding after_op
  after_op-told node (token from text) e = emit_token-told node from text e
  after_op-told node (other type payload) e = emit-told node type payload e
  after_op-told node tick e = flush_tokens-told node e ∙ sym (append-nil (told node e))

  run-told :
      (node : String) (ops : List Op) (e : Emitter)
      → told node (run redis ops e) ≡ told node e ++ said_by node ops
  unfolding run said_by
  run-told node [] e = sym (append-nil (told node e))
  run-told node (op ∷ ops) e =
      run-told node ops (after_op redis op e)
      ∙ rw (after_op-told node op e) (append_assoc (told node e) (said node op) (said_by node ops))

  -- Coalescing is invisible: while Redis works, what the log tells of a node, once the buffers
  -- are flushed, is the text of the tokens of that node, character for character, and the other
  -- events, in the order in which they were emitted, wherever the timer fired.
  pub run-view :
      (node : String) (ops : List Op)
      → view node (flush_tokens redis (run redis ops fresh_emitter)).stream ≡ said_by node ops
  unfolding view said_by lookup
  run-view node ops =
      flush_tokens-view node (run redis ops fresh_emitter) ∙ run-told node ops fresh_emitter
