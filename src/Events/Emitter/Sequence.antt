-- ===== src/Events/Emitter/Sequence.antt =====
-- The numbers of the entries in the log.
use autonomous_agentic_platf.Prelude.{
  ℕ, ◌+◌, ◌≤◌, ◌<◌, String, ◌≡◌, refl, ◌≢◌, inl, inr, List, [], ◌∷◌, ◌++◌, arith, leb, ◌==◌,
  Bool-cases, length, is_empty, length-append, All, All-append, All-imp, contains, insert, joined,
  remove, keys,
}
use autonomous_agentic_platf.Events.Emitter.{
  Text, Body, token_delta, event, Entry, Reply, published, add_raised, expire_raised, incr_raised,
  appended, lost, Emitter, fresh_emitter, publish, chunks_of, flush_node, flush_nodes, flush_tokens,
  emit_token, emit, Op, token, other, tick, after_op, run, control_events, payload_json,
  coalesce_chars, buffered_chars,
}

module _ (redis : ℕ → Reply) (P : Emitter → Type 0)
    (publishing : (body : Body) (e : Emitter) → P e → P (publish redis body e).0)
    (buffering : (buffers : List (String × List Text)) (e : Emitter)
      → P e
      → P (record e { buffers = buffers })) where
  flush_node-keeps : (node : String) (e : Emitter) → P e → P (flush_node redis node e)
  unfolding flush_node
  flush_node-keeps node e h = elim (Bool-cases (is_empty (joined (chunks_of node e)))) [
    | inl empty ↦ rw (flush_node, empty) (buffering (remove node e.buffers) e h)
    | inr full ↦
        rw (flush_node, full)
          (publishing (token_delta node (joined (chunks_of node e))) _
            (buffering (remove node e.buffers) e h))
  ]

  flush_nodes-keeps : (nodes : List String) (e : Emitter) → P e → P (flush_nodes redis nodes e)
  unfolding flush_nodes
  flush_nodes-keeps [] e h = h
  flush_nodes-keeps (node ∷ nodes) e h =
      flush_nodes-keeps nodes (flush_node redis node e) (flush_node-keeps node e h)

  flush_tokens-keeps : (e : Emitter) → P e → P (flush_tokens redis e)
  unfolding flush_tokens
  flush_tokens-keeps e h = flush_nodes-keeps (keys e.buffers) e h

  emit_token-keeps :
      (node : String) (text : Text) (e : Emitter) → P e → P (emit_token redis node text e)
  unfolding emit_token
  emit_token-keeps node text e h =
      let buffer = chunks_of node e ++ text ∷ [] in
      let kept = buffering (insert node buffer e.buffers) e h in
      elim (Bool-cases (is_empty text)) [
        | inl empty ↦ rw (emit_token, empty) h
        | inr full ↦ elim (Bool-cases (leb coalesce_chars (buffered_chars buffer))) [
          | inl due ↦ rw (emit_token, full, due) (flush_node-keeps node _ kept)
          | inr early ↦ rw (emit_token, full, early) kept
        ]
      ]

  -- What a publish and a change of the buffers keep, every operation keeps.
  after_op-keeps : (op : Op) (e : Emitter) → P e → P (after_op redis op e)
  unfolding after_op
  after_op-keeps (token node text) e h = emit_token-keeps node text e h
  after_op-keeps tick e h = flush_tokens-keeps e h
  after_op-keeps (other type payload) e h = elim (Bool-cases (contains type control_events)) [
    | inl control ↦ rw (emit, control) h
    | inr durable ↦
        rw (emit, durable)
          (publishing (event type (payload_json payload)) (flush_tokens redis e)
            (flush_tokens-keeps e h))
  ]

  run-keeps : (ops : List Op) (e : Emitter) → P e → P (run redis ops e)
  unfolding run
  run-keeps [] e h = h
  run-keeps (op ∷ ops) e h = run-keeps ops (after_op redis op e) (after_op-keeps op e h)

-- Each number is smaller than those behind it.
abbrev pub Increasing : List Entry → Type 0
Increasing [] = Unit
Increasing (e ∷ es) = All (λ later. e.seq < later.seq) es × Increasing es

-- The numbers go up from `from` by one.
abbrev pub Gapless : ℕ → List Entry → Type 0
Gapless from [] = Unit
Gapless from (e ∷ es) = (e.seq ≡ from + 1) × Gapless (from + 1) es

Increasing-append :
    (es : List Entry) (e : Entry)
    → All (λ x. x.seq < e.seq) es
    → Increasing es
    → Increasing (es ++ e ∷ [])
Increasing-append [] e below h = (tt, tt)
Increasing-append (x ∷ es) e below h = (
  All-append (λ later. x.seq < later.seq) es (e ∷ []) h.0 (below.0, tt),
  Increasing-append es e below.1 h.1,
)

Gapless-append :
    (from : ℕ) (es : List Entry) (e : Entry)
    → e.seq ≡ from + length es + 1
    → Gapless from es
    → Gapless from (es ++ e ∷ [])
Gapless-append from [] e n h = (ground arith, tt)
Gapless-append from (x ∷ es) e n h = (h.0, Gapless-append (from + 1) es e (ground arith) h.1)

-- The numbers in the log increase, and the counter is at none below them.
record Numbered (e : Emitter) : Type 0 where
  increasing : Increasing e.stream
  below : All (λ x. x.seq ≤ e.seq) e.stream

record Counted (e : Emitter) : Type 0 where
  gapless : Gapless 0 e.stream
  counts : e.seq ≡ length e.stream

appended-Numbered : (body : Body) (e : Emitter) → Numbered e → Numbered (appended body e).0
appended-Numbered body e h = record {
  increasing =
      Increasing-append e.stream _
        (All-imp (λ x. x.seq ≤ e.seq) (λ x. x.seq < e.seq + 1) (λ x l. ground arith) e.stream
          h.below)
        h.increasing;
  below =
      All-append (λ x. x.seq ≤ e.seq + 1) e.stream (record { seq = e.seq + 1; body = body } ∷ [])
        (All-imp (λ x. x.seq ≤ e.seq) (λ x. x.seq ≤ e.seq + 1) (λ x l. ground arith) e.stream
          h.below)
        (ground arith, tt);
}

lost-Numbered : (e : Emitter) → Numbered e → Numbered (lost e).0
lost-Numbered e h = record {
  increasing = h.increasing;
  below =
      All-imp (λ x. x.seq ≤ e.seq) (λ x. x.seq ≤ e.seq + 1) (λ x l. ground arith) e.stream h.below;
}

publish-Numbered :
    (redis : ℕ → Reply) (body : Body) (e : Emitter) → Numbered e → Numbered (publish redis body e).0
unfolding publish
publish-Numbered redis body e h = by_reply (redis e.calls) refl
  where
    by_reply : (r : Reply) → redis e.calls ≡ r → Numbered (publish redis body e).0
    by_reply published eq = rw (publish, eq) (appended-Numbered body e h)
    by_reply add_raised eq = rw (publish, eq) (lost-Numbered e h)
    by_reply expire_raised eq = elim (Bool-cases (e.seq + 1 == 1)) [
      | inl first ↦ rw (publish, eq, first) (lost-Numbered e h)
      | inr later ↦ rw (publish, eq, later) (appended-Numbered body e h)
    ]
    by_reply incr_raised eq =
        rw (publish, eq) (record { increasing = h.increasing; below = h.below })

-- Whatever Redis does with each publish, the numbers in the log strictly increase.
pub run-Increasing :
    (redis : ℕ → Reply) (ops : List Op) → Increasing (run redis ops fresh_emitter).stream
run-Increasing redis ops =
    (run-keeps redis Numbered (publish-Numbered redis)
      (λ buffers e h. record { increasing = h.increasing; below = h.below }) ops fresh_emitter
      (record { increasing = tt; below = tt })).increasing

publish-Counted :
    (redis : ℕ → Reply)
    → ((k : ℕ) → redis k ≢ add_raised)
    → ((k : ℕ) → redis k ≢ expire_raised)
    → (body : Body) (e : Emitter) → Counted e
    → Counted (publish redis body e).0
unfolding publish
publish-Counted redis up lives body e h = by_reply (redis e.calls) refl
  where
    by_reply : (r : Reply) → redis e.calls ≡ r → Counted (publish redis body e).0
    by_reply published eq =
        rw (publish, eq)
          (record {
            gapless = Gapless-append 0 e.stream _ (ground (arith, h.counts)) h.gapless;
            counts = ground (
              arith,
              h.counts,
              length-append e.stream (record { seq = e.seq + 1; body = body } ∷ []),
            );
          })
    by_reply add_raised eq = absurd (up e.calls eq)
    by_reply expire_raised eq = absurd (lives e.calls eq)
    by_reply incr_raised eq = rw (publish, eq) (record { gapless = h.gapless; counts = h.counts })

-- If no XADD raises behind a successful INCR, and no EXPIRE raises, the entries that are appended
-- to the log are numbered 1, 2, 3 and so on without a gap, even where publishes fail before they
-- have a number.
pub run-Gapless :
    (redis : ℕ → Reply) (ops : List Op)
    → ((k : ℕ) → redis k ≢ add_raised)
    → ((k : ℕ) → redis k ≢ expire_raised)
    → Gapless 0 (run redis ops fresh_emitter).stream
run-Gapless redis ops up lives =
    (run-keeps redis Counted (publish-Counted redis up lives)
      (λ buffers e h. record { gapless = h.gapless; counts = h.counts }) ops fresh_emitter
      (record { gapless = tt; counts = refl })).gapless
