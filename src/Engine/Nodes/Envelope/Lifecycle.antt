-- ===== src/Engine/Nodes/Envelope/Lifecycle.antt =====
-- The events of a node's life, in order.
use autonomous_agentic_platf.Prelude.{
  ℕ, zero, suc, ◌+◌, ◌-◌, ◌≤◌, ◌≡◌, Bool, true, false, Option, none, some, arith, count_if,
}
use autonomous_agentic_platf.Engine.State.{RunPhase, Update}
use autonomous_agentic_platf.Engine.Nodes.Envelope.{
  FailurePolicy, Attempt, NodeEvent, node_started, node_failed, node_completed, attempt_loop,
  run_node, Exit, attempts_of,
}

abbrev pub is_completed : NodeEvent → Bool
is_completed (node_completed degraded) = true
is_completed _ = false

abbrev pub is_failed : NodeEvent → Bool
is_failed (node_failed r) = true
is_failed _ = false

abbrev pub is_started : NodeEvent → Bool
is_started node_started = true
is_started _ = false

-- 1 if the node handed an update to the graph.
abbrev pub handed_over : {F : Type 0} → Option (Update F) → ℕ
handed_over none = 0
handed_over (some u) = 1

module _ {F : Type 0} (policy : FailurePolicy) (phase : RunPhase) (fallback : Option (Attempt F))
    (body : ℕ → Attempt F) where
  abbrev exit_of : ℕ → ℕ → Exit F
  exit_of left attempt = attempt_loop policy phase fallback left attempt body

  loop-completed :
      (left attempt : ℕ)
      → (count_if is_completed (exit_of left attempt).events
          ≡ handed_over (exit_of left attempt).update)
        × (count_if is_started (exit_of left attempt).events ≡ 0)
        × (count_if is_failed (exit_of left attempt).events ≤ left + 1)
  unfolding attempt_loop
  loop-completed zero attempt = ground arith
  loop-completed (suc left) attempt = ground (arith, loop-completed left (attempt + 1))

  -- Whatever the attempts do, the events of a visit hold one `node.started`, at most as many
  -- `node.failed` as attempts were allowed, and one `node.completed` if the node handed an update
  -- to the graph and none if it raised.
  pub run_node-events :
      (retries : ℕ)
      → let exit = run_node policy phase fallback retries body in
        (count_if is_started exit.events ≡ 1)
        × (count_if is_failed exit.events ≤ attempts_of policy retries)
        × (count_if is_completed exit.events ≡ handed_over exit.update)
  unfolding run_node
  run_node-events retries = ground (arith, loop-completed (attempts_of policy retries - 1) 1)
