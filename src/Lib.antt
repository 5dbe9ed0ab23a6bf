-- ===== src/Lib.antt =====
-- Pluton, an autonomous agent platform: the engine that turns a prompt into trained and judged
-- code. A run is a state (`AgentState`) that the nodes of a graph write: init, planner, researcher,
-- coder, sandbox_exec, debugger, mlops, evaluator, reporter, finalizer. Each node is wrapped by an
-- envelope (retries, failure policy, fallback, visit count), hands an update to the graph, the
-- graph folds it into the state by the channels' reducers, and a router that is wrapped by a guard
-- (cancellation and budgets) names the next node.
--
-- Which file models which part:
--   Prelude: the shared library: lists and tests that run, association lists for dicts, Python's
--     integers, and `Floats`, the operations on floats as a parameter.
--   Engine/State: backend/app/engine/state.py: the enums, the records, the channels with their
--     reducers (`apply_update`), `acyclic_and_ordered`, `next_pending_step` and `refine_cycles`.
--   Engine/Errors: `consecutive_repeats` of backend/app/engine/errors.py.
--   Engine/Routing: backend/app/engine/routing.py: `after_x` is the body of `route_after_x`, which
--     is `after_x` under `guarded`. Guard and Choices hold what they promise.
--   Engine/Criteria: backend/app/engine/criteria.py.
--   Engine/Evaluator: the deterministic half of backend/app/engine/nodes/evaluator.py.
--   Engine/Nodes: the envelope (backend/app/engine/nodes/base.py) and the other nodes: what each
--     decides and writes, and the checks of a new plan (Planner/Validation).
--   Engine/Graph: backend/app/engine/graph.py: edges, path maps, one super-step (`advance`), a run
--     (`run_from`) and what holds in every configuration that a run comes through (`Reach`).
--   Worker: the life of a run around the engine, one atomic step for each operation on its row in
--     Postgres and its lock in Redis: `execute_run` up to the graph and at its end
--     (backend/app/worker/jobs.py), the reaper (backend/app/worker/cron.py), cancel and resume
--     (backend/app/api/v1/runs.py). RunLock is the lock with its lease (backend/app/core/redis.py),
--     Backfill the retries of MLflow (backend/app/worker/cron.py).
--   Events: backend/app/engine/events.py: Emitter is `RunEmitter` with its coalescing of tokens,
--     Lines is `SandboxLineStreamer` and `truncate_line`; Entries is the format of an entry
--     (`append_event` and `decode_entry` of backend/app/core/redis.py).
--   Socket: backend/app/api/v1/websockets.py with `read_backlog` and `read_live` of
--     backend/app/core/redis.py and `matches_filter` of backend/app/schemas/events.py: one
--     connection (`Conn`), its loops, the reader task at each await, the cleanup (Session), and the
--     slots of a run (Quota).
--   Access: backend/app/core/security.py: the tickets of sockets.
--   Gate: backend/app/services/validator.py: the static gate over the syntax tree of a program.
--     Permitted holds the rules on one node, Accepts what passes.
--   Structured: backend/app/engine/structured.py: `salvage_json` (Salvage), `call_structured` with
--     its repairs (Ladder) and `extract_code_and_sidecar` (Sidecar).
--   Sandbox: backend/app/services/sandbox.py: `_await_exit`, `_pump_logs`, and `execute`, which runs
--     the gate of Gate, `_create_container` with `_remove_stale`, and the wait of Await, here
--     `run_sandboxed`.
--   Examples: concrete states on which the theorems are tried.
--
-- What a model, the sandbox, a store, the disk or the clock answers is an argument (`Answers`,
-- `Turn`), `none` where the call raises, so a theorem about runs holds for whatever they answer.
-- LangGraph itself is code of a third party: `advance` and `run_from` follow what it documents of
-- nodes, reducers, edges and path maps. An answer that a path map lacks is the value `unmapped`.
--
-- `run_from` is recursion on fuel, one unit for each super-step. `max_node_visits` (at least 1, as
-- the planner is visited in any case) + 3 units are always enough. The loop of a socket is recursion
-- on a number of rounds: it ends by itself or is cancelled there, which comes to the same cleanup.
-- `await_exit` has one unit of fuel for each unit of its timeout and one more, which is enough where
-- the clock moves at each turn.
--
-- Left out: prompts and other prose, logging, metrics and timings, the `metadata` and `messages`
-- channels, files, the database, the checkpointer, LangGraph's own limit on super-steps, the run
-- summary and the trimming of the stream, authentication by the first frame, the limit of
-- connections for the whole server, the control listener, the rest of the HTTP interface, the files
-- of the sandbox and the arguments of its containers.
pub mod Prelude
pub mod Engine
pub mod Worker
pub mod Events
pub mod Socket
pub mod Access
pub mod Gate
pub mod Structured
pub mod Sandbox
pub mod Examples
