-- ===== src/Worker.antt =====
-- The life of one run outside the engine: the row in Postgres, the execution lock in Redis and the
-- terminal events, as backend/app/worker/jobs.py (`execute_run`), backend/app/worker/cron.py
-- (`reap_interrupted_runs`) and backend/app/api/v1/runs.py (cancel, resume) write them. Postgres and
-- Redis answer; each operation here is one atomic step, and an interleaving is a sequence of
-- steps. Other fields of the row and the payloads of the events are left out.
pub mod Lifecycle
pub mod RunLock
pub mod Backfill
use autonomous_agentic_platf.Prelude.{
  ℕ, zero, suc, ◌+◌, ◌-◌, ◌*◌, ◌≤◌, ◌<◌, min, max, String, ◌≡◌, refl, sym, ap, ◌∙◌, ◌≢◌, ◌↔◌, ◌⊎◌,
  inl, inr, Bool, true, false, not, ◌&&◌, ◌||◌, Option, none, some, List, [], ◌∷◌, ◌++◌, map,
  reverse, arith, eq_iff, str_eq, ltb, leb, ◌==◌, if◌then◌else◌, ltb→lt, lt→ltb, leb→le, le→leb,
  Bool-cases, Option-cases, or_else, is_some, is_none, length, is_empty, all, any, select, find?,
  count_if, length-append, count_if-append, count_if-le-length, All, All-append, All-reverse,
  length-reverse, contains, lookup, insert, merge, ℤ, pos, negsuc, Floats,
}
use autonomous_agentic_platf.Engine.State.{
  RunOutcome, succeeded, partial, failed as run_failed, cancelled as run_cancelled,
}

pub data TaskStatus : Type 0 where
  pending running completed failed cancelled interrupted : TaskStatus

-- `row` is none where there is no such task; `lock` is the worker that holds the lock.
pub record World : Type 0 where
  pub row : Option TaskStatus
  pub lock : Option String
  pub terminal_events : List RunOutcome

-- `_OUTCOME_STATUS`
abbrev pub outcome_status : RunOutcome → TaskStatus
outcome_status succeeded = completed
outcome_status partial = completed
outcome_status run_failed = failed
outcome_status run_cancelled = cancelled

abbrev pub is_pending_status : TaskStatus → Bool
is_pending_status pending = true
is_pending_status _ = false

abbrev pub is_running : TaskStatus → Bool
is_running running = true
is_running _ = false

-- `_claim`: the row after the conditional update, and whether a row was updated.
unfoldable pub claim : TaskStatus → TaskStatus × Bool
claim s = if is_pending_status s then (running, true) else (s, false)

-- `_finish`: the update has no condition on the status.
unfoldable pub finish : RunOutcome → Option TaskStatus → Option TaskStatus
finish outcome none = none
finish outcome (some s) = some (outcome_status outcome)

abbrev holds : String → Option String → Bool
holds worker none = false
holds worker (some owner) = str_eq owner worker

-- The `finally` of `execute_run`: the terminal state, the terminal event, and the lock's release.
unfoldable pub conclude : String → RunOutcome → World → World
unfolding finish
conclude worker outcome w = record {
  row = finish outcome w.row;
  lock = if holds worker w.lock then none else w.lock;
  terminal_events = w.terminal_events ++ outcome ∷ [];
}

-- How far a job came before its graph.
pub data Began : Type 0 where
  skipped_locked not_found not_claimable executing : Began

-- `execute_run` from the claim on, once the lock is held.
unfoldable pub begin_locked : String → (resume : Bool) → Option TaskStatus → World → World × Began
unfolding conclude claim
begin_locked worker resume none w = (w, executing)
begin_locked worker resume (some s) w =
    if resume
    then (w, executing)
    else if (claim s).1
    then (record w { row = some (claim s).0 }, executing)
    else (conclude worker run_failed w, not_claimable)

-- `execute_run` up to the graph. `prompted` says that the job brings a prompt of its own.
unfoldable pub begin : String → (resume prompted : Bool) → World → World × Began
unfolding begin_locked
begin worker resume prompted w =
    if is_some w.lock
    then (w, skipped_locked)
    else if is_none w.row && not prompted
    then (conclude worker run_failed (record w { lock = some worker }), not_found)
    else begin_locked worker resume w.row (record w { lock = some worker })

-- The lock of a worker that died expires.
abbrev pub expire : World → World
expire w = record w { lock = none }

-- `reap_interrupted_runs`, on this run.
unfoldable pub reap_row : Option TaskStatus → World → World
reap_row none w = w
reap_row (some s) w =
    if is_running s
    then record w { row = some interrupted; terminal_events = w.terminal_events ++ run_failed ∷ [] }
    else w

unfoldable pub reap : World → World
unfolding reap_row
reap w = if is_some w.lock then w else reap_row w.row w

abbrev pub is_terminal : TaskStatus → Bool
is_terminal completed = true
is_terminal failed = true
is_terminal cancelled = true
is_terminal _ = false

-- What an endpoint answers.
pub data Answer : Type 0 where
  not_found_404 conflict_409 accepted_202 : Answer

-- `cancel_run`; `delivered` says that a worker heard the signal.
unfoldable pub cancel : (delivered : Bool) → World → World × Answer
cancel delivered w = elim w.row [
  | none ↦ (w, not_found_404)
  | some s ↦ if is_terminal s then (w, conflict_409) else if delivered then (w, accepted_202) else (
    record w { row = some cancelled; terminal_events = w.terminal_events ++ run_cancelled ∷ [] },
    accepted_202,
  )
]

-- `RESUMABLE`
abbrev pub is_resumable : TaskStatus → Bool
is_resumable interrupted = true
is_resumable failed = true
is_resumable _ = false

-- `resume_run_endpoint`; where it accepts, it also enqueues a job with `resume=True`.
unfoldable pub resume_endpoint : World → World × Answer
resume_endpoint w = elim w.row [
  | none ↦ (w, not_found_404)
  | some s ↦
      if not (is_resumable s)
      then (w, conflict_409)
      else if is_some w.lock
      then (w, conflict_409)
      else (record w { row = some pending }, accepted_202)
]
