-- ===== src/Examples/Worker.antt =====
-- The theorems on the life of a run, at concrete rows and locks.
use autonomous_agentic_platf.Prelude.{◌≡◌, refl, ◌≢◌, true, false, none, some, [], ◌∷◌, arith}
use autonomous_agentic_platf.Worker.{
  TaskStatus, pending, failed, cancelled, interrupted, World, not_claimable, executing, begin,
  expire, reap, cancel, resume_endpoint, conflict_409, begin_locked, claim,
}
use autonomous_agentic_platf.Worker.Lifecycle.{begin-exclusive, begin-overwrites, begin-resumed}
use autonomous_agentic_platf.Engine.State.{failed as run_failed, cancelled as run_cancelled}

abbrev world_of : TaskStatus → World
world_of s = record { row = some s; lock = none; terminal_events = [] }

begin-exclusive_example :
    (begin "w2" false false
      (record (begin "w1" false false (world_of pending)).0 { lock = none })).1
    ≢ executing
unfolding begin begin_locked claim
begin-exclusive_example = begin-exclusive "w1" "w2" false pending (world_of pending) none refl refl

-- Cancelled while it waits in the queue.
abbrev cancelled_in_queue : World
cancelled_in_queue = record (world_of cancelled) { terminal_events = run_cancelled ∷ [] }

cancel_queued : (cancel false (world_of pending)).0 ≡ cancelled_in_queue
unfolding cancel
cancel_queued = refl

begin-overwrites_example :
    let (after, began) = begin "w1" false false cancelled_in_queue in
    (began ≡ not_claimable)
    × (after.row ≡ some failed)
    × (after.terminal_events ≡ run_cancelled ∷ run_failed ∷ [])
begin-overwrites_example =
    begin-overwrites "w1" false cancelled cancelled_in_queue refl (λ e. ground arith) refl

begin-resumed_example :
    let (resumed, began) = begin "w1" true false (resume_endpoint (world_of interrupted)).0 in
    (began ≡ executing)
    × (resumed.row ≡ some pending)
    × (reap (expire resumed) ≡ expire resumed)
    × ((resume_endpoint (expire resumed)).1 ≡ conflict_409)
unfolding resume_endpoint
begin-resumed_example = begin-resumed "w1" false (world_of interrupted) refl
