-- ===== src/Worker/Lifecycle.antt =====
-- What the row of a run can become.
use autonomous_agentic_platf.Prelude.{
  String, ◌≡◌, ◌≢◌, ◌↔◌, ◌⊎◌, inl, inr, Bool, true, false, Option, none, some, [], ◌∷◌, ◌++◌, arith,
  Bool-cases, Option-cases,
}
use autonomous_agentic_platf.Engine.State.{failed as run_failed}
use autonomous_agentic_platf.Worker.{
  TaskStatus, pending, running, failed, interrupted, World, claim, finish, conclude, not_claimable,
  executing, begin, begin_locked, expire, reap, reap_row, resume_endpoint, accepted_202,
  conflict_409, cancel, is_terminal,
}

-- A job that starts a run goes on to its graph exactly when nobody holds the lock and the row is
-- pending, or there is no row and the job brings its own prompt.
pub begin-executing :
    (worker : String) (prompted : Bool) (w : World)
    → ((begin worker false prompted w).1 ≡ executing)
      ↔ ((w.lock ≡ none) × ((w.row ≡ some pending) ⊎ ((w.row ≡ none) × (prompted ≡ true))))
unfolding begin begin_locked claim
begin-executing worker prompted w = elim (Option-cases w.lock) [
  | inr (owner, l) ↦ (λ h. ground arith, λ h. ground arith)
  | inl l ↦ elim (Option-cases w.row) [
    | inl r ↦ elim (Bool-cases prompted) [
      | inl p ↦ (λ h. (l, inr (r, p)), λ h. ground arith)
      | inr p ↦ (λ h. ground arith, λ h. ground arith)
    ]
    | inr (s, r) ↦ (λ h. (l, inl (ground arith)), λ h. ground arith)
  ]
]

-- Of two jobs that start the same run, at most one goes on to the graph, even if the lock of the
-- first is lost in between.
pub begin-exclusive :
    (first second : String) (prompted : Bool) (s : TaskStatus) (w : World) (lost : Option String)
    → w.row ≡ some s
    → (begin first false prompted w).1 ≡ executing
    → (begin second false prompted (record (begin first false prompted w).0 { lock = lost })).1
      ≢ executing
unfolding begin begin_locked claim
begin-exclusive first second prompted s w lost r h e = ground arith

-- A job that starts a run whose row is no longer pending, such as one that was cancelled while it
-- was queued, does not run it where nobody holds the lock, but overwrites its status, whatever it
-- is, by FAILED, and announces a failure.
pub begin-overwrites :
    (worker : String) (prompted : Bool) (s : TaskStatus) (w : World)
    → w.row ≡ some s
    → s ≢ pending
    → w.lock ≡ none
    → let (after, began) = begin worker false prompted w in
      (began ≡ not_claimable)
      × (after.row ≡ some failed)
      × (after.terminal_events ≡ w.terminal_events ++ run_failed ∷ [])
unfolding begin begin_locked claim conclude finish
begin-overwrites worker prompted s w r p l = (ground arith, ground arith, ground arith)

-- A run that is resumed executes with the status PENDING: if its worker then dies and the lock
-- expires, the reaper leaves it as it is, and the resume endpoint refuses it.
pub begin-resumed :
    (worker : String) (prompted : Bool) (w : World)
    → (resume_endpoint w).1 ≡ accepted_202
    → let (resumed, began) = begin worker true prompted (resume_endpoint w).0 in
      (began ≡ executing)
      × (resumed.row ≡ some pending)
      × (reap (expire resumed) ≡ expire resumed)
      × ((resume_endpoint (expire resumed)).1 ≡ conflict_409)
unfolding begin begin_locked resume_endpoint reap reap_row
begin-resumed worker prompted w h = (ground arith, ground arith, ground arith, ground arith)

-- The reaper marks a run INTERRUPTED that was not so exactly when its row says RUNNING and nobody
-- holds its lock.
pub reap-interrupts :
    (w : World)
    → w.row ≢ some interrupted
    → ((reap w).row ≡ some interrupted) ↔ ((w.row ≡ some running) × (w.lock ≡ none))
unfolding reap reap_row
reap-interrupts w p = elim (Option-cases w.lock) [
  | inr (owner, l) ↦ (λ h. ground arith, λ h. ground arith)
  | inl l ↦ elim (Option-cases w.row) [
    | inl r ↦ (λ h. ground arith, λ h. ground arith)
    | inr (s, r) ↦ (λ h. (ground arith, l), λ h. ground arith)
  ]
]

-- A run that is completed or cancelled stays so under the reaper and both endpoints, which answer
-- with a conflict.
pub reap-settled :
    (w : World) (s : TaskStatus) (delivered : Bool)
    → w.row ≡ some s
    → is_terminal s ≡ true
    → s ≢ failed
    → (reap w ≡ w)
      × (cancel delivered w ≡ (w, conflict_409))
      × (resume_endpoint w ≡ (w, conflict_409))
unfolding reap reap_row cancel resume_endpoint
reap-settled w s delivered r t p = (ground arith, ground arith, ground arith)
