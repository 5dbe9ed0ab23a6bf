-- ===== src/Engine/Nodes/Envelope.antt =====
-- The `@node` envelope of backend/app/engine/nodes/base.py: attempts, the failure policy, the
-- fallback, the visit count, and the lifecycle events. The `metadata` note of a degraded node, the
-- logs and the timings are left out.
pub mod Visits
pub mod Exact
pub mod Lifecycle
use autonomous_agentic_platf.Prelude.{
  [], ℕ, zero, suc, ◌+◌, ◌-◌, Bool, true, false, Option, none, some, List, ◌∷◌, ◌++◌, if◌then◌else◌,
  or_else,
}
use autonomous_agentic_platf.Engine.State.{RunPhase, Update, no_usage, no_update}

pub data FailurePolicy : Type 0 where
  fail_run retry_then_report degrade degrade_deterministic synthesise_fallback : FailurePolicy
  best_effort : FailurePolicy

-- What one call of the node's body does.
pub data Attempt (F : Type 0) : Type 0 where
  returned : Update F → Attempt F
  raised : Attempt F

-- The `node.*` events, as the envelope emits them.
pub data NodeEvent : Type 0 where
  node_started : NodeEvent
  node_failed : (will_retry : Bool) → NodeEvent
  node_retrying : (attempt max_attempts : ℕ) → NodeEvent
  node_completed : (degraded : Bool) → NodeEvent

-- `none` for the exception that leaves the envelope.
pub record Exit (F : Type 0) : Type 0 where
  pub update : Option (Update F)
  pub events : List NodeEvent

abbrev pub is_retry : FailurePolicy → Bool
is_retry retry_then_report = true
is_retry _ = false

abbrev pub is_fail_run : FailurePolicy → Bool
is_fail_run fail_run = true
is_fail_run _ = false

-- The number of attempts that the wrapper allows, at least one.
unfoldable pub attempts_of : FailurePolicy → ℕ → ℕ
attempts_of policy retries = if is_retry policy then 1 + retries else 1

module _ {F : Type 0} where
  -- `_finalise`: stamp the phase, and add this visit to the usage that the node reported.
  unfoldable pub finalise : Update F → RunPhase → Update F
  finalise update phase =
      let reported = or_else update.usage no_usage in
      record update {
        phase = some (some phase);
        usage = some (record reported { node_visits = reported.node_visits + 1 });
      }

  -- A node's fallback is `none` where it declares none, and `some raised` where it raises.
  -- `{**_degrade(…), **_synthesise(…)}`, below the `metadata` that `_degrade` writes.
  unfoldable pub degraded_update : Option (Attempt F) → Update F
  degraded_update none = no_update
  degraded_update (some raised) = no_update
  degraded_update (some (returned u)) = u

  abbrev pub with_events : List NodeEvent → Exit F → Exit F
  with_events events exit = record { update = exit.update; events = events ++ exit.events }

  -- The code below the loop, reached by its `break`.
  abbrev pub degraded_exit : RunPhase → Option (Attempt F) → Exit F
  degraded_exit phase fallback = record {
    update = some (finalise (degraded_update fallback) phase);
    events = node_completed true ∷ [];
  }

  abbrev pub completed_exit : RunPhase → Update F → Exit F
  completed_exit phase update = record {
    update = some (finalise update phase);
    events = node_completed false ∷ [];
  }

  abbrev pub raising_exit : Exit F
  raising_exit = record { update = none; events = [] }

  -- The `for attempt in range(1, attempts + 1)` loop from `attempt` on, with `left` attempts
  -- after it: `attempts` is their sum.
  unfoldable pub attempt_loop :
      FailurePolicy → RunPhase → Option (Attempt F) → (left attempt : ℕ) → (ℕ → Attempt F) → Exit F
  attempt_loop policy phase fallback zero attempt body = elim (body attempt) [
    | returned update ↦ completed_exit phase update
    | raised ↦
        with_events (node_failed false ∷ [])
          (if is_fail_run policy then raising_exit else degraded_exit phase fallback)
  ]
  attempt_loop policy phase fallback (suc left) attempt body =
      let rest = attempt_loop policy phase fallback left (attempt + 1) body in
      elim (body attempt) [
        | returned update ↦ completed_exit phase update
        | raised ↦ with_events (node_failed true ∷ []) (
            if is_fail_run policy
            then raising_exit
            else with_events (node_retrying (attempt + 1) (attempt + suc left) ∷ []) rest)
      ]

  -- `_run_attempts`
  unfoldable pub run_attempts :
      FailurePolicy → RunPhase → Option (Attempt F) → ℕ → (ℕ → Attempt F) → Exit F
  unfolding attempt_loop
  run_attempts policy phase fallback attempts body =
      with_events (node_started ∷ []) (attempt_loop policy phase fallback (attempts - 1) 1 body)

  -- The wrapper, with the configured number of retries.
  unfoldable pub run_node :
      FailurePolicy → RunPhase → Option (Attempt F) → ℕ → (ℕ → Attempt F) → Exit F
  unfolding run_attempts attempts_of
  run_node policy phase fallback retries body =
      run_attempts policy phase fallback (attempts_of policy retries) body
