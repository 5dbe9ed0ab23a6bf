-- ===== src/Engine/Nodes/Envelope/Visits.antt =====
-- Every way out of the envelope but the raising one counts exactly one visit.
use autonomous_agentic_platf.Prelude.{
  ℕ, zero, suc, ◌+◌, ◌≡◌, refl, ◌≢◌, ◌⊎◌, inl, inr, true, false, Option, none, some, arith,
  Bool-cases, or_else,
}
use autonomous_agentic_platf.Engine.State.{RunPhase, Update, no_usage, no_update}
use autonomous_agentic_platf.Engine.Nodes.Envelope.{
  FailurePolicy, Attempt, raised, returned, is_fail_run, finalise, degraded_update, attempt_loop,
  run_node,
}

module _ {F : Type 0} where
  -- An update that reports no visit of its own, as the body of every node returns.
  abbrev pub ReportsNoVisit : Update F → Type 0
  ReportsNoVisit u = (or_else u.usage no_usage).node_visits ≡ 0

  -- What the envelope hands to the graph: the update of an attempt or of the fallback, finalised.
  pub data IsFinal (fallback : Option (Attempt F)) (phase : RunPhase) (body : ℕ → Attempt F)
      (u : Update F) : Type 0 where
    of_body :
        (k : ℕ) (v : Update F)
        → body k ≡ returned v
        → u ≡ finalise v phase
        → IsFinal fallback phase body u
    of_fallback :
        (v : Update F)
        → fallback ≡ some (returned v)
        → u ≡ finalise v phase
        → IsFinal fallback phase body u
    of_nothing : u ≡ finalise no_update phase → IsFinal fallback phase body u

  fallback-IsFinal :
      (fallback : Option (Attempt F)) (phase : RunPhase) (body : ℕ → Attempt F)
      → IsFinal fallback phase body (finalise (degraded_update fallback) phase)
  unfolding degraded_update
  fallback-IsFinal none phase body = of_nothing refl
  fallback-IsFinal (some raised) phase body = of_nothing refl
  fallback-IsFinal (some (returned v)) phase body = of_fallback v refl refl

  pub attempt-cases : (a : Attempt F) → ((v : Update F) × (a ≡ returned v)) ⊎ (a ≡ raised)
  attempt-cases (returned v) = inl (v, refl)
  attempt-cases raised = inr refl

  module _ (policy : FailurePolicy) (phase : RunPhase) (fallback : Option (Attempt F))
      (body : ℕ → Attempt F) where
    attempt_loop-IsFinal :
        (left attempt : ℕ) (u : Update F)
        → (attempt_loop policy phase fallback left attempt body).update ≡ some u
        → IsFinal fallback phase body u
    unfolding attempt_loop
    attempt_loop-IsFinal zero attempt u h = elim (attempt-cases (body attempt)) [
      | inl (v, e) ↦ of_body attempt v e (ground arith)
      | inr e ↦ elim (Bool-cases (is_fail_run policy)) [
        | inl p ↦ absurd (ground arith)
        | inr p ↦
            let same : finalise (degraded_update fallback) phase ≡ u = ground arith in
            rw same at (fallback-IsFinal fallback phase body)
      ]
    ]
    attempt_loop-IsFinal (suc left) attempt u h = elim (attempt-cases (body attempt)) [
      | inl (v, e) ↦ of_body attempt v e (ground arith)
      | inr e ↦ elim (Bool-cases (is_fail_run policy)) [
        | inl p ↦ absurd (ground arith)
        | inr p ↦ attempt_loop-IsFinal left (attempt + 1) u (ground arith)
      ]
    ]

    -- What leaves the envelope, if it does not raise, is the finalised update of one attempt or
    -- of the fallback, or the finalised empty update.
    pub run_node-IsFinal :
        (retries : ℕ) (u : Update F)
        → (run_node policy phase fallback retries body).update ≡ some u
        → IsFinal fallback phase body u
    unfolding run_node
    run_node-IsFinal retries u h = attempt_loop-IsFinal _ 1 u h

    attempt_loop-raises :
        (left attempt : ℕ)
        → is_fail_run policy ≡ false
        → (attempt_loop policy phase fallback left attempt body).update ≢ none
    unfolding attempt_loop
    attempt_loop-raises zero attempt p h = ground arith
    attempt_loop-raises (suc left) attempt p h =
        ground (arith, attempt_loop-raises left (attempt + 1) p)

    -- Only a node whose policy is FAIL_RUN lets an exception out.
    pub run_node-raises :
        (retries : ℕ)
        → (run_node policy phase fallback retries body).update ≡ none
        → is_fail_run policy ≡ true
    unfolding run_node
    run_node-raises retries h = elim (Bool-cases (is_fail_run policy)) [
      | inl p ↦ p
      | inr p ↦ absurd (attempt_loop-raises _ 1 p h)
    ]
