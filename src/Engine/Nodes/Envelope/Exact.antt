-- ===== src/Engine/Nodes/Envelope/Exact.antt =====
-- Which attempt of a node's body, or which fallback, the envelope hands to the graph.
use autonomous_agentic_platf.Prelude.{
  ℕ, zero, suc, ◌+◌, ◌-◌, ◌≤◌, ◌<◌, ◌≡◌, refl, sym, ap, ◌∙◌, ◌⊎◌, inl, inr, true, false, Option,
  none, some, arith, ltb, Bool-cases,
}
use autonomous_agentic_platf.Engine.State.{RunPhase, Update, no_update}
use autonomous_agentic_platf.Engine.Nodes.Envelope.{
  FailurePolicy, fail_run, retry_then_report, degrade, degrade_deterministic, synthesise_fallback,
  best_effort, Attempt, raised, returned, is_fail_run, finalise, degraded_update, attempt_loop,
  attempts_of, run_node,
}
use autonomous_agentic_platf.Engine.Nodes.Envelope.Visits.{attempt-cases}

-- How often the body may be called, by the policies of the table in the module's docstring.
abbrev pub allowed : FailurePolicy → ℕ → ℕ
allowed retry_then_report retries = suc retries
allowed _ retries = 1

allowed-all :
    (policy : FailurePolicy) (retries : ℕ)
    → allowed policy retries ≡ 1 + (attempts_of policy retries - 1)
unfolding attempts_of
allowed-all fail_run retries = refl
allowed-all retry_then_report retries = omega arith
allowed-all degrade retries = refl
allowed-all degrade_deterministic retries = refl
allowed-all synthesise_fallback retries = refl
allowed-all best_effort retries = refl

allowed-once :
    (policy : FailurePolicy) (retries : ℕ)
    → is_fail_run policy ≡ true
    → attempts_of policy retries - 1 ≡ 0
unfolding attempts_of
allowed-once fail_run retries p = refl
allowed-once retry_then_report retries p = absurd (cc)
allowed-once degrade retries p = absurd (cc)
allowed-once degrade_deterministic retries p = absurd (cc)
allowed-once synthesise_fallback retries p = absurd (cc)
allowed-once best_effort retries p = absurd (cc)

equal_or_later : (first j : ℕ) → first ≤ j → (first ≡ j) ⊎ (first + 1 ≤ j)
equal_or_later first j l = elim (Bool-cases (ltb first j)) [
  | inl later ↦ inr (ground arith)
  | inr not_later ↦ inl (ground arith)
]

module _ {F : Type 0} where
  -- Every attempt from `first` on and before `stop` raises.
  abbrev pub AllRaise : (ℕ → Attempt F) → ℕ → ℕ → Type 0
  AllRaise body first stop = (j : ℕ) → first ≤ j → j < stop → body j ≡ raised

  -- What is handed over by the attempts from `first` to `last`, with `none` for an exception: the
  -- first one that returns; or, where each of them raises, the fallback if it returns and the empty
  -- update if there is none or it raises, but an exception under FAIL_RUN.
  pub data HandsOver (policy : FailurePolicy) (phase : RunPhase) (fallback : Option (Attempt F))
      (body : ℕ → Attempt F) (first last : ℕ) : Option (Update F) → Type 0 where
    by_attempt :
        (k : ℕ) (v : Update F)
        → first ≤ k
        → k ≤ last
        → body k ≡ returned v
        → AllRaise body first k
        → HandsOver policy phase fallback body first last (some (finalise v phase))
    by_fallback :
        (v : Update F)
        → is_fail_run policy ≡ false
        → AllRaise body first (last + 1)
        → fallback ≡ some (returned v)
        → HandsOver policy phase fallback body first last (some (finalise v phase))
    by_nothing :
        is_fail_run policy ≡ false
        → AllRaise body first (last + 1)
        → (fallback ≡ none) ⊎ (fallback ≡ some raised)
        → HandsOver policy phase fallback body first last (some (finalise no_update phase))
    by_raising :
        is_fail_run policy ≡ true
        → AllRaise body first (last + 1)
        → HandsOver policy phase fallback body first last none

  AllRaise-one :
      (body : ℕ → Attempt F) (first : ℕ) → body first ≡ raised → AllRaise body first (first + 1)
  AllRaise-one body first e j l u = let same : j ≡ first = omega arith in rw same e

  AllRaise-more :
      (body : ℕ → Attempt F) (first stop : ℕ)
      → body first ≡ raised
      → AllRaise body (first + 1) stop
      → AllRaise body first stop
  AllRaise-more body first stop e h j l u = elim (equal_or_later first j l) [
    | inl same ↦ ap body (sym same) ∙ e
    | inr later ↦ h j later u
  ]

  module _ (policy : FailurePolicy) (phase : RunPhase) (fallback : Option (Attempt F))
      (body : ℕ → Attempt F) where
    HandsOver-after :
        (first last : ℕ) (o : Option (Update F))
        → body first ≡ raised
        → HandsOver policy phase fallback body (first + 1) last o
        → HandsOver policy phase fallback body first last o
    HandsOver-after first last _ e (by_attempt k v l u ev h) =
        by_attempt k v (omega arith) u ev (AllRaise-more body first k e h)
    HandsOver-after first last _ e (by_fallback v p h ev) =
        by_fallback v p (AllRaise-more body first (last + 1) e h) ev
    HandsOver-after first last _ e (by_nothing p h ev) =
        by_nothing p (AllRaise-more body first (last + 1) e h) ev
    HandsOver-after first last _ e (by_raising p h) =
        by_raising p (AllRaise-more body first (last + 1) e h)

  degraded-HandsOver :
      (policy : FailurePolicy) (phase : RunPhase) (fallback : Option (Attempt F))
      (body : ℕ → Attempt F) (first last : ℕ)
      → is_fail_run policy ≡ false
      → AllRaise body first (last + 1)
      → HandsOver policy phase fallback body first last
          (some (finalise (degraded_update fallback) phase))
  unfolding degraded_update
  degraded-HandsOver policy phase none body first last p h = by_nothing p h (inl refl)
  degraded-HandsOver policy phase (some raised) body first last p h = by_nothing p h (inr refl)
  degraded-HandsOver policy phase (some (returned v)) body first last p h = by_fallback v p h refl

  module _ (policy : FailurePolicy) (phase : RunPhase) (fallback : Option (Attempt F))
      (body : ℕ → Attempt F) where
    attempt_loop-HandsOver :
        (left attempt last : ℕ)
        → last ≡ attempt + left
        → (is_fail_run policy ≡ true → left ≡ 0)
        → HandsOver policy phase fallback body attempt last
            (attempt_loop policy phase fallback left attempt body).update
    unfolding attempt_loop
    attempt_loop-HandsOver zero attempt last el f = elim (attempt-cases (body attempt)) [
      | inl (v, e) ↦
          rw (attempt_loop, e)
            (by_attempt attempt v (omega arith) (omega arith) e (λ j l u. absurd (omega arith)))
      | inr e ↦
          let h : AllRaise body attempt (last + 1) =
            λ j l u. AllRaise-one body attempt e j l (omega arith) in
          elim (Bool-cases (is_fail_run policy)) [
            | inl p ↦ rw (attempt_loop, e, p) (by_raising p h)
            | inr p ↦
                rw (attempt_loop, e, p)
                  (degraded-HandsOver policy phase fallback body attempt last p h)
          ]
    ]
    attempt_loop-HandsOver (suc left) attempt last el f = elim (attempt-cases (body attempt)) [
      | inl (v, e) ↦
          rw (attempt_loop, e)
            (by_attempt attempt v (omega arith) (omega arith) e (λ j l u. absurd (omega arith)))
      | inr e ↦ elim (Bool-cases (is_fail_run policy)) [
        | inl p ↦ absurd (let z : suc left ≡ 0 = f p in omega arith)
        | inr p ↦
            rw (attempt_loop, e, p)
              (HandsOver-after policy phase fallback body attempt last _ e
                (attempt_loop-HandsOver left (attempt + 1) last (omega arith) (λ q. absurd (cc))))
      ]
    ]

    -- With retries + 1 attempts under the policy RETRY_THEN_REPORT and one under any other, a
    -- node hands over the update of the first attempt that returns, finalised, which is with its
    -- phase and one visit more; if each attempt raises, it raises under FAIL_RUN, and under any
    -- other policy hands over the update of its fallback, or the empty one if it has none or that
    -- raises, finalised.
    pub run_node-HandsOver :
        (retries : ℕ)
        → HandsOver policy phase fallback body 1
            (allowed policy retries)
            (run_node policy phase fallback retries body).update
    unfolding run_node
    run_node-HandsOver retries =
        attempt_loop-HandsOver (attempts_of policy retries - 1) 1 (allowed policy retries)
          (allowed-all policy retries) (allowed-once policy retries)
