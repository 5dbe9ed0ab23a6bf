-- ===== src/Engine/Routing/Guard.antt =====
-- What `@guarded` lets through.
use autonomous_agentic_platf.Prelude.{
  ℕ, ◌+◌, ◌*◌, ◌≤◌, ◌<◌, ◌≡◌, ◌↔◌, ◌⊎◌, inl, inr, false, Option, none, some, arith, Bool-cases,
  Option-cases,
}
use autonomous_agentic_platf.Engine.NodeName.{NodeName}
use autonomous_agentic_platf.Engine.Routing.{
  guarded, exhausted_budget, exhausted_channels, elapsed_at_least, terminal_node,
}
use autonomous_agentic_platf.Engine.State.{AgentState, Usage, Budgets, tokens_total}

-- The run started less than `limit` seconds ago; one with no start has run for 0 seconds.
abbrev pub InTime : ℕ → Option ℕ → ℕ → Type 0
InTime now none limit = 0 < limit
InTime now (some started) limit = now < started + limit * 1_000_000

pub record HasBudget (now : ℕ) (u : Usage) (b : Budgets) : Type 0 where
  pub visits_left : u.node_visits < b.max_node_visits
  pub tokens_left : tokens_total u < b.max_tokens
  pub time_left : InTime now u.started_at b.wallclock_seconds

in_time :
    (now : ℕ) (started : Option ℕ) (limit : ℕ)
    → (elapsed_at_least now started limit ≡ false) ↔ InTime now started limit
in_time now none limit = (λ h. ground arith, λ h. ground arith)
in_time now (some t) limit = (λ h. ground arith, λ h. ground arith)

-- No budget is exhausted exactly when visits, tokens and time are all strictly below their
-- limits.
pub exhausted_budget-none :
    (now : ℕ) (u : Usage) (b : Budgets) → (exhausted_budget now u b ≡ none) ↔ HasBudget now u b
unfolding exhausted_budget
exhausted_budget-none now u b =
    let timed = in_time now u.started_at b.wallclock_seconds in
    (
      λ h. record {
        visits_left = ground arith;
        tokens_left = ground arith;
        time_left = timed.0 (ground arith);
      },
      λ h. ground (arith, timed.1 h.time_left),
    )

-- The guard is open: the run is not cancelled, and no budget that is known is exhausted.
pub record IsOpen {F : Type 0} (now : ℕ) (s : AgentState F) : Type 0 where
  pub not_cancelled : s.cancel_requested ≡ false
  pub affordable : exhausted_channels now s.usage s.budgets ≡ none

module _ {F : Type 0} (router : AgentState F → NodeName) (now : ℕ) (s : AgentState F) where
  pub guarded-IsOpen : IsOpen now s → guarded router now s ≡ router s
  unfolding guarded
  guarded-IsOpen h = ground arith

  -- A guarded router sends the run to the terminal node or where the router itself sends it.
  pub guarded-cases :
      (guarded router now s ≡ terminal_node) ⊎ (IsOpen now s × (guarded router now s ≡ router s))
  unfolding guarded
  guarded-cases = elim (Bool-cases s.cancel_requested) [
    | inl c ↦ inl (ground arith)
    | inr c ↦ elim (Option-cases (exhausted_channels now s.usage s.budgets)) [
      | inl e ↦ inr (record { not_cancelled = c; affordable = e }, ground arith)
      | inr (r, e) ↦ inl (ground arith)
    ]
  ]

  pub guarded-spent :
      (u : Usage) (b : Budgets)
      → s.usage ≡ some u
      → s.budgets ≡ some b
      → b.max_node_visits ≤ u.node_visits
      → guarded router now s ≡ terminal_node
  unfolding guarded exhausted_budget
  guarded-spent u b eu eb h = rw (eu, eb) (ground arith)
