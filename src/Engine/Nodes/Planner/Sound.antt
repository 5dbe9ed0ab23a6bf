-- ===== src/Engine/Nodes/Planner/Sound.antt =====
-- A plan without problems asks something of a run.
use mathlib.Core.Path.{subst}
use autonomous_agentic_platf.Prelude.{
  String, ◌≡◌, refl, ap, inl, inr, Bool, true, false, not, some, List, [], ◌∷◌, ◌++◌, arith,
  Bool-cases, any, All, Floats, joined,
}
use autonomous_agentic_platf.Engine.State.{
  Plan, SuccessCriterion, AgentState, MetricValue, SandboxOutcome, succeeded,
}
use autonomous_agentic_platf.Engine.Criteria.{determine_outcome, observed_metrics, plan_criteria}
use autonomous_agentic_platf.Engine.Criteria.Meets.{Meets, AllRequiredMet}
use autonomous_agentic_platf.Engine.Criteria.Outcome.{determine_outcome-succeeded}
use autonomous_agentic_platf.Engine.Nodes.Planner.Validation.{
  plan_checks, Problem, Manifest, problem_if, is_known_metric, metric_problems, validate_plan,
  none_required,
}

append-empty : {A : Type 0} (xs ys : List A) → xs ++ ys ≡ [] → (xs ≡ []) × (ys ≡ [])
append-empty [] ys h = (refl, h)
append-empty (x ∷ xs) ys h = absurd (cc)

joined-empty :
    {A : Type 0} (parts : List (List A)) → joined parts ≡ [] → All (λ part. part ≡ []) parts
joined-empty [] h = tt
joined-empty (part ∷ parts) h =
    let (here, there) = append-empty part (joined parts) h in (here, joined-empty parts there)

problem_if-empty : (b : Bool) (problem : Problem) → problem_if (not b) problem ≡ [] → b ≡ true
problem_if-empty true problem h = refl
problem_if-empty false problem h = absurd (cc)

metric_problems-empty :
    {F : Type 0} (cs : List (SuccessCriterion F))
    → metric_problems cs ≡ []
    → All (λ c. is_known_metric c.metric ≡ true) cs
unfolding metric_problems
metric_problems-empty [] h = tt
metric_problems-empty (c ∷ cs) h =
    let (here, there) = append-empty _ (metric_problems cs) h in
    (problem_if-empty (is_known_metric c.metric) _ here, metric_problems-empty cs there)

module _ (fl : Floats) where
  -- A criterion of the list that is required, named by the vocabulary, and met.
  abbrev pub SomeMet :
      List (String × MetricValue fl.Float) → List (SuccessCriterion fl.Float) → Type 0
  SomeMet metrics cs =
      (c : SuccessCriterion fl.Float) × (before after : List (SuccessCriterion fl.Float)) × (cs
        ≡ before ++ c ∷ after)
      × (c.required ≡ true)
      × (is_known_metric c.metric ≡ true)
      × Meets fl metrics c

  required-SomeMet :
      (metrics : List (String × MetricValue fl.Float)) (cs : List (SuccessCriterion fl.Float))
      → any (λ c. c.required) cs ≡ true
      → All (λ c. is_known_metric c.metric ≡ true) cs
      → AllRequiredMet fl metrics cs
      → SomeMet metrics cs
  required-SomeMet metrics [] some_required known met = absurd (cc)
  required-SomeMet metrics (c ∷ cs) some_required known met = elim (Bool-cases c.required) [
    | inl wanted ↦ elim met.0 [
      | inl optional ↦ absurd (cc)
      | inr met_here ↦ (c, [], cs, refl, wanted, known.0, met_here)
    ]
    | inr optional ↦
        let (d, before, after, split, wanted, vocabulary, met_there) =
          required-SomeMet metrics cs (ground arith) known.1 met.1 in
        (d, c ∷ before, after, ap (λ l. c ∷ l) split, wanted, vocabulary, met_there)
  ]

  -- Success is never vacuous under a plan that validate_plan has no problem with: if the outcome
  -- of the run is SUCCEEDED, its last execution met a criterion of the plan that is required and
  -- measures a metric of the vocabulary.
  pub validate_plan-SomeMet :
      (manifest : Manifest) (s : AgentState fl.Float) (plan : Plan fl.Float)
      → s.plan ≡ some plan
      → validate_plan manifest plan ≡ []
      → (determine_outcome fl s).0 ≡ succeeded
      → (o : SandboxOutcome fl.Float) × (s.last_outcome ≡ some o)
        × SomeMet (observed_metrics o.metrics) plan.success_criteria
  unfolding validate_plan plan_checks
  validate_plan-SomeMet manifest s plan planned valid won =
      let success = (determine_outcome-succeeded fl s).0 won in
      let (_, (required_problem, (_, (unknown, _)))) =
        joined-empty (plan_checks manifest plan) valid in
      (
        success.last,
        success.ran,
        required-SomeMet (observed_metrics success.last.metrics) plan.success_criteria
            (problem_if-empty _ none_required required_problem)
            (metric_problems-empty plan.success_criteria unknown)
            (subst
              (λ p. AllRequiredMet fl (observed_metrics success.last.metrics) (plan_criteria p))
              planned success.met),
      )
