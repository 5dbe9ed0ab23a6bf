-- ===== src/Engine/Criteria/Meets.antt =====
-- What it means for a criterion to be met, and that `check_criteria` decides it.
use autonomous_agentic_platf.Prelude.{
  [], Floats, List, String, ◌≡◌, ◌∷◌, lookup, Option, some, true, ◌↔◌, Bool-cases, refl, inl, arith,
  inr, none, map, false, ◌⊎◌,
}
use autonomous_agentic_platf.Engine.Criteria.{
  as_float, compare_float, check_one, judge, check_criteria, all_required,
}
use autonomous_agentic_platf.Engine.State.{SuccessCriterion, MetricValue}

module _ (fl : Floats) where
  open fl use {Float, is_finite}

  -- The metric is a number that was computed, and it compares with the threshold as asked.
  abbrev pub Meets : List (String × MetricValue Float) → SuccessCriterion Float → Type 0
  Meets metrics c =
      (x : Float) × (as_float fl (lookup c.metric metrics) ≡ some x)
      × (is_finite x ≡ true)
      × (compare_float fl c.comparator x c.threshold c.tolerance ≡ true)

  abbrev pub AllRequiredMet :
      List (String × MetricValue Float) → List (SuccessCriterion Float) → Type 0
  AllRequiredMet metrics [] = Unit
  AllRequiredMet metrics (c ∷ cs) =
      ((c.required ≡ false) ⊎ Meets metrics c) × AllRequiredMet metrics cs

  judge-Meets :
      (metrics : List (String × MetricValue Float)) (c : SuccessCriterion Float) (o : Option Float)
      → as_float fl (lookup c.metric metrics) ≡ o
      → ((judge fl c o).1 ≡ true) ↔ Meets metrics c
  unfolding judge
  judge-Meets metrics c none e = (λ h. cc, λ m. cc (m.1))
  judge-Meets metrics c (some x) e = elim (Bool-cases (is_finite x)) [
    | inl finite ↦ (λ h. (x, e, finite, ground arith), λ m. ground arith)
    | inr infinite ↦ (λ h. ground arith, λ m. ground arith)
  ]

  pub check_one-Meets :
      (metrics : List (String × MetricValue Float)) (c : SuccessCriterion Float)
      → ((check_one fl metrics c).passed ≡ true) ↔ Meets metrics c
  unfolding check_one
  check_one-Meets metrics c = judge-Meets metrics c _ refl

  required_results-AllRequiredMet :
      (metrics : List (String × MetricValue Float)) (cs : List (SuccessCriterion Float))
      → (all_required fl (map (check_one fl metrics) cs) ≡ true) ↔ AllRequiredMet metrics cs
  unfolding check_one
  required_results-AllRequiredMet metrics [] = (λ _. tt, λ _. refl)
  required_results-AllRequiredMet metrics (c ∷ cs) =
      let here = check_one-Meets metrics c in
      let there = required_results-AllRequiredMet metrics cs in
      elim (Bool-cases c.required) [
        | inl wanted ↦ (
          λ h. (inr (here.0 (ground arith)), there.0 (ground arith)),
          λ m. elim m.0 [
            | inl optional ↦ absurd (ground arith)
            | inr met ↦ ground (arith, here.1 met, there.1 m.1)
          ],
        )
        | inr optional ↦
            (λ h. (inl optional, there.0 (ground arith)), λ m. ground (arith, there.1 m.1))
      ]

  -- The second result of `check_criteria` is true exactly when every criterion that is marked
  -- required is met: its metric was written as a number that is finite and compares as asked.
  pub check_criteria-AllRequiredMet :
      (cs : List (SuccessCriterion Float)) (metrics : List (String × MetricValue Float))
      → ((check_criteria fl cs metrics).1 ≡ true) ↔ AllRequiredMet metrics cs
  unfolding check_criteria
  check_criteria-AllRequiredMet cs metrics = required_results-AllRequiredMet metrics cs
