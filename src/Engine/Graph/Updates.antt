-- ===== src/Engine/Graph/Updates.antt =====
-- The updates of the bodies, and what each may write to the channels that the budgets bound.
use autonomous_agentic_platf.Engine.Graph.Bodies.{
  Answers, usage_of, coded_attempt, reporter_attempt, executed_attempt,
}
use autonomous_agentic_platf.Engine.Nodes.Reporter.{report_update, mlops_body}
use autonomous_agentic_platf.Engine.Nodes.Debugger.{diagnosis_update}
use autonomous_agentic_platf.Engine.Nodes.SandboxExec.{execution_update, SandboxResult}
use autonomous_agentic_platf.Engine.Nodes.Coder.{code_update, Answer, new_revision}
use autonomous_agentic_platf.Engine.Nodes.Researcher.{research_update}
use autonomous_agentic_platf.Prelude.{
  ◌+◌, ◌≡◌, refl, ◌⊎◌, inl, none, some, arith, Option, String, inr, Option-cases, Bool-cases,
  str_eq,
}
use autonomous_agentic_platf.Engine.NodeName.{NodeName, planner, debugger}
use autonomous_agentic_platf.Engine.State.{
  AgentState, Update, Usage, no_update, RunPhase, Diagnosis, Plan, CodeRevision, ContextPack,
  MLflowRef, ErrorRecord,
}
use autonomous_agentic_platf.Engine.Nodes.Envelope.{finalise, returned}
use autonomous_agentic_platf.Engine.Nodes.Envelope.Visits.{ReportsNoVisit}
use autonomous_agentic_platf.Engine.Nodes.Planner.{next_replan_count, plan_update}

module _ {F : Type 0} where
  -- The update leaves the budgets alone, and of the two loop counters it writes only the one that
  -- its node owns, to the next value.
  pub record Owns (n : NodeName) (s : AgentState F) (u : Update F) : Type 0 where
    pub keeps_budgets : u.budgets ≡ none
    pub debugs :
        (u.debug_iterations ≡ none)
        ⊎ ((n ≡ debugger) × (u.debug_iterations ≡ some (s.debug_iterations + 1)))
    pub replans :
        (u.replan_count ≡ none) ⊎ ((n ≡ planner) × (u.replan_count ≡ some (next_replan_count s)))

  -- The update of a body: it owns what it writes, and reports no visit.
  pub record FromBody (n : NodeName) (s : AgentState F) (u : Update F) : Type 0 where
    pub owns : Owns n s u
    pub no_visit : ReportsNoVisit u

  -- The update that leaves the envelope: it also counts one visit.
  pub record Counted (n : NodeName) (s : AgentState F) (u : Update F) : Type 0 where
    pub owned : Owns n s u
    pub spent : Usage
    pub reports : u.usage ≡ some spent
    pub one_visit : spent.node_visits ≡ 1

  pub no_update-FromBody : (n : NodeName) (s : AgentState F) → FromBody n s no_update
  no_update-FromBody n s = record {
    owns = record { keeps_budgets = refl; debugs = inl refl; replans = inl refl };
    no_visit = refl;
  }

  pub finalise-Counted :
      (n : NodeName) (s : AgentState F) (v : Update F) (phase : RunPhase)
      → FromBody n s v
      → Counted n s (finalise v phase)
  unfolding finalise
  finalise-Counted n s v phase h = record {
    owned = record {
      keeps_budgets = h.owns.keeps_budgets;
      debugs = h.owns.debugs;
      replans = h.owns.replans;
    };
    spent = _;
    reports = refl;
    one_visit = ground (arith, h.no_visit);
  }

  pub returned-FromBody :
      (n : NodeName) (s : AgentState F) (w v : Update F)
      → FromBody n s w
      → returned w ≡ returned v
      → FromBody n s v
  returned-FromBody n s w v h e = let same : w ≡ v = ground arith in rw same at h

  pub plan_update-FromBody :
      (s : AgentState F) (p : Plan F) (a : Answers F)
      → FromBody planner s (plan_update s p (usage_of a.spend))
  unfolding plan_update
  plan_update-FromBody s p a = record {
    owns = record { keeps_budgets = refl; debugs = inl refl; replans = inr (refl, refl) };
    no_visit = refl;
  }

  pub research_update-FromBody :
      (n : NodeName) (s : AgentState F) (p : ContextPack F) (u : Usage)
      → u.node_visits ≡ 0
      → FromBody n s (research_update p u)
  unfolding research_update
  research_update-FromBody n s p u h = record {
    owns = record { keeps_budgets = refl; debugs = inl refl; replans = inl refl };
    no_visit = h;
  }

  pub code_update-FromBody :
      (n : NodeName) (s : AgentState F) (r : CodeRevision) (a : Answers F)
      → FromBody n s (code_update r (usage_of a.spend))
  unfolding code_update
  code_update-FromBody n s r a = record {
    owns = record { keeps_budgets = refl; debugs = inl refl; replans = inl refl };
    no_visit = refl;
  }

  pub execution_update-FromBody :
      (n : NodeName) (s : AgentState F) (r : CodeRevision) (result : SandboxResult F)
      → (e : ErrorRecord) → FromBody n s (execution_update s r result e)
  unfolding execution_update
  execution_update-FromBody n s r result e = record {
    owns = record { keeps_budgets = refl; debugs = inl refl; replans = inl refl };
    no_visit = refl;
  }

  pub diagnosis_update-FromBody :
      (s : AgentState F) (d : Diagnosis F) (u : Usage)
      → u.node_visits ≡ 0
      → FromBody debugger s (diagnosis_update s d u)
  unfolding diagnosis_update
  diagnosis_update-FromBody s d u h = record {
    owns = record { keeps_budgets = refl; debugs = inr (refl, refl); replans = inl refl };
    no_visit = h;
  }

  pub report_update-FromBody :
      (n : NodeName) (s : AgentState F) (t : String) (u : Usage)
      → u.node_visits ≡ 0
      → FromBody n s (report_update t u)
  unfolding report_update
  report_update-FromBody n s t u h = record {
    owns = record { keeps_budgets = refl; debugs = inl refl; replans = inl refl };
    no_visit = h;
  }

  pub mlops_body-FromBody :
      (n : NodeName) (s : AgentState F) (ref : Option MLflowRef) (v : Update F)
      → mlops_body s ref ≡ returned v
      → FromBody n s v
  unfolding mlops_body
  mlops_body-FromBody n s none v h =
      returned-FromBody n s no_update v (no_update-FromBody n s) (ground arith)
  mlops_body-FromBody n s (some ref) v h =
      returned-FromBody n s (record no_update { mlflow = some (some ref) }) v
        (record {
          owns = record { keeps_budgets = refl; debugs = inl refl; replans = inl refl };
          no_visit = refl;
        })
        (ground arith)

  pub reporter_attempt-FromBody :
      (n : NodeName) (s : AgentState F) (t : Option String) (u : Usage) (v : Update F)
      → u.node_visits ≡ 0
      → reporter_attempt t u ≡ returned v
      → FromBody n s v
  reporter_attempt-FromBody n s none u v z h = absurd (ground arith)
  reporter_attempt-FromBody n s (some t) u v z h =
      returned-FromBody n s (report_update t u) v (report_update-FromBody n s t u z) h

  pub coded_attempt-FromBody :
      (n : NodeName) (s : AgentState F) (a : Answers F) (answer : Option Answer) (v : Update F)
      → coded_attempt a s answer ≡ returned v
      → FromBody n s v
  coded_attempt-FromBody n s a none v h = absurd (ground arith)
  coded_attempt-FromBody n s a (some answer) v h = elim (Option-cases answer.code) [
    | inl e ↦ absurd (ground arith)
    | inr (code, e) ↦ elim (Bool-cases (str_eq code "")) [
      | inl b ↦ absurd (ground arith)
      | inr b ↦
          returned-FromBody n s _ v
            (code_update-FromBody n s (new_revision s code a.sha256 answer) a) (ground arith)
    ]
  ]

  pub executed_attempt-FromBody :
      (n : NodeName) (s : AgentState F) (a : Answers F) (r : CodeRevision)
      → (result : Option (SandboxResult F)) (v : Update F)
      → executed_attempt a s r result ≡ returned v
      → FromBody n s v
  executed_attempt-FromBody n s a r none v h = absurd (ground arith)
  executed_attempt-FromBody n s a r (some result) v h =
      returned-FromBody n s _ v (execution_update-FromBody n s r result a.built_error) h
