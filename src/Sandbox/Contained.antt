-- ===== src/Sandbox/Contained.antt =====
-- What one execution does to containers, and what it runs.
use autonomous_agentic_platf.Prelude.{
  String, ◌≡◌, refl, sym, ◌∙◌, ◌↔◌, ◌⊎◌, Bool, true, false, not, ◌&&◌, ◌||◌, Option, none, some,
  List, [], if◌then◌else◌, is_none, is_empty,
}
use autonomous_agentic_platf.Events.Emitter.{Text}
use autonomous_agentic_platf.Engine.State.{
  Classification, oom, timeout, clean, unknown_failure, runtime_error, contract_violation,
}
use autonomous_agentic_platf.Engine.Nodes.SandboxExec.{
  exited_zero, SandboxResult, Problem, classify, looks_like_traceback,
}
use autonomous_agentic_platf.Gate.Verdict.{Parsed}
use autonomous_agentic_platf.Gate.Accepts.{within_bounds, accepted}
use autonomous_agentic_platf.Sandbox.Bracketed.{Bracketed}
use autonomous_agentic_platf.Sandbox.Execute.{
  Settings, SandboxProfile, profile_for, Host, Action, driver_classification,
}

-- The same, and anything is asked only for a program that the gate accepted.
abbrev pub Contained :
    Settings → Host → (Text → Parsed) → List String → String → Text → List Action → Type 0
Contained settings host parse allowlist profile code actions =
    Bracketed host actions
    × ((actions ≡ [])
        ⊎ ((prof : SandboxProfile) × ((profile_for settings profile ≡ some prof)
              × ((within_bounds code && accepted allowlist prof.profile_name (parse code))
                  ≡ true))))

-- The verdicts of a resource that both classifications know.
abbrev pub resource : Classification → Option Bool
resource timeout = some true
resource oom = some false
resource _ = none

driver_rest :
    (c n : Bool)
    → resource (if c then clean else if n then unknown_failure else runtime_error) ≡ none
driver_rest true n = refl
driver_rest false true = refl
driver_rest false false = refl

classify_rest :
    (c v t : Bool)
    → resource (
        if c
        then if v then contract_violation else clean
        else if t
        then runtime_error
        else unknown_failure)
      ≡ none
classify_rest true true t = refl
classify_rest true false t = refl
classify_rest false v true = refl
classify_rest false v false = refl

orders_agree :
    (t o : Bool) (x y : Classification)
    → resource x ≡ none
    → resource y ≡ none
    → (resource (if o then oom else if t then timeout else x)
        ≡ resource (if t then timeout else if o then oom else y))
      ↔ ((t && o) ≡ false)
orders_agree true true x y hx hy = (λ e. absurd (cc), λ e. absurd (cc))
orders_agree true false x y hx hy = (λ e. refl, λ e. refl)
orders_agree false true x y hx hy = (λ e. refl, λ e. refl)
orders_agree false false x y hx hy = (λ e. refl, λ e. hx ∙ sym hy)

module _ {F : Type 0} where
  -- For an execution whose program passed the gate, the class that the driver records and the
  -- class that the sandbox node routes on agree on whether it ran out of time, out of memory or
  -- neither, exactly if it was not both killed for its memory and out of time.
  pub driver_classification-classify :
      (r : SandboxResult F) (is_train : Bool) (problems : List Problem)
      → r.validation.passed ≡ true
      → (resource (driver_classification r.timed_out r.oom_killed r.exit_code)
          ≡ resource (classify r is_train problems))
        ↔ ((r.timed_out && r.oom_killed) ≡ false)
  unfolding driver_classification classify
  driver_classification-classify r is_train problems h = simp h (
      orders_agree r.timed_out r.oom_killed _ _
        (driver_rest (exited_zero r.exit_code) (is_none r.exit_code))
        (classify_rest (exited_zero r.exit_code)
          (is_train && (is_none r.metrics || not (is_empty problems)))
          (looks_like_traceback r.stderr_tail)))
