-- ===== src/Examples/Sandbox.antt =====
-- The driver of the sandbox, at a container that does not stop.
use autonomous_agentic_platf.Prelude.{
  ℕ, ◌+◌, ◌*◌, ◌≡◌, refl, ◌↔◌, true, false, none, some, List, [], ◌∷◌, arith, ℤ, pos,
}
use autonomous_agentic_platf.Events.Emitter.{Text}
use autonomous_agentic_platf.Engine.Nodes.SandboxExec.{SandboxResult, classify}
use autonomous_agentic_platf.Examples.{result_of}
use autonomous_agentic_platf.Gate.Tree.{constant, text_value}
use autonomous_agentic_platf.Gate.Verdict.{GateReport, Parsed, parsed}
use autonomous_agentic_platf.Sandbox.Await.{ContainerState, Round, await_exit}
use autonomous_agentic_platf.Sandbox.Bounded.{Advances, EndsSoundly, await_exit-EndsSoundly}
use autonomous_agentic_platf.Sandbox.Logs.{Bytes, no_capture, pump_logs}
use autonomous_agentic_platf.Sandbox.Capped.{IsCapped, pump_logs-IsCapped}
use autonomous_agentic_platf.Sandbox.Execute.{
  Settings, Host, launch, prepared, find_stale_container, remove_stale_container,
  driver_classification, create_container, start_container, kill_container, remove_container,
}
use autonomous_agentic_platf.Sandbox.Contained.{Contained, resource, driver_classification-classify}

abbrev running : ContainerState
running = record { status = "running"; exit_code = none; oom_killed = false }

abbrev stopped : ContainerState
stopped = record { status = "exited"; exit_code = some (pos 137); oom_killed = false }

-- The clock shows 100 at first, and 250 more at each turn.
abbrev rounds : ℕ → Round
rounds i = record {
  state = some running;
  now = 100 + 250 * i;
  sample = some (i + 5);
  state_after_kill = some stopped;
}

rounds-Advances : Advances 100 rounds
rounds-Advances = record { begins = omega arith; goes_on = λ i. omega arith }

await_exit-EndsSoundly_example : EndsSoundly rounds (100 + 1000) (await_exit rounds 2000 100 1000)
await_exit-EndsSoundly_example = await_exit-EndsSoundly rounds 2000 100 1000 rounds-Advances

-- Two chunks of output, of which the second does not fit, and one of errors.
abbrev stream : List (Bytes × Bytes)
stream = (1 ∷ 2 ∷ [], []) ∷ ([], 9 ∷ []) ∷ (3 ∷ 4 ∷ [], []) ∷ []

pump_logs-IsCapped_example :
    let s = pump_logs 3 stream (record { stdout = no_capture; stderr = no_capture }) in
    IsCapped 3 (1 ∷ 2 ∷ 3 ∷ 4 ∷ []) s.stdout.file × IsCapped 3 (9 ∷ []) s.stderr.file
pump_logs-IsCapped_example = pump_logs-IsCapped 3 stream

-- A chunk that fills the log to its limit leaves no note, and what comes behind it is lost.
no_note :
    (pump_logs 2 stream (record { stdout = no_capture; stderr = no_capture })).stdout.file
    ≡ 1 ∷ 2 ∷ []
unfolding pump_logs
no_note = refl

abbrev settings : Settings
settings = record {
  sandbox_image = "exec:1";
  sandbox_train_image = "train:1";
  sandbox_exec_memory = "2g";
  sandbox_train_memory = "6g";
  sandbox_exec_timeout_s = 1;
  sandbox_train_timeout_s = 900;
}

abbrev host : Host
host = record {
  run_id_is_uuid = true;
  makes_directory = true;
  stays_inside = true;
  writes_files = true;
  has_docker_sdk = true;
  makes_client = true;
  stale_container = true;
  resolves_image = true;
  creates_container = true;
  starts_container = true;
  rounds = rounds;
  stats_interval = 2000;
  started_at = 100;
  collects = true;
}

abbrev accepted_report : GateReport
accepted_report = record {
  passed = true;
  rejections = [];
  warnings = [];
  imports_seen = [];
  writes_metrics_json = true;
}

abbrev parse_text : Text → Parsed
parse_text source = parsed (constant (text_value "hello"))

-- It is killed at its deadline, and what an earlier attempt left is removed first.
killed_at_deadline :
    (launch host 1 accepted_report prepared).0
    ≡ find_stale_container ∷ remove_stale_container ∷ create_container ∷ start_container
      ∷ kill_container ∷ remove_container ∷ []
unfolding await_exit
killed_at_deadline = refl

-- Out of memory and out of time: the driver says the one and the node the other.
abbrev both : SandboxResult ℤ
both = record (result_of (pos 137) 0) { timed_out = true; oom_killed = true }

driver_classification-classify_example :
    (resource (driver_classification true true (some (pos 137))) ≡ resource (classify both true []))
    ↔ (true ≡ false)
driver_classification-classify_example = driver_classification-classify both true [] refl
