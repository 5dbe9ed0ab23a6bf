-- ===== src/Sandbox/Execute.antt =====
-- `execute`: one execution, with what it does to the container. A cancellation of the task that
-- awaits it is left out; the log files and the artifacts are those of Logs and of the disk.
use autonomous_agentic_platf.Prelude.{
  ℕ, ◌*◌, String, Bool, true, false, not, Option, none, some, List, [], ◌∷◌, ◌++◌, str_eq,
  if◌then◌else◌, is_none, ℤ, pos,
}
use autonomous_agentic_platf.Events.Emitter.{Text}
use autonomous_agentic_platf.Engine.State.{
  Classification, oom, timeout, clean, unknown_failure, runtime_error,
}
use autonomous_agentic_platf.Engine.Nodes.SandboxExec.{exited_zero}
use autonomous_agentic_platf.Gate.Verdict.{GateReport, Parsed, validate_source}
use autonomous_agentic_platf.Sandbox.Await.{
  ContainerState, Round, Waited, exited, killed, read_raises, kill_raises, out_of_fuel, await_exit,
}

-- The settings that the profiles are made of.
pub record Settings : Type 0 where
  pub sandbox_image : String
  pub sandbox_train_image : String
  pub sandbox_exec_memory : String
  pub sandbox_train_memory : String
  pub sandbox_exec_timeout_s : ℕ
  pub sandbox_train_timeout_s : ℕ

pub record SandboxProfile : Type 0 where
  pub profile_name : String
  pub image : String
  pub cpus : ℕ
  pub memory : String
  pub pids : ℕ
  pub timeout_s : ℕ
  pub nofile : ℕ
  pub network_mode : String

abbrev pub exec_sandbox : Settings → SandboxProfile
exec_sandbox settings = record {
  profile_name = "exec";
  image = settings.sandbox_image;
  cpus = 2;
  memory = settings.sandbox_exec_memory;
  pids = 128;
  timeout_s = settings.sandbox_exec_timeout_s;
  nofile = 1024;
  network_mode = "none";
}

abbrev pub train_sandbox : Settings → SandboxProfile
train_sandbox settings = record {
  profile_name = "train";
  image = settings.sandbox_train_image;
  cpus = 4;
  memory = settings.sandbox_train_memory;
  pids = 512;
  timeout_s = settings.sandbox_train_timeout_s;
  nofile = 4096;
  network_mode = "none";
}

-- `profile_for`, none where it raises.
unfoldable pub profile_for : Settings → String → Option SandboxProfile
profile_for settings profile =
    if str_eq profile "exec"
    then some (exec_sandbox settings)
    else if str_eq profile "train"
    then some (train_sandbox settings)
    else if str_eq profile "train-tracked"
    then some (record (train_sandbox settings) {
      profile_name = "train-tracked";
      network_mode = "sandbox_tracked_net";
    })
    else none

-- What the disk, the daemon and the clock answer in one execution.
pub record Host : Type 0 where
  pub run_id_is_uuid : Bool
  pub makes_directory : Bool
  pub stays_inside : Bool
  pub writes_files : Bool
  pub has_docker_sdk : Bool
  pub makes_client : Bool
  pub stale_container : Bool
  pub resolves_image : Bool
  pub creates_container : Bool
  pub starts_container : Bool
  pub rounds : ℕ → Round
  pub stats_interval : ℕ
  pub started_at : ℕ
  pub collects : Bool

pub data Prepared : Type 0 where
  prepared refused_path disk_error : Prepared

-- `_prepare_workdir`
abbrev pub prepare_workdir : Host → Prepared
prepare_workdir host =
    if not host.run_id_is_uuid
    then refused_path
    else if not host.makes_directory
    then disk_error
    else if not host.stays_inside
    then refused_path
    else if not host.writes_files
    then disk_error
    else prepared

-- What is asked of the daemon, whether it does it or not. The questions about the container of
-- this execution (its state, its statistics, its output) are none of them.
pub data Action : Type 0 where
  find_stale_container remove_stale_container : Action
  create_container start_container kill_container remove_container : Action

-- The parts of `SandboxResult` that the driver finds out itself.
pub record DriverResult : Type 0 where
  pub exit_code : Option ℤ
  pub timed_out : Bool
  pub oom_killed : Bool
  pub max_rss_bytes : Option ℕ
  pub validation : GateReport

pub data Executed : Type 0 where
  returned : (r : DriverResult) → Executed
  launch_error other_error : Executed
  still_waiting : Executed

-- The result, where metrics and artifacts can be read.
abbrev pub collect : Host → GateReport → Bool → ContainerState → Option ℕ → Executed
collect host report timed_out state max_rss =
    if host.collects
    then returned (record {
      exit_code = if timed_out then some (pos 137) else state.exit_code;
      timed_out = timed_out;
      oom_killed = state.oom_killed;
      max_rss_bytes = max_rss;
      validation = report;
    })
    else other_error

-- Behind the `try`.
abbrev pub settled : Host → GateReport → Waited → Executed
settled host report (exited state max_rss) = collect host report false state max_rss
settled host report (killed state max_rss) = collect host report true state max_rss
settled host report read_raises = other_error
settled host report kill_raises = other_error
settled host report out_of_fuel = still_waiting

abbrev pub kills : Waited → List Action
kills (killed state max_rss) = kill_container ∷ []
kills kill_raises = kill_container ∷ []
kills _ = []

-- From the start of the container on, by a clock in milliseconds, with the removal of the
-- `finally`.
abbrev pub run_container : Host → ℕ → GateReport → List Action × Executed
run_container host timeout_s report =
    let waited = await_exit host.rounds host.stats_interval host.started_at (timeout_s * 1000) in
    if host.starts_container
    then ((start_container ∷ kills waited) ++ remove_container ∷ [], settled host report waited)
    else ((start_container ∷ []) ++ remove_container ∷ [], launch_error)

-- `_remove_stale`: its failures are suppressed, also that of the removal.
abbrev pub remove_stale : Host → List Action
remove_stale host =
    find_stale_container ∷ (if host.stale_container then remove_stale_container ∷ [] else [])

-- `_create_container`, with what is asked, and whether it returns a container. Where it does not,
-- it raises SandboxLaunchError. A client that cannot be made is noticed behind `_remove_stale`,
-- which asks nothing then.
abbrev pub create_sandbox_container : Host → List Action × Bool
create_sandbox_container host =
    if not host.has_docker_sdk
    then ([], false)
    else if not host.makes_client
    then ([], false)
    else if not host.resolves_image
    then (remove_stale host, false)
    else (remove_stale host ++ create_container ∷ [], host.creates_container)

abbrev pub after_creation : Host → ℕ → GateReport → List Action × Bool → List Action × Executed
after_creation host timeout_s report (asked, created) =
    let (actions, executed) = run_container host timeout_s report in
    if created then (asked ++ actions, executed) else (asked, launch_error)

abbrev pub launch : Host → ℕ → GateReport → Prepared → List Action × Executed
launch host timeout_s report refused_path = ([], launch_error)
launch host timeout_s report disk_error = ([], other_error)
launch host timeout_s report prepared =
    after_creation host timeout_s report (create_sandbox_container host)

abbrev pub execute_checked : Host → ℕ → Option GateReport → List Action × Executed
execute_checked host timeout_s none = ([], other_error)
execute_checked host timeout_s (some report) =
    if report.passed then launch host timeout_s report (prepare_workdir host) else (
      [],
      returned (record {
        exit_code = none;
        timed_out = false;
        oom_killed = false;
        max_rss_bytes = none;
        validation = report;
      }),
    )

-- `execute`, once the profile is looked up.
abbrev pub execute_in :
    Host → (Text → Parsed) → List String → Text → Option SandboxProfile → List Action × Executed
execute_in host parse allowlist code none = ([], other_error)
execute_in host parse allowlist code (some prof) =
    execute_checked host prof.timeout_s (validate_source parse allowlist prof.profile_name code)

-- `execute`
unfoldable pub run_sandboxed :
    Settings → Host → (Text → Parsed) → List String → String → Text → List Action × Executed
unfolding profile_for
run_sandboxed settings host parse allowlist profile code =
    execute_in host parse allowlist code (profile_for settings profile)

-- `_classification`
unfoldable pub driver_classification : Bool → Bool → Option ℤ → Classification
driver_classification timed_out oom_killed exit_code =
    if oom_killed
    then oom
    else if timed_out
    then timeout
    else if exited_zero exit_code
    then clean
    else if is_none exit_code
    then unknown_failure
    else runtime_error
