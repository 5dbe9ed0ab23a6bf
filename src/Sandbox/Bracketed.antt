-- ===== src/Sandbox/Bracketed.antt =====
-- What one execution asks of the daemon, and in which order.
use autonomous_agentic_platf.Prelude.{
  ℕ, ◌*◌, ◌≡◌, refl, sym, ◌⊎◌, inl, inr, Bool, true, false, not, Option, none, some, List, [], ◌∷◌,
  ◌++◌, if◌then◌else◌, Bool-cases,
}
use autonomous_agentic_platf.Gate.Verdict.{GateReport}
use autonomous_agentic_platf.Sandbox.Await.{
  Waited, exited, killed, read_raises, kill_raises, out_of_fuel, await_exit,
}
use autonomous_agentic_platf.Sandbox.Execute.{
  Host, Prepared, refused_path, disk_error, prepared, prepare_workdir, Action, find_stale_container,
  remove_stale_container, remove_stale, after_creation, create_container, start_container,
  kill_container, remove_container, Executed, kills, run_container, launch, execute_checked,
}
use mathlib.Core.Path.{subst}

-- What is asked of the daemon in one execution: nothing; or it is asked for a container that an
-- earlier attempt left, and to remove that if there is one, and then for nothing more, if the image
-- is not listed; for a container that it fails to create; or for one container, for its start,
-- perhaps for its end, and for its removal.
pub data Bracketed (host : Host) : List Action → Type 0 where
  asks_nothing : Bracketed host []
  only_clears :
      (stale : List Action)
      → stale
        ≡ find_stale_container ∷ (if host.stale_container then remove_stale_container ∷ [] else [])
      → host.resolves_image ≡ false
      → Bracketed host stale
  not_created :
      (stale : List Action)
      → stale
        ≡ find_stale_container ∷ (if host.stale_container then remove_stale_container ∷ [] else [])
      → host.creates_container ≡ false
      → Bracketed host (stale ++ create_container ∷ [])
  created :
      (stale middle : List Action)
      → stale
        ≡ find_stale_container ∷ (if host.stale_container then remove_stale_container ∷ [] else [])
      → (middle ≡ start_container ∷ []) ⊎ (middle ≡ start_container ∷ kill_container ∷ [])
      → host.creates_container ≡ true
      → Bracketed host ((stale ++ create_container ∷ []) ++ (middle ++ remove_container ∷ []))

kills_cases :
    (waited : Waited)
    → (start_container ∷ kills waited ≡ start_container ∷ [])
      ⊎ (start_container ∷ kills waited ≡ start_container ∷ kill_container ∷ [])
kills_cases (exited state max_rss) = inl refl
kills_cases (killed state max_rss) = inr refl
kills_cases read_raises = inl refl
kills_cases kill_raises = inr refl
kills_cases out_of_fuel = inl refl

either_way :
    (host : Host) (c : Bool) (x y : List Action × Executed)
    → Bracketed host x.0
    → Bracketed host y.0
    → Bracketed host (if c then x else y).0
either_way host true x y hx hy = hx
either_way host false x y hx hy = hy

-- What `run_container` asks for, between the start and the removal.
run_container-asks :
    (host : Host) (timeout_s : ℕ) (report : GateReport)
    → (middle : List Action) × (((middle ≡ start_container ∷ [])
          ⊎ (middle ≡ start_container ∷ kill_container ∷ []))
        × ((run_container host timeout_s report).0 ≡ middle ++ remove_container ∷ []))
run_container-asks host timeout_s report =
    let waited = await_exit host.rounds host.stats_interval host.started_at (timeout_s * 1000) in
    elim (Bool-cases host.starts_container) [
      | inl e ↦ (start_container ∷ kills waited, (kills_cases waited, rw e refl))
      | inr e ↦ (start_container ∷ [], (inl refl, rw e refl))
    ]

after_creation-Bracketed :
    (host : Host) (timeout_s : ℕ) (report : GateReport) (made : Bool)
    → host.creates_container ≡ made
    → Bracketed host
        (after_creation host timeout_s report (remove_stale host ++ create_container ∷ [], made)).0
after_creation-Bracketed host timeout_s report false e = not_created (remove_stale host) refl e
after_creation-Bracketed host timeout_s report true e =
    let (middle, (hm, asks)) = run_container-asks host timeout_s report in
    subst (λ actions. Bracketed host ((remove_stale host ++ create_container ∷ []) ++ actions))
      (sym asks) (created (remove_stale host) middle refl hm e)

create-Bracketed :
    (host : Host) (timeout_s : ℕ) (report : GateReport) (sdk client image : Bool)
    → host.resolves_image ≡ image
    → Bracketed host
        (after_creation host timeout_s report (
          if not sdk
          then ([], false)
          else if not client
          then ([], false)
          else if not image
          then (remove_stale host, false)
          else (remove_stale host ++ create_container ∷ [], host.creates_container))).0
create-Bracketed host timeout_s report false client image e = asks_nothing
create-Bracketed host timeout_s report true false image e = asks_nothing
create-Bracketed host timeout_s report true true false e = only_clears (remove_stale host) refl e
create-Bracketed host timeout_s report true true true e =
    after_creation-Bracketed host timeout_s report host.creates_container refl

launch-Bracketed :
    (host : Host) (timeout_s : ℕ) (report : GateReport) (p : Prepared)
    → Bracketed host (launch host timeout_s report p).0
launch-Bracketed host timeout_s report refused_path = asks_nothing
launch-Bracketed host timeout_s report disk_error = asks_nothing
launch-Bracketed host timeout_s report prepared =
    create-Bracketed host timeout_s report host.has_docker_sdk host.makes_client host.resolves_image
      refl

pub execute_checked-Bracketed :
    (host : Host) (timeout_s : ℕ) (report : Option GateReport)
    → Bracketed host (execute_checked host timeout_s report).0
execute_checked-Bracketed host timeout_s none = asks_nothing
execute_checked-Bracketed host timeout_s (some report) =
    either_way host report.passed _ _
      (launch-Bracketed host timeout_s report (prepare_workdir host)) asks_nothing
