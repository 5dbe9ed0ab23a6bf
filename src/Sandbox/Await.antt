-- ===== src/Sandbox/Await.antt =====
-- `_await_exit`: poll until the container exits or the wall clock runs out.
use autonomous_agentic_platf.Prelude.{
  ℕ, zero, suc, ◌+◌, max, String, Bool, not, Option, none, some, [], ◌∷◌, leb, if◌then◌else◌,
  or_else, contains, ℤ,
}

-- The `State` of a container; `status` is empty where there is none.
pub record ContainerState : Type 0 where
  pub status : String
  pub exit_code : Option ℤ
  pub oom_killed : Bool

-- What one turn of the loop is answered: the state, none where reading it raises, the clock, the
-- sample of the memory, and the state behind a kill.
pub record Round : Type 0 where
  pub state : Option ContainerState
  pub now : ℕ
  pub sample : Option ℕ
  pub state_after_kill : Option ContainerState

-- What the loop comes to.
pub data Waited : Type 0 where
  exited : (state : ContainerState) (max_rss : Option ℕ) → Waited
  killed : (state : ContainerState) (max_rss : Option ℕ) → Waited
  read_raises kill_raises : Waited
  out_of_fuel : Waited

abbrev pub is_alive : ContainerState → Bool
is_alive state = contains state.status ("created" ∷ "running" ∷ "restarting" ∷ "paused" ∷ [])

-- `max(max_rss or 0, sample)`
abbrev pub peak : Option ℕ → Option ℕ → Option ℕ
peak max_rss none = max_rss
peak max_rss (some sample) = some (max (or_else max_rss 0) sample)

-- The sampling of a turn: the next peak and the next time to sample.
abbrev pub sampled : ℕ → Round → ℕ → Option ℕ → ℕ × Option ℕ
sampled interval round next_sample max_rss =
    if leb next_sample round.now
    then (round.now + interval, peak max_rss round.sample)
    else (next_sample, max_rss)

abbrev pub after_kill : Option ContainerState → Option ℕ → Waited
after_kill none max_rss = kill_raises
after_kill (some state) max_rss = killed state max_rss

-- A turn; `rest` is the next one.
abbrev pub turn : Option ℕ → Option ContainerState → Waited → Waited
turn max_rss none rest = read_raises
turn max_rss (some state) rest = if not (is_alive state) then exited state max_rss else rest

-- The loop from a turn on.
unfoldable pub await_from : ℕ → (ℕ → Round) → ℕ → ℕ → ℕ → ℕ → Option ℕ → Waited
await_from zero rounds interval deadline index next_sample max_rss = out_of_fuel
await_from (suc fuel) rounds interval deadline index next_sample max_rss =
    let round = rounds index in
    let (next, rss) = sampled interval round next_sample max_rss in
    let rest = await_from fuel rounds interval deadline (suc index) next rss in
    turn max_rss round.state
      (if leb deadline round.now then after_kill round.state_after_kill rss else rest)

-- `_await_exit`, where each turn takes at least one unit of the clock.
unfoldable pub await_exit : (ℕ → Round) → ℕ → ℕ → ℕ → Waited
unfolding await_from
await_exit rounds interval started timeout =
    await_from (suc timeout) rounds interval (started + timeout) 0 0 none
