-- ===== src/Examples/Locks.antt =====
-- The lock of a run, between two workers and between two jobs of one.
use autonomous_agentic_platf.Prelude.{
  ℕ, String, ◌≡◌, refl, Bool, true, false, none, some, List, [], ◌∷◌, arith,
}
use autonomous_agentic_platf.Worker.RunLock.{Call, acquire, renew, release, Event, all_calls}
use autonomous_agentic_platf.Worker.RunLock.Exclusive.{last_expiry, own_answers, all_calls-Timely}

abbrev by : String → Bool → ℕ → Call → Event
by worker acquired now call = record {
  now = now;
  holder = record { worker_id = worker; acquired = acquired };
  call = call;
}

-- The second worker tries before and behind the first end of the lease, which was renewed.
abbrev tries : List Event
tries =
    by "w2" false 50 acquire
    ∷ by "w1" true 90 renew
    ∷ by "w2" false 150 acquire
    ∷ by "w2" false 180 release
    ∷ []

all_calls-Timely_example : all_calls 100 tries (some (record { owner = "w1"; expires = 100 })) ≡ (
  some (record { owner = "w1"; expires = last_expiry 100 "w1" 100 tries }),
  own_answers "w1" tries,
)
all_calls-Timely_example =
    all_calls-Timely 100 "w1" tries 100 refl
      (omega arith, (omega arith, (omega arith, (omega arith, tt))))

-- A job whose lease has lapsed releases the lock that another job of its worker has acquired.
same_worker :
    (all_calls 100
      (by "w1" false 120 acquire ∷ by "w1" true 130 release ∷ [])
      (some (record { owner = "w1"; expires = 100 }))).0
    ≡ none
unfolding all_calls
same_worker = refl
