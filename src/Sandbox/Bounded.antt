-- ===== src/Sandbox/Bounded.antt =====
-- The ends of the wait for a container.
use autonomous_agentic_platf.Prelude.{
  ℕ, zero, suc, ◌+◌, ◌≤◌, ◌≡◌, inl, inr, true, false, Option, none, some, arith, leb, leb→le,
  Bool-cases, Option-cases, leb-false,
}
use autonomous_agentic_platf.Sandbox.Await.{
  ContainerState, Round, Waited, exited, killed, read_raises, kill_raises, out_of_fuel, is_alive,
  turn, await_from, await_exit,
}

-- The clock shows at least the start at the first turn, and at least one unit more at each turn
-- than at the one before.
pub record Advances (started : ℕ) (rounds : ℕ → Round) : Type 0 where
  pub begins : started ≤ (rounds 0).now
  pub goes_on : (i : ℕ) → (rounds i).now + 1 ≤ (rounds (suc i)).now

-- What an end of the wait says: the container was seen to have stopped, or it was killed, having
-- been seen alive at its deadline and at no turn before; or the daemon raised.
abbrev pub EndsSoundly : (ℕ → Round) → ℕ → Waited → Type 0
EndsSoundly rounds deadline (exited state max_rss) =
    (i : ℕ) × (((rounds i).state ≡ some state) × (is_alive state ≡ false))
EndsSoundly rounds deadline (killed state max_rss) =
    (i : ℕ) × ((deadline ≤ (rounds i).now)
      × (((rounds i).state_after_kill ≡ some state)
          × ((seen : ContainerState) × (((rounds i).state ≡ some seen) × (is_alive seen ≡ true)))))
EndsSoundly rounds deadline read_raises = (i : ℕ) × ((rounds i).state ≡ none)
EndsSoundly rounds deadline kill_raises =
    (i : ℕ) × ((deadline ≤ (rounds i).now) × ((rounds i).state_after_kill ≡ none))
EndsSoundly rounds deadline out_of_fuel = ⊥

clock-le :
    (started : ℕ) (rounds : ℕ → Round)
    → Advances started rounds
    → (i : ℕ) → started + i ≤ (rounds i).now
clock-le started rounds h zero = let b = h.begins in omega arith
clock-le started rounds h (suc i) =
    let b = clock-le started rounds h i in let g = h.goes_on i in omega arith

await_from-EndsSoundly :
    (started timeout : ℕ) (rounds : ℕ → Round)
    → Advances started rounds
    → (interval fuel index next_sample : ℕ) (max_rss : Option ℕ) → timeout + 1 ≡ fuel + index
    → index ≤ timeout
    → EndsSoundly rounds
        (started + timeout)
        (await_from fuel rounds interval (started + timeout) index next_sample max_rss)
unfolding await_from
await_from-EndsSoundly started timeout rounds h interval zero index next_sample max_rss e k =
    absurd (omega arith)
await_from-EndsSoundly started timeout rounds h interval (suc fuel) index next_sample max_rss e k =
    elim (Option-cases (rounds index).state) [
      | inl es ↦ rw es (index, es)
      | inr (state, es) ↦ elim (Bool-cases (is_alive state)) [
        | inr dead ↦ rw (es, turn, dead) (index, (es, dead))
        | inl alive ↦ elim (Bool-cases (leb (started + timeout) (rounds index).now)) [
          | inl late ↦ elim (Option-cases (rounds index).state_after_kill) [
            | inl ek ↦ rw (es, turn, alive, late, ek) (index, (leb→le _ _ late, ek))
            | inr (last, ek) ↦
                rw (es, turn, alive, late, ek)
                  (index, (leb→le _ _ late, (ek, (state, (es, alive)))))
          ]
          | inr early ↦
              let c = clock-le started rounds h index in
              let b = leb-false (started + timeout) (rounds index).now early in
              rw (es, turn, alive, early)
                (await_from-EndsSoundly started timeout rounds h interval fuel (suc index) _ _
                  (omega arith) (omega arith))
        ]
      ]
    ]

-- If the clock moves by at least one unit from turn to turn, the wait for a container ends within
-- as many turns as its timeout has units, and one more: with a state in which the container was
-- seen to have stopped, or, at or behind the deadline and at a turn at which it was seen alive,
-- with the state behind a kill, or because the daemon raised at reading the state.
pub await_exit-EndsSoundly :
    (rounds : ℕ → Round) (interval started timeout : ℕ)
    → Advances started rounds
    → EndsSoundly rounds (started + timeout) (await_exit rounds interval started timeout)
unfolding await_exit
await_exit-EndsSoundly rounds interval started timeout h =
    await_from-EndsSoundly started timeout rounds h interval (suc timeout) 0 0 none (omega arith)
      (omega arith)
