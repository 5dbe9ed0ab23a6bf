-- ===== src/Worker/Backfill/Draining.antt =====
-- The backlog of the backfill, tick by tick.
use autonomous_agentic_platf.Prelude.{
  ℕ, zero, suc, ◌-◌, ◌*◌, ◌≤◌, String, ◌≡◌, refl, ◌⊎◌, inl, inr, Bool, true, false, not, ◌&&◌, ◌||◌,
  Option, none, some, List, [], ◌∷◌, ◌++◌, arith, ltb, if◌then◌else◌, ltb→lt, Bool-cases, is_none,
  all, count_if, and_false, and_both, ltb-false,
}
use autonomous_agentic_platf.Worker.Backfill.{
  ExperimentRow, Tick, backfill_batch_limit, is_missing, log_row, backfill_row, backfill_rows,
  mlflow_backfill, backfill_ticks,
}

-- The run of a row has no directory any more, or MLflow takes it.
abbrev pub Settles : Tick → Type 0
Settles tick =
    (row : ExperimentRow)
    → (tick.run_dir_exists row.run_id ≡ false)
      ⊎ ((ref : String) × (tick.log_from_disk row ≡ some ref))

abbrev pub missing : List ExperimentRow → ℕ
missing rows = count_if is_missing rows

settled_either :
    (c : Bool) (x y : ExperimentRow × ℕ)
    → (c ≡ true → is_missing x.0 ≡ false)
    → is_missing y.0 ≡ false
    → is_missing (if c then x else y).0 ≡ false
settled_either true x y hx hy = hx refl
settled_either false x y hx hy = hy

backfill_row-settled :
    (tick : Tick) (row : ExperimentRow)
    → Settles tick
    → is_missing (backfill_row tick row).0 ≡ false
backfill_row-settled tick row h =
    settled_either (tick.run_dir_exists row.run_id) (log_row (tick.log_from_disk row) row) _
      (λ e. elim (h row) [ inl gone ↦ absurd (cc) | inr (ref, er) ↦ rw er refl ])
      (and_false (is_none row.mlflow_run_id))

backfill_rows-missing :
    (tick : Tick) (quota : ℕ) (rows : List ExperimentRow)
    → Settles tick
    → missing (backfill_rows tick quota rows).0 ≡ missing rows - quota
unfolding backfill_rows
backfill_rows-missing tick quota [] h = omega arith
backfill_rows-missing tick quota (row ∷ rows) h = elim (Bool-cases (is_missing row)) [
  | inl m ↦ elim (Bool-cases (ltb 0 quota)) [
    | inl q ↦
        let rest = backfill_rows-missing tick (quota - 1) rows h in
        let gone = backfill_row-settled tick row h in
        let positive = ltb→lt 0 quota q in rw (m, q, gone) (omega arith)
    | inr q ↦
        let rest = backfill_rows-missing tick quota rows h in
        let empty = ltb-false 0 quota q in rw (m, q, m) (omega arith)
  ]
  | inr m ↦ let rest = backfill_rows-missing tick quota rows h in rw (m, m) (omega arith)
]

-- If in every tick each run has lost its directory or MLflow takes it, then each tick of the
-- backfill settles 20 of the rows that lack an MLflow run, until none is left: after n ticks as
-- many are missing as before less 20 times n, or none.
pub backfill_ticks-missing :
    (tick : ℕ → Tick) (rows : List ExperimentRow)
    → ((i : ℕ) → Settles (tick i))
    → (n : ℕ) → missing (backfill_ticks tick n rows) ≡ missing rows - n * backfill_batch_limit
unfolding backfill_ticks mlflow_backfill
backfill_ticks-missing tick rows h zero = omega arith
backfill_ticks-missing tick rows h (suc n) =
    let before = backfill_ticks-missing tick rows h n in
    let now = backfill_rows-missing (tick n) 20 (backfill_ticks tick n rows) (h n) in omega arith

-- A row that a tick leaves as it is: it is not missing, or its directory is there and
-- `log_from_disk` raises.
abbrev pub is_stuck : Tick → ExperimentRow → Bool
is_stuck tick row =
    not (is_missing row) || (tick.run_dir_exists row.run_id && is_none (tick.log_from_disk row))

not_positive : (quota : ℕ) → quota ≡ 0 → ltb 0 quota ≡ false
not_positive quota h = ground arith

-- Of a missing row that is stuck, both tests hold.
stuck_cases : (m e n : Bool) → (not m || (e && n)) ≡ true → m ≡ true → (e ≡ true) × (n ≡ true)
stuck_cases true e n h k = and_both e n h
stuck_cases false e n h k = absurd (cc)

backfill_rows-none :
    (tick : Tick) (quota : ℕ) (rows : List ExperimentRow)
    → quota ≡ 0
    → backfill_rows tick quota rows ≡ (rows, 0)
unfolding backfill_rows
backfill_rows-none tick quota [] h = refl
backfill_rows-none tick quota (row ∷ rows) h =
    let q = not_positive quota h in
    rw (q, and_false (is_missing row), backfill_rows-none tick quota rows h) refl

log_row-none :
    (o : Option String) (row : ExperimentRow) → is_none o ≡ true → log_row o row ≡ (row, 0)
log_row-none none row h = refl
log_row-none (some ref) row h = absurd (cc)

backfill_row-stuck :
    (tick : Tick) (row : ExperimentRow)
    → is_stuck tick row ≡ true
    → is_missing row ≡ true
    → backfill_row tick row ≡ (row, 0)
backfill_row-stuck tick row h m =
    let (e, n) =
      stuck_cases (is_missing row) (tick.run_dir_exists row.run_id)
        (is_none (tick.log_from_disk row)) h m in
    rw e (log_row-none (tick.log_from_disk row) row n)

missing-missing :
    (row : ExperimentRow) (rows : List ExperimentRow)
    → is_missing row ≡ true
    → missing (row ∷ rows) ≡ suc (missing rows)
missing-missing row rows m = rw m refl

missing-other :
    (row : ExperimentRow) (rows : List ExperimentRow)
    → is_missing row ≡ false
    → missing (row ∷ rows) ≡ missing rows
missing-other row rows m = rw m refl

backfill_rows-stuck :
    (tick : Tick) (quota : ℕ) (oldest newer : List ExperimentRow)
    → all (is_stuck tick) oldest ≡ true
    → quota ≤ missing oldest
    → backfill_rows tick quota (oldest ++ newer) ≡ (oldest ++ newer, 0)
unfolding backfill_rows
backfill_rows-stuck tick quota [] newer hs hq = backfill_rows-none tick quota newer (omega arith)
backfill_rows-stuck tick quota (row ∷ oldest) newer hs hq =
    let (hr, ho) = and_both (is_stuck tick row) (all (is_stuck tick) oldest) hs in
    elim (Bool-cases (is_missing row)) [
      | inl m ↦
          let same = backfill_row-stuck tick row hr m in
          let count = missing-missing row oldest m in
          elim (Bool-cases (ltb 0 quota)) [
            | inl q ↦
                let rest = backfill_rows-stuck tick (quota - 1) oldest newer ho (omega arith) in
                rw (m, q, same, rest) refl
            | inr q ↦
                let rest =
                  backfill_rows-none tick quota (oldest ++ newer)
                    (let z = ltb-false 0 quota q in omega arith) in
                rw (m, q, rest) refl
          ]
      | inr m ↦
          let count = missing-other row oldest m in
          let rest = backfill_rows-stuck tick quota oldest newer ho (omega arith) in
          rw (m, rest) refl
    ]

-- If at least 20 of the oldest rows lack their MLflow run, have their directory, and make
-- log_from_disk raise, then a tick changes nothing, neither in them nor in any newer row, whether
-- MLflow would take that or not.
pub mlflow_backfill-starves :
    (tick : Tick) (oldest newer : List ExperimentRow)
    → all (is_stuck tick) oldest ≡ true
    → backfill_batch_limit ≤ missing oldest
    → mlflow_backfill tick (oldest ++ newer) ≡ (oldest ++ newer, 0)
unfolding mlflow_backfill
mlflow_backfill-starves tick oldest newer hs hq =
    backfill_rows-stuck tick backfill_batch_limit oldest newer hs hq
