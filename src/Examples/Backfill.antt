-- ===== src/Examples/Backfill.antt =====
-- The backfill, with MLflow up again and with rows that it never takes.
use autonomous_agentic_platf.Prelude.{
  ℕ, zero, suc, ◌-◌, ◌*◌, String, ◌≡◌, refl, inr, true, false, none, some, List, [], ◌∷◌, ◌++◌,
  arith, str_eq, if◌then◌else◌,
}
use autonomous_agentic_platf.Worker.Backfill.{
  ExperimentRow, Tick, backfill_batch_limit, mlflow_backfill, backfill_ticks,
}
use autonomous_agentic_platf.Worker.Backfill.Draining.{
  missing, backfill_ticks-missing, mlflow_backfill-starves,
}

abbrev unlogged : String → ExperimentRow
unlogged run = record { run_id = run; mlflow_run_id = none; unrecoverable = false }

abbrev healthy : ℕ → Tick
healthy i = record { run_dir_exists = λ run. true; log_from_disk = λ row. some "m" }

backfill_ticks-missing_example :
    missing (backfill_ticks healthy 1 (unlogged "a" ∷ unlogged "b" ∷ []))
    ≡ 2 - 1 * backfill_batch_limit
backfill_ticks-missing_example =
    backfill_ticks-missing healthy (unlogged "a" ∷ unlogged "b" ∷ []) (λ i row. inr ("m", refl)) 1

-- A tick that raises for run `a` only.
abbrev picky : Tick
picky = record {
  run_dir_exists = λ run. true;
  log_from_disk = λ row. if str_eq row.run_id "a" then none else some "m";
}

-- So many rows of a run.
abbrev rows_of : String → ℕ → List ExperimentRow
rows_of run zero = []
rows_of run (suc n) = unlogged run ∷ rows_of run n

mlflow_backfill-starves_example :
    mlflow_backfill picky (rows_of "a" 20 ++ unlogged "b" ∷ [])
    ≡ (rows_of "a" 20 ++ unlogged "b" ∷ [], 0)
mlflow_backfill-starves_example =
    mlflow_backfill-starves picky (rows_of "a" 20) (unlogged "b" ∷ []) refl (omega arith)
