-- ===== src/Worker/Backfill.antt =====
-- `mlflow_backfill` of backend/app/worker/cron.py: the rows of `experiments`, oldest first, with
-- the columns that the job tests. A commit succeeds; the disk and MLflow answer.
pub mod Draining
use autonomous_agentic_platf.Prelude.{
  ℕ, zero, suc, ◌+◌, ◌-◌, ◌*◌, ◌≤◌, ◌<◌, min, max, String, ◌≡◌, refl, sym, ap, ◌∙◌, ◌≢◌, ◌↔◌, ◌⊎◌,
  inl, inr, Bool, true, false, not, ◌&&◌, ◌||◌, Option, none, some, List, [], ◌∷◌, ◌++◌, map,
  reverse, arith, eq_iff, str_eq, ltb, leb, ◌==◌, if◌then◌else◌, ltb→lt, lt→ltb, leb→le, le→leb,
  Bool-cases, Option-cases, or_else, is_some, is_none, length, is_empty, all, any, select, find?,
  count_if, length-append, count_if-append, count_if-le-length, All, All-append, All-reverse,
  All-imp, length-reverse, contains, lookup, insert, merge, ℤ, pos, negsuc, Floats, joined,
  joined-append, append_assoc, append-nil, remove, keys, lookup-insert_any, lookup-remove,
  lookup-keys,
}

pub record ExperimentRow : Type 0 where
  pub run_id : String
  pub mlflow_run_id : Option String
  pub unrecoverable : Bool

-- What is found in one tick: whether the directory of a run is there, and the run that
-- `log_from_disk` gives for a row, none where it raises.
pub record Tick : Type 0 where
  pub run_dir_exists : String → Bool
  pub log_from_disk : ExperimentRow → Option String

-- `BACKFILL_BATCH_LIMIT`
abbrev pub backfill_batch_limit : ℕ
backfill_batch_limit = 20

abbrev pub is_missing : ExperimentRow → Bool
is_missing row = is_none row.mlflow_run_id && not row.unrecoverable

abbrev pub log_row : Option String → ExperimentRow → ExperimentRow × ℕ
log_row none row = (row, 0)
log_row (some ref) row = (record row { mlflow_run_id = some ref }, 1)

-- The body of the loop: the row after it, and whether it was healed.
abbrev pub backfill_row : Tick → ExperimentRow → ExperimentRow × ℕ
backfill_row tick row =
    if tick.run_dir_exists row.run_id
    then log_row (tick.log_from_disk row) row
    else (record row { unrecoverable = true }, 0)

-- The row is one of the oldest that are missing, as many as `quota`.
abbrev pub is_due : ℕ → ExperimentRow → Bool
is_due quota row = is_missing row && ltb 0 quota

-- The loop over those rows: the table after it, and the number of rows that were healed.
unfoldable pub backfill_rows : Tick → ℕ → List ExperimentRow → List ExperimentRow × ℕ
backfill_rows tick quota [] = ([], 0)
backfill_rows tick quota (row ∷ rows) =
    let due = is_due quota row in
    let (after, n) = if due then backfill_row tick row else (row, 0) in
    let (others, m) = backfill_rows tick (if due then quota - 1 else quota) rows in
    (after ∷ others, n + m)

-- `mlflow_backfill`
unfoldable pub mlflow_backfill : Tick → List ExperimentRow → List ExperimentRow × ℕ
unfolding backfill_rows
mlflow_backfill tick rows = backfill_rows tick backfill_batch_limit rows

-- One tick behind the other.
unfoldable pub backfill_ticks : (ℕ → Tick) → ℕ → List ExperimentRow → List ExperimentRow
unfolding mlflow_backfill
backfill_ticks tick zero rows = rows
backfill_ticks tick (suc n) rows = (mlflow_backfill (tick n) (backfill_ticks tick n rows)).0
