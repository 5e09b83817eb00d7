-- ===== src/Scheduler/Awaiting.antt =====
-- The poll loop `await_job_terminal` of backend/src/scheduler/mod.rs, and the job states of
-- backend/src/transfers.rs. `view` is the jobs mirror at each poll, counted from 0, and `expired`
-- whether the run's deadline has passed at that poll.
use dbx_plugin_files.Prelude.{ℕ, zero, suc, ◌+◌, Bool, true, false, Option, none, some}
use dbx_plugin_files.Prelude.Text.{Text, codes}

pub data JobStatus : Type 0 where
  queued running completed failed canceled : JobStatus

unfoldable pub is_terminal : JobStatus → Bool
is_terminal JobStatus.queued = false
is_terminal JobStatus.running = false
is_terminal JobStatus.completed = true
is_terminal JobStatus.failed = true
is_terminal JobStatus.canceled = true

-- The fields of a `TransferJob` that the scheduler reads.
pub record JobView : Type 0 where
  pub status : JobStatus
  pub error : Option Text
  pub transferred_bytes : ℕ

pub record Outcome : Type 0 where
  pub status : JobStatus
  pub error : Option Text
  pub bytes : ℕ

unfoldable pub failed_because : Text → Outcome
failed_because reason = record { status = JobStatus.failed; error = some reason; bytes = 0 }

abbrev pub too_long : Outcome
unfolding failed_because
too_long = failed_because (codes "run exceeded its maximum duration")

abbrev pub vanished : Outcome
unfolding failed_because
vanished = failed_because (codes "job record vanished from the engine")

module _ (view : ℕ → Option JobView) (expired : ℕ → Bool) where
  -- The first argument is fuel: `none` means that it ran out. The second counts the polls.
  unfoldable pub await_job_terminal : ℕ → ℕ → Option Outcome
  unfolding is_terminal
  await_job_terminal zero poll = none
  await_job_terminal (suc fuel) poll = elim (view poll) [
    | some job ↦ elim (is_terminal job.status) [
      | true ↦
          some (record { status = job.status; error = job.error; bytes = job.transferred_bytes })
      | false ↦ elim (expired poll) [
        | true ↦ some too_long
        | false ↦ await_job_terminal fuel (poll + 1)
      ]
    ]
    | none ↦ elim (view (poll + 1)) [
      | some back ↦ await_job_terminal fuel (poll + 2)
      | none ↦ some vanished
    ]
  ]
