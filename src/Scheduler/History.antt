-- ===== src/Scheduler/History.antt =====
-- The history of scheduled runs in backend/src/scheduler/mod.rs: `hydrate` at the start of the
-- sidecar, `history` and `cancel`. The writes at a start are best effort: whether that of runs.json
-- works is an argument.
use dbx_plugin_files.Prelude.{
  ℕ, Bool, false, ◌&&◌, ◌||◌, List, [], ◌∷◌, Option, none, some, leb, min, max, map, take,
  if◌then◌else◌, Result, ok, err,
}
use mathlib.Core.List.{reverse}
use dbx_plugin_files.Prelude.Text.{Text, codes, text_eq}
use dbx_plugin_files.Cron.Fields.{CronExpr, parse}
use dbx_plugin_files.Store.Rings.{RunRecord}
use dbx_plugin_files.Scheduler.Model.{ScheduleTask, or_else}
use dbx_plugin_files.Scheduler.Runs.{World}

abbrev pub is_running : RunRecord → Bool
is_running run = text_eq run.status (codes "running")

unfoldable pub settle_orphan : ℕ → RunRecord → RunRecord
settle_orphan now run =
    if is_running run
    then record run {
      status = codes "failed";
      error = some (codes "interrupted: sidecar restarted mid-run");
      finished_at = some now;
    }
    else run

unfoldable pub any_running : List RunRecord → Bool
any_running [] = false
any_running (run ∷ runs) = is_running run || any_running runs

-- `schedules` and `runs` are what the two files hold.
module _ (next_fire : CronExpr → ℕ → Option ℕ) where
  unfoldable pub rescheduled : ℕ → ScheduleTask → ScheduleTask
  rescheduled now task = record task {
    next_run_at =
        if task.enabled
        then (elim (parse task.cron) [ err fault ↦ none | ok expr ↦ next_fire expr now ])
        else none;
  }

  unfoldable pub hydrate : ℕ → Bool → List ScheduleTask → List RunRecord → World
  unfolding rescheduled settle_orphan any_running
  hydrate now writes schedules runs = record {
    scheduler = record { tasks = map (rescheduled now) schedules; running = [] };
    runs = if any_running runs && writes then map (settle_orphan now) runs else runs;
    live = [];
  }

unfoldable pub of_task : Option Text → List RunRecord → List RunRecord
of_task id [] = []
of_task none (run ∷ runs) = run ∷ of_task none runs
of_task (some id) (run ∷ runs) =
    let rest = of_task (some id) runs in if text_eq run.task_id id then run ∷ rest else rest

unfoldable pub history : Option Text → ℕ → List RunRecord → List RunRecord
unfolding of_task
history id limit runs = take (min (max limit 1) 500) (reverse (of_task id runs))

-- `max_by_key(|run| run.started_at.unwrap_or(0))`: the last of the latest.
unfoldable pub latest : Option RunRecord → List RunRecord → Option RunRecord
latest best [] = best
latest none (run ∷ runs) = latest (some run) runs
latest (some best) (run ∷ runs) =
    latest (some (if leb (or_else best.started_at 0) (or_else run.started_at 0) then run else best))
      runs

pub data CancelError : Type 0 where
  no_run not_started : CancelError

-- The job to cancel.
unfoldable pub cancel : Text → List RunRecord → Result CancelError Text
unfolding of_task latest
cancel id runs = elim (latest none (of_task (some id) runs)) [
  | none ↦ err CancelError.no_run
  | some run ↦
      if is_running run
      then (elim run.job_id [ none ↦ err CancelError.not_started | some job ↦ ok job ])
      else err CancelError.no_run
]
