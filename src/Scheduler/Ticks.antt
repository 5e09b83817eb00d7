-- ===== src/Scheduler/Ticks.antt =====
-- What a tick claims, and what the claims leave (`process_due` of backend/src/scheduler/mod.rs).
use dbx_plugin_files.Prelude.{ℕ, ◌≡◌, List, ◌∷◌, Option, none, some, ok, err}
use dbx_plugin_files.Prelude.Text.{Text}
use dbx_plugin_files.Cron.Fields.{CronExpr, parse}
use dbx_plugin_files.Scheduler.Model.{ScheduleTask, Scheduler}
use dbx_plugin_files.Scheduler.Tasks.{find_task, write_task}
use dbx_plugin_files.Scheduler.Runs.{Moment, schedule_trigger, advance}

module _ (next_fire : CronExpr → ℕ → Option ℕ) where
  -- The next fire of the task's expression, from the clock on.
  abbrev pub next_run : ℕ → ScheduleTask → Option ℕ
  next_run now task = elim (parse task.cron) [ err fault ↦ none | ok expr ↦ next_fire expr now ]

  -- The task of the identifier, before and after.
  abbrev pub IsMoved : (Text → Moment) → List ScheduleTask → List ScheduleTask → Text → Type 0
  IsMoved moment before after id =
      (task : ScheduleTask) × (find_task id before ≡ some task)
      × (find_task id after ≡ some (record task { next_run_at = next_run (moment id).now task }))

  scheduled : Moment → Scheduler → Text → Scheduler
  scheduled moment scheduler id = record scheduler {
    tasks = write_task id (advance next_fire schedule_trigger moment.now) scheduler.tasks;
    running = id ∷ scheduler.running;
  }
