-- ===== src/Scheduler/Hydrated.antt =====
-- What a start of the sidecar leaves (`hydrate` of backend/src/scheduler/mod.rs).
use dbx_plugin_files.Prelude.{
  ℕ, ◌≡◌, refl, ap, inl, inr, Bool, true, false, ◌&&◌, leb, if◌then◌else◌, List, [], ◌∷◌, Option,
  none, some, ok, err, map, arith, Bool-cases, Option-cases, Result-cases,
}
use dbx_plugin_files.Prelude.Text.{Text, text_eq}
use dbx_plugin_files.Cron.Fields.{CronExpr, parse}
use dbx_plugin_files.Store.Rings.{RunRecord}
use dbx_plugin_files.Scheduler.Model.{ScheduleTask}
use dbx_plugin_files.Scheduler.Runs.{holds, due_ids, is_due}
use dbx_plugin_files.Scheduler.History.{
  hydrate, rescheduled, settle_orphan, any_running, is_running,
}

settle_orphan_settles : (now : ℕ) (run : RunRecord) → is_running (settle_orphan now run) ≡ false
unfolding settle_orphan text_eq
settle_orphan_settles now run = elim (Bool-cases (is_running run)) [
  | inl live ↦ rw (settle_orphan, live) refl
  | inr done ↦ rw (settle_orphan, done) done
]

any_running_settled :
    (now : ℕ) (runs : List RunRecord) → any_running (map (settle_orphan now) runs) ≡ false
unfolding any_running
any_running_settled now [] = refl
any_running_settled now (run ∷ runs) =
    rw (settle_orphan_settles now run, any_running_settled now runs) refl

-- Any other next run written into a task.
abbrev pub restamped : (ScheduleTask → Option ℕ) → ScheduleTask → ScheduleTask
restamped stored task = record task { next_run_at = stored task }

module _ (next_fire : CronExpr → ℕ → Option ℕ) (now : ℕ) where
  -- The zone's next fire of an enabled task is no later than now.
  abbrev pub fires_at_once : ScheduleTask → Bool
  fires_at_once task = task.enabled && (elim (parse task.cron) [
    | err fault ↦ false
    | ok expr ↦ (elim (next_fire expr now) [ none ↦ false | some at ↦ leb at now ])
  ])

  abbrev pub at_once : List ScheduleTask → List Text
  at_once [] = []
  at_once (task ∷ tasks) =
      let rest = at_once tasks in if fires_at_once task then task.id ∷ rest else rest

  rescheduled_due :
      (task : ScheduleTask)
      → is_due next_fire now [] (rescheduled next_fire now task) ≡ fires_at_once task
  unfolding is_due rescheduled holds
  rescheduled_due task = elim (Bool-cases task.enabled) [
    | inr off ↦ rw off refl
    | inl on ↦ (elim (Result-cases (parse task.cron)) [
      | inl (fault, bad) ↦ rw (on, bad) refl
      | inr (expr, good) ↦ (elim (Option-cases (next_fire expr now)) [
        | inl never ↦ rw (on, good, never) refl
        | inr (at, next) ↦ rw (on, good, next) (ground arith)
      ])
    ])
  ]

  due_ids-rescheduled :
      (tasks : List ScheduleTask)
      → due_ids next_fire now [] (map (rescheduled next_fire now) tasks) ≡ at_once tasks
  unfolding due_ids rescheduled
  due_ids-rescheduled [] = refl
  due_ids-rescheduled (task ∷ tasks) =
      rw (due_ids, rescheduled_due task, due_ids-rescheduled tasks) refl

  rescheduled-restamped :
      (stored : ScheduleTask → Option ℕ) (tasks : List ScheduleTask)
      → map (rescheduled next_fire now) (map (restamped stored) tasks)
        ≡ map (rescheduled next_fire now) tasks
  unfolding rescheduled
  rescheduled-restamped stored [] = refl
  rescheduled-restamped stored (task ∷ tasks) =
      ap (λ rest. rescheduled next_fire now task ∷ rest) (rescheduled-restamped stored tasks)

  -- A start never back-fills: whatever next runs the file held, the sidecar starts in the same state,
  -- and then the due tasks are those enabled ones whose next fire, computed from now on, is no later
  -- than now. And no record is left as running, if the write of the history works.
  pub hydrate-settles :
      (schedules : List ScheduleTask) (runs : List RunRecord) (stored : ScheduleTask → Option ℕ)
      → let world = hydrate next_fire now true schedules runs in
        (hydrate next_fire now true (map (restamped stored) schedules) runs ≡ world)
        × (due_ids next_fire now world.scheduler.running world.scheduler.tasks ≡ at_once schedules)
        × (any_running world.runs ≡ false)
  unfolding hydrate
  hydrate-settles schedules runs stored = (
    ap
        (λ (tasks : List ScheduleTask). (record (hydrate next_fire now true schedules runs) {
          scheduler = record { tasks = tasks; running = [] };
        }))
        (rescheduled-restamped stored schedules),
    due_ids-rescheduled schedules,
    (elim (Bool-cases (any_running runs)) [
      | inl some_live ↦ rw (hydrate, some_live) (any_running_settled now runs)
      | inr all_done ↦ rw (hydrate, all_done) all_done
    ]),
  )
