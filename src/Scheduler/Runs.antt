-- ===== src/Scheduler/Runs.antt =====
-- The runs of schedule tasks (the run path of backend/src/scheduler/mod.rs): claiming, ticking,
-- spawning and finishing. `live` holds the runs that a thread or a spawned future carries, from
-- their claim to their end. The event behind each change and the audit line are output.
use dbx_plugin_files.Prelude.{
  ℕ, Bool, true, false, not, ◌&&◌, ◌||◌, List, [], ◌∷◌, ◌++◌, Option, none, some, leb,
  if◌then◌else◌, Result, ok, err,
}
use dbx_plugin_files.Prelude.Text.{Text, codes, text_eq}
use dbx_plugin_files.Cron.Fields.{CronExpr, parse}
use dbx_plugin_files.Store.Rings.{RunRecord, record_run}
use dbx_plugin_files.Scheduler.Model.{ScheduleTask, Scheduler}
use dbx_plugin_files.Scheduler.Tasks.{find_task, write_task}

pub data ClaimError : Type 0 where
  not_found already_running disabled : ClaimError

-- A claimed run: the task as it was claimed, and the record as it is so far.
pub record Flight : Type 0 where
  pub task : ScheduleTask
  pub run : RunRecord

-- The scheduler, the run history of the store, and the live runs.
pub record World : Type 0 where
  pub scheduler : Scheduler
  pub runs : List RunRecord
  pub live : List Flight

-- What a claim takes from outside: a new uuid, the clock, and whether the history write works.
pub record Moment : Type 0 where
  pub run_id : Text
  pub now : ℕ
  pub writes : Bool

abbrev pub schedule_trigger : Text
schedule_trigger = codes "schedule"

-- `running.contains(id)`.
unfoldable pub holds : Text → List Text → Bool
holds id [] = false
holds id (marker ∷ markers) = text_eq marker id || holds id markers

-- `running.remove(id)`.
unfoldable pub remove : Text → List Text → List Text
remove id [] = []
remove id (marker ∷ markers) =
    let rest = remove id markers in if text_eq marker id then rest else marker ∷ rest

unfoldable pub claimed_run : Text → Moment → ScheduleTask → RunRecord
claimed_run trigger moment task = record {
  run_id = moment.run_id;
  task_id = task.id;
  job_id = none;
  trigger = trigger;
  status = codes "running";
  started_at = some moment.now;
  finished_at = none;
  bytes = 0;
  files = none;
  error = none;
}

-- The guard of `RunningGuard`: the marker goes on every exit.
unfoldable pub release : Text → Scheduler → Scheduler
unfolding remove
release id scheduler = record scheduler { running = remove id scheduler.running }

unfoldable pub store_run : Bool → RunRecord → World → World
store_run writes run world = record world { runs = (record_run writes run world.runs).1 }

unfoldable pub failed_run : Text → ℕ → RunRecord → RunRecord
failed_run reason now run = record run {
  status = codes "failed";
  error = some reason;
  finished_at = some now;
}

-- `spawn_run` where the runtime is not there: the marker goes, and the run is recorded as failed.
unfoldable pub drop_run : Moment → Flight → World → World
unfolding release store_run failed_run
drop_run moment flight world =
    store_run moment.writes
      (failed_run (codes "scheduler runtime unavailable") moment.now flight.run)
      (record world { scheduler = release flight.task.id world.scheduler })

unfoldable pub finish_row : RunRecord → ScheduleTask → ScheduleTask
finish_row run task = record task {
  last_run_at = run.finished_at;
  last_run_status = some run.status;
}

-- The end of `execute_run`, with the record that `drive_run` left.
unfoldable pub finish_run : Moment → ScheduleTask → RunRecord → World → World
unfolding release store_run finish_row
finish_run moment task run world =
    let done = record run { finished_at = some moment.now } in
    let stored = store_run moment.writes done world in
    record stored {
      scheduler = release task.id (record stored.scheduler {
        tasks = write_task task.id (finish_row done) stored.scheduler.tasks;
      });
    }

module _ (next_fire : CronExpr → ℕ → Option ℕ) where
  unfoldable pub advance : Text → ℕ → ScheduleTask → ScheduleTask
  advance trigger now task =
      if text_eq trigger schedule_trigger
      then record task {
        next_run_at = (elim (parse task.cron) [ err fault ↦ none | ok expr ↦ next_fire expr now ]);
      }
      else task

  -- The block under the locks of `claim`.
  unfoldable pub claim_locked :
      Text → Text → Bool → ℕ → Scheduler → Result ClaimError ScheduleTask × Scheduler
  unfolding holds find_task write_task advance
  claim_locked id trigger force now scheduler = elim (find_task id scheduler.tasks) [
    | none ↦ (err ClaimError.not_found, scheduler)
    | some task ↦
        if holds id scheduler.running
        then (err ClaimError.already_running, scheduler)
        else if not task.enabled && not force
        then (err ClaimError.disabled, scheduler)
        else (
          ok (advance trigger now task),
          record scheduler {
            tasks = write_task id (advance trigger now) scheduler.tasks;
            running = task.id ∷ scheduler.running;
          },
        )
  ]

  unfoldable pub claim : Text → Text → Bool → Moment → World → Result ClaimError Flight × World
  unfolding claim_locked claimed_run store_run
  claim id trigger force moment world =
      let (answer, scheduler) = claim_locked id trigger force moment.now world.scheduler in
      elim answer [
        | err fault ↦ (err fault, world)
        | ok task ↦
            let run = claimed_run trigger moment task in
            let flight : Flight = record { task = task; run = run } in
            (
              ok flight,
              record (store_run moment.writes run (record world { scheduler = scheduler })) {
                live = world.live ++ (flight ∷ []);
              },
            )
      ]

  -- `run_now`: the claim of a manual run, which is then spawned.
  unfoldable pub run_now : Text → Moment → World → Result ClaimError Flight × World
  unfolding claim
  run_now id moment world = claim id (codes "manual") true moment world

  unfoldable pub is_due : ℕ → List Text → ScheduleTask → Bool
  is_due now running task =
      task.enabled
      && (elim task.next_run_at [ none ↦ false | some at ↦ leb at now ])
      && not (holds task.id running)

  unfoldable pub due_ids : ℕ → List Text → List ScheduleTask → List Text
  unfolding is_due
  due_ids now running [] = []
  due_ids now running (task ∷ tasks) =
      let rest = due_ids now running tasks in
      if is_due now running task then task.id ∷ rest else rest

  -- The second loop of `process_due`; a claim that fails is passed over.
  unfoldable pub claim_all : (Text → Moment) → List Text → World → World
  claim_all moment [] world = world
  claim_all moment (id ∷ ids) world =
      claim_all moment ids (claim id schedule_trigger false (moment id) world).1

  unfoldable pub process_due : ℕ → (Text → Moment) → World → World
  unfolding due_ids claim_all
  process_due now moment world =
      claim_all moment (due_ids now world.scheduler.running world.scheduler.tasks) world
