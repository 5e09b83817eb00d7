-- ===== src/Scheduler/Tasks.antt =====
-- The creation, update and deletion of schedule tasks (backend/src/scheduler/mod.rs). The write of
-- the task file and the event that follow each change are output.
use dbx_plugin_files.Prelude.{
  ℕ, Bool, true, false, not, ◌&&◌, ◌||◌, ◌==◌, List, [], ◌∷◌, ◌++◌, Option, none, some, any, length,
  if◌then◌else◌, Result, ok, err,
}
use dbx_plugin_files.Prelude.Text.{Text, text_eq, trim}
use dbx_plugin_files.Cron.Fields.{CronExpr, parse}
use dbx_plugin_files.Scheduler.Model.{
  ScheduleKind, ScheduleTask, ScheduleRequest, ScheduleError, Scheduler, RemoteBinding, or_else,
}
use dbx_plugin_files.Scheduler.Validate.{validate}

unfoldable pub same_kind : ScheduleKind → ScheduleKind → Bool
same_kind ScheduleKind.sync ScheduleKind.sync = true
same_kind ScheduleKind.copy ScheduleKind.copy = true
same_kind ScheduleKind.bisync ScheduleKind.bisync = true
same_kind _ _ = false

unfoldable pub find_task : Text → List ScheduleTask → Option ScheduleTask
find_task id [] = none
find_task id (task ∷ tasks) = if text_eq task.id id then some task else find_task id tasks

-- The first task with the identifier, written through the mutable reference.
unfoldable pub write_task :
    Text → (ScheduleTask → ScheduleTask) → List ScheduleTask → List ScheduleTask
write_task id f [] = []
write_task id f (task ∷ tasks) =
    let rest = write_task id f tasks in if text_eq task.id id then f task ∷ tasks else task ∷ rest

unfoldable pub pair_changed : ScheduleRequest → ScheduleTask → Bool
unfolding same_kind
pair_changed request task =
    not (same_kind task.kind request.kind)
    || not (text_eq task.source_connection_id request.source_connection_id)
    || not (text_eq task.source_path request.source_path)
    || not (
        text_eq task.target_connection_id
          (or_else request.target_connection_id request.source_connection_id))
    || not (text_eq task.target_path request.target_path)

-- Whether an update computes the next instant anew.
unfoldable pub reschedules : ScheduleRequest → ScheduleTask → Bool
reschedules request task =
    not (text_eq (trim task.cron) (trim request.cron))
    || (if or_else request.enabled task.enabled then not task.enabled else task.enabled)

unfoldable pub rewrite_task :
    Text → (ScheduleTask → ScheduleTask) → Scheduler → Result ScheduleError ScheduleTask × Scheduler
unfolding find_task write_task
rewrite_task id f scheduler = elim (find_task id scheduler.tasks) [
  | none ↦ (err ScheduleError.not_found, scheduler)
  | some task ↦ (ok (f task), record scheduler { tasks = write_task id f scheduler.tasks })
]

unfoldable pub without_task : Text → List ScheduleTask → List ScheduleTask
without_task id [] = []
without_task id (task ∷ tasks) =
    let rest = without_task id tasks in if text_eq task.id id then rest else task ∷ rest

-- Whether a task was removed, and the scheduler; a live run goes on.
unfoldable pub delete : Text → Scheduler → Bool × Scheduler
unfolding without_task
delete id scheduler =
    let kept = without_task id scheduler.tasks in
    (not (length kept == length scheduler.tasks), record scheduler { tasks = kept })

-- `next_fire` is `next_fire_millis` in the zone of the process, and `binding` the engine's registry.
module _ (next_fire : CronExpr → ℕ → Option ℕ) (binding : Text → Option RemoteBinding) where
  abbrev pub fires : ℕ → CronExpr → Bool
  fires now expr = elim (next_fire expr now) [ none ↦ false | some at ↦ true ]

  unfoldable pub initial_next_run : Text → Bool → ℕ → Option ℕ
  initial_next_run cron enabled now =
      if not enabled
      then none
      else elim (parse cron) [ err fault ↦ none | ok expr ↦ next_fire expr now ]

  unfoldable pub created : Text → ScheduleRequest → ℕ → ScheduleTask
  unfolding initial_next_run
  created id request now = record {
    id = id;
    name = trim request.name;
    kind = request.kind;
    source_connection_id = request.source_connection_id;
    source_path = request.source_path;
    target_connection_id = or_else request.target_connection_id request.source_connection_id;
    target_path = request.target_path;
    cron = trim request.cron;
    enabled = or_else request.enabled true;
    options = request.options;
    bisync_resync_done = false;
    created_at = now;
    last_run_at = none;
    last_run_status = none;
    next_run_at = initial_next_run request.cron (or_else request.enabled true) now;
  }

  unfoldable pub create :
      Text → ScheduleRequest → ℕ → Scheduler → Result ScheduleError ScheduleTask × Scheduler
  unfolding created
  create id request now scheduler =
      let task = created id request now in
      if text_eq task.name []
      then (err ScheduleError.empty_name, scheduler)
      else elim (validate (fires now) binding request) [
        | err fault ↦ (err fault, scheduler)
        | ok _ ↦
            if any (λ existing. text_eq existing.name task.name) scheduler.tasks
            then (err (ScheduleError.name_in_use task.name), scheduler)
            else (ok task, record scheduler { tasks = scheduler.tasks ++ (task ∷ []) })
      ]

  unfoldable pub updated : ScheduleRequest → ℕ → ScheduleTask → ScheduleTask
  unfolding initial_next_run pair_changed reschedules
  updated request now task =
      let enabled = or_else request.enabled task.enabled in
      record task {
        name = trim request.name;
        kind = request.kind;
        source_connection_id = request.source_connection_id;
        source_path = request.source_path;
        target_connection_id = or_else request.target_connection_id request.source_connection_id;
        target_path = request.target_path;
        cron = trim request.cron;
        next_run_at =
            if reschedules request task
            then initial_next_run (trim request.cron) enabled now
            else task.next_run_at;
        bisync_resync_done = if pair_changed request task then false else task.bisync_resync_done;
        enabled = enabled;
        options = request.options;
      }

  unfoldable pub update :
      Text → ScheduleRequest → ℕ → Scheduler → Result ScheduleError ScheduleTask × Scheduler
  unfolding updated
  update id request now scheduler =
      let name = trim request.name in
      if text_eq name []
      then (err ScheduleError.empty_name, scheduler)
      else elim (validate (fires now) binding request) [
        | err fault ↦ (err fault, scheduler)
        | ok _ ↦
            if any (λ existing. not (text_eq existing.id id) && text_eq existing.name name)
              scheduler.tasks
            then (err (ScheduleError.name_in_use name), scheduler)
            else rewrite_task id (updated request now) scheduler
      ]
