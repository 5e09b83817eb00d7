-- ===== src/Scheduler/Driving.antt =====
-- `drive_run`, `verify_run` and `prune_retention` of backend/src/scheduler/mod.rs, and the requests
-- of backend/src/scheduler/model.rs. What the engine, the job hooks and the rc client answer is an
-- argument; the jobs are those of Awaiting.
use dbx_plugin_files.Prelude.{
  ℕ, Bool, true, false, not, ◌&&◌, ◌++◌, Option, none, some, if◌then◌else◌, Result, ok, err, ◌>>=◌,
}
use dbx_plugin_files.Prelude.Text.{Text, codes, text_eq}
use dbx_plugin_files.Policy.Segments.{PathError}
use dbx_plugin_files.Policy.Resolve.{ResolvedPath, from_parts}
use dbx_plugin_files.Policy.Gates.{check_delete}
use dbx_plugin_files.Store.Rings.{RunRecord}
use dbx_plugin_files.Scheduler.Model.{
  ScheduleKind, ScheduleTask, ScheduleOptions, RemoteBinding, or_else,
}
use dbx_plugin_files.Scheduler.Tasks.{same_kind, write_task}
use dbx_plugin_files.Scheduler.Validate.{backup_of}
use dbx_plugin_files.Scheduler.Awaiting.{JobStatus, Outcome}
use dbx_plugin_files.Scheduler.Model.{Scheduler}

-- The fields of a `DirJobRequest` that depend on the task; the rest is `None`.
pub record DirJobRequest : Type 0 where
  pub source_connection_id : Text
  pub source_path : Text
  pub target_connection_id : Text
  pub target_path : Text
  pub options : ScheduleOptions
  pub mirror : Bool

pub record BisyncStartRequest : Type 0 where
  pub source_connection_id : Text
  pub source_path : Text
  pub target_connection_id : Text
  pub target_path : Text
  pub mode : Text
  pub dry_run : Option Bool

pub record CheckRequest : Type 0 where
  pub source_connection_id : Text
  pub source_path : Text
  pub target_connection_id : Text
  pub target_path : Text

pub data JobRequest : Type 0 where
  dir_job : DirJobRequest → JobRequest
  bisync_job : BisyncStartRequest → JobRequest
  check_job : CheckRequest → JobRequest

unfoldable pub to_dir_job_request : Bool → ScheduleTask → DirJobRequest
to_dir_job_request mirror task = record {
  source_connection_id = task.source_connection_id;
  source_path = task.source_path;
  target_connection_id = task.target_connection_id;
  target_path = task.target_path;
  options = task.options;
  mirror = mirror;
}

unfoldable pub to_bisync_request : Bool → ScheduleTask → BisyncStartRequest
to_bisync_request resync task = record {
  source_connection_id = task.source_connection_id;
  source_path = task.source_path;
  target_connection_id = task.target_connection_id;
  target_path = task.target_path;
  mode = if resync then codes "resync" else codes "run";
  dry_run = task.options.dry_run;
}

-- The job that a run starts.
unfoldable pub job_request : ScheduleTask → JobRequest
unfolding to_dir_job_request to_bisync_request same_kind
job_request task =
    if same_kind task.kind ScheduleKind.bisync
    then JobRequest.bisync_job (to_bisync_request (not task.bisync_resync_done) task)
    else JobRequest.dir_job (to_dir_job_request (same_kind task.kind ScheduleKind.sync) task)

unfoldable pub check_request : ScheduleTask → JobRequest
check_request task = JobRequest.check_job (record {
  source_connection_id = task.source_connection_id;
  source_path = task.source_path;
  target_connection_id = task.target_connection_id;
  target_path = task.target_path;
})

-- The engine and the jobs: the registry, a started job's id or an error, what its poll loop
-- returned, the files that its sync record counts, a prune's answer, and a refusal's text.
pub record Engine : Type 0 where
  pub binding : Text → Result Text RemoteBinding
  pub start : JobRequest → Result Text Text
  pub await_job : Text → Outcome
  pub files_done : Text → Option ℕ
  pub prune : RemoteBinding → Text → ℕ → Result Text (Unit {0})
  pub refusal : PathError → Text

unfoldable pub bound_pair : Engine → ScheduleTask → Result Text (Unit {0})
bound_pair engine task = do
  source ← engine.binding task.source_connection_id
  if text_eq task.target_connection_id task.source_connection_id
      then ok tt
      else (engine.binding task.target_connection_id >>= λ target. ok tt)

unfoldable pub verify_run : Engine → ScheduleTask → Result Text (Unit {0})
unfolding check_request
verify_run engine task = elim (engine.start (check_request task)) [
  | err fault ↦ err fault
  | ok job_id ↦
      let outcome = engine.await_job job_id in
      elim outcome.status [
        | JobStatus.completed ↦ ok tt
        | _ ↦ err (or_else outcome.error (codes "check job did not complete"))
      ]
]

unfoldable pub delete_checked : Engine → Result PathError ResolvedPath → Result Text Text
delete_checked engine (ok resolved) = ok resolved.relative
delete_checked engine (err fault) = err (engine.refusal fault)

unfoldable pub prune_retention : Engine → ScheduleTask → Result Text (Unit {0})
unfolding backup_of delete_checked
prune_retention engine task = elim task.options.retention_days [
  | none ↦ ok tt
  | some days ↦ elim (backup_of task.options) [
    | none ↦ ok tt
    | some backup_dir ↦ engine.binding task.target_connection_id >>= λ target.
        let policy =
          from_parts target.root target.lock_to_root target.read_only target.allow_delete in
        delete_checked engine (check_delete policy backup_dir) >>= λ relative.
        engine.prune target relative days
  ]
]

unfoldable pub verify_note : Engine → ScheduleTask → Option Text → Option Text
unfolding verify_run
verify_note engine task previous =
    if task.options.verify_after
    then (elim (verify_run engine task) [
      | ok _ ↦ previous
      | err fault ↦ some (codes "verify failed: " ++ fault)
    ])
    else previous

unfoldable pub add_note : Option Text → Result Text (Unit {0}) → Option Text
add_note previous (ok done) = previous
add_note none (err fault) = some (codes "retention: " ++ fault)
add_note (some text) (err fault) = some (text ++ codes "; retention: " ++ fault)

-- Whether a completed run stamps its task as resynced.
unfoldable pub stamps : ScheduleTask → Bool
unfolding same_kind
stamps task = same_kind task.kind ScheduleKind.bisync && not task.bisync_resync_done

unfoldable pub stamp_resync : Text → Scheduler → Scheduler
unfolding write_task
stamp_resync id scheduler = record scheduler {
  tasks = write_task id (λ task. record task { bisync_resync_done = true }) scheduler.tasks;
}

unfoldable pub settle : Text → Option Text → RunRecord → RunRecord
settle status error run = record run { status = status; error = error }

-- The record behind the awaited job, and whether the task is stamped.
unfoldable pub after_job : Engine → ScheduleTask → Text → Outcome → RunRecord → RunRecord × Bool
unfolding verify_note prune_retention add_note stamps settle
after_job engine task job_id outcome run = elim outcome.status [
  | JobStatus.completed ↦ (
    record (settle (codes "success")
        (add_note (verify_note engine task run.error) (prune_retention engine task)) run) {
          bytes = outcome.bytes;
          files = engine.files_done job_id;
        },
    stamps task,
  )
  | JobStatus.canceled ↦ (settle (codes "canceled") outcome.error run, false)
  | _ ↦ (settle (codes "failed") outcome.error run, false)
]

-- The run's record and the stamp at the end of `drive_run`.
unfoldable pub drive_run : Engine → ScheduleTask → RunRecord → RunRecord × Bool
unfolding bound_pair job_request after_job settle
drive_run engine task run = elim (bound_pair engine task) [
  | err fault ↦
      (settle (codes "skipped") (some (codes "connection unavailable: " ++ fault)) run, false)
  | ok _ ↦ elim (engine.start (job_request task)) [
    | err fault ↦ (settle (codes "failed") (some fault) run, false)
    | ok job_id ↦
        after_job engine task job_id (engine.await_job job_id) (record run { job_id = some job_id })
  ]
]
