-- ===== src/Scheduler/Model.antt =====
-- The data of the scheduler (backend/src/scheduler/model.rs and backend/src/scheduler/mod.rs).
use dbx_plugin_files.Prelude.{ℕ, Bool, List, Option, none, some}
use dbx_plugin_files.Prelude.Text.{Text}
use dbx_plugin_files.Cron.Fields.{CronError}
use dbx_plugin_files.Policy.Segments.{PathError}

pub data ScheduleKind : Type 0 where
  sync copy bisync : ScheduleKind

pub record ScheduleOptions : Type 0 where
  pub dry_run : Option Bool
  pub max_delete : Option ℕ
  pub include : Option (List Text)
  pub exclude : Option (List Text)
  pub backup_dir : Option Text
  pub suffix : Option Text
  pub metadata : Option Bool
  pub update_only : Option Bool
  pub existing : Option Bool
  pub immutable : Option Bool
  pub min_size : Option Text
  pub max_size : Option Text
  pub min_age : Option Text
  pub max_age : Option Text
  pub transfers : Option ℕ
  pub checkers : Option ℕ
  pub retries : Option ℕ
  pub verify_after : Bool
  pub retention_days : Option ℕ

pub record ScheduleTask : Type 0 where
  pub id : Text
  pub name : Text
  pub kind : ScheduleKind
  pub source_connection_id : Text
  pub source_path : Text
  pub target_connection_id : Text
  pub target_path : Text
  pub cron : Text
  pub enabled : Bool
  pub options : ScheduleOptions
  pub bisync_resync_done : Bool
  pub created_at : ℕ
  pub last_run_at : Option ℕ
  pub last_run_status : Option Text
  pub next_run_at : Option ℕ

-- `ScheduleCreateRequest`; `ScheduleUpdateRequest` has an identifier besides.
pub record ScheduleRequest : Type 0 where
  pub name : Text
  pub kind : ScheduleKind
  pub source_connection_id : Text
  pub source_path : Text
  pub target_connection_id : Option Text
  pub target_path : Text
  pub cron : Text
  pub enabled : Option Bool
  pub options : ScheduleOptions

pub data ScheduleError : Type 0 where
  empty_name : ScheduleError
  bad_cron : CronError → ScheduleError
  never_fires : ScheduleError
  unknown_connection : Text → ScheduleError
  read_only : Text → ScheduleError
  no_deletes : Text → ScheduleError
  path_refused : PathError → ScheduleError
  retention_without_backup : ScheduleError
  name_in_use : Text → ScheduleError
  not_found : ScheduleError

-- The tasks, and the identifiers of those with a live run.
pub record Scheduler : Type 0 where
  pub tasks : List ScheduleTask
  pub running : List Text

abbrev pub or_else {ℓ} : {A : Type ℓ} → Option A → A → A
or_else none d = d
or_else (some a) d = a

-- What the engine knows of a connection.
pub record RemoteBinding : Type 0 where
  pub root : Text
  pub lock_to_root : Bool
  pub read_only : Bool
  pub allow_delete : Bool
