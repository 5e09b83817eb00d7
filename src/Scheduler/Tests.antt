-- ===== src/Scheduler/Tests.antt =====
-- Tests of the model of backend/src/scheduler/mod.rs, and the theorem at a concrete input.
use dbx_plugin_files.Prelude.{ℕ, ◌≡◌, refl, [], ◌∷◌, none, some, true, false, Option, err}
use dbx_plugin_files.Prelude.Text.{Text, codes, text_eq}
use dbx_plugin_files.Cron.Fields.{CronExpr}
use dbx_plugin_files.Scheduler.Model.{
  ScheduleKind, ScheduleOptions, ScheduleTask, ScheduleRequest, ScheduleError, Scheduler,
  RemoteBinding,
}
use dbx_plugin_files.Scheduler.Validate.{check_kind, check_retention, backup_of}
use dbx_plugin_files.Scheduler.Tasks.{create, update, pair_changed, same_kind}
use dbx_plugin_files.Scheduler.Names.{Unique, create-update-Unique}

abbrev pub no_options : ScheduleOptions
no_options = record {
  dry_run = none;
  max_delete = none;
  include = none;
  exclude = none;
  backup_dir = none;
  suffix = none;
  metadata = none;
  update_only = none;
  existing = none;
  immutable = none;
  min_size = none;
  max_size = none;
  min_age = none;
  max_age = none;
  transfers = none;
  checkers = none;
  retries = none;
  verify_after = false;
  retention_days = none;
}

abbrev pub nightly : ScheduleTask
nightly = record {
  id = codes "t1";
  name = codes "nightly";
  kind = ScheduleKind.bisync;
  source_connection_id = codes "c1";
  source_path = codes "/data";
  target_connection_id = codes "c1";
  target_path = codes "/mirror";
  cron = codes "0 3 * * *";
  enabled = true;
  options = no_options;
  bisync_resync_done = true;
  created_at = 1000;
  last_run_at = none;
  last_run_status = none;
  next_run_at = none;
}

abbrev pub moved : ScheduleRequest
moved = record {
  name = codes " weekly ";
  kind = ScheduleKind.bisync;
  source_connection_id = codes "c1";
  source_path = codes "/data";
  target_connection_id = none;
  target_path = codes "/other";
  cron = codes "0 3 * * 0";
  enabled = none;
  options = no_options;
}

abbrev pub open_binding : RemoteBinding
open_binding = record {
  root = codes "/";
  lock_to_root = false;
  read_only = false;
  allow_delete = true;
}

abbrev pub one_task : Scheduler
one_task = record { tasks = nightly ∷ []; running = [] }

abbrev pub fires_soon : CronExpr → ℕ → Option ℕ
fires_soon expr now = some 5000

abbrev pub all_open : Text → Option RemoteBinding
all_open id = some open_binding

moved_pair : pair_changed moved nightly ≡ true
unfolding pair_changed same_kind text_eq
moved_pair = refl

read_only_mirror :
    check_kind ScheduleKind.sync open_binding (record open_binding { read_only = true })
    ≡ err (ScheduleError.read_only (codes "target"))
unfolding check_kind
read_only_mirror = refl

retention_needs_backup :
    check_retention open_binding (record no_options { retention_days = some 7 })
    ≡ err ScheduleError.retention_without_backup
unfolding check_retention backup_of
retention_needs_backup = refl

create-update-Unique_example :
    Unique (create fires_soon all_open (codes "t2") moved 2000 one_task).1.tasks
    × Unique (update fires_soon all_open (codes "t1") moved 2000 one_task).1.tasks
unfolding text_eq
create-update-Unique_example =
    create-update-Unique fires_soon all_open (codes "t2") (codes "t1") moved 2000 one_task
      (refl, (refl, tt)) refl
