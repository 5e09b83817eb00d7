-- ===== src/Scheduler/Validate.antt =====
-- What a task must satisfy to be stored (`validate` of backend/src/scheduler/mod.rs).
use dbx_plugin_files.Prelude.{
  Bool, true, false, not, [], ◌∷◌, Option, none, some, Result, ok, err, fail_if, ◌>>=◌, ◌>>◌,
}
use dbx_plugin_files.Prelude.Text.{Text, codes, trim}
use dbx_plugin_files.Cron.Fields.{CronError, CronExpr, parse}
use dbx_plugin_files.Policy.Segments.{PathError}
use dbx_plugin_files.Policy.Resolve.{PathPolicy, ResolvedPath, from_parts}
use dbx_plugin_files.Policy.Gates.{check_read, check_write}
use dbx_plugin_files.Scheduler.Model.{
  ScheduleKind, ScheduleOptions, ScheduleRequest, ScheduleError, RemoteBinding, or_else,
}

-- A refusal of the path policy.
abbrev pub path_checked : Result PathError ResolvedPath → Result ScheduleError (Unit {0})
path_checked (ok resolved) = ok tt
path_checked (err fault) = err (ScheduleError.path_refused fault)

abbrev pub parsed : Result CronError CronExpr → Result ScheduleError CronExpr
parsed (ok expr) = ok expr
parsed (err fault) = err (ScheduleError.bad_cron fault)

-- The gates of the three kinds, on the source's and the target's connection.
unfoldable pub check_kind :
    ScheduleKind → RemoteBinding → RemoteBinding → Result ScheduleError (Unit {0})
check_kind ScheduleKind.sync source target = do
  fail_if target.read_only (ScheduleError.read_only (codes "target"))
  fail_if (not target.allow_delete) (ScheduleError.no_deletes (codes "target"))
check_kind ScheduleKind.copy source target =
    fail_if target.read_only (ScheduleError.read_only (codes "target"))
check_kind ScheduleKind.bisync source target = do
  fail_if source.read_only (ScheduleError.read_only (codes "source"))
  fail_if (not source.allow_delete) (ScheduleError.no_deletes (codes "source"))
  fail_if target.read_only (ScheduleError.read_only (codes "target"))
  fail_if (not target.allow_delete) (ScheduleError.no_deletes (codes "target"))

-- The backup directory, trimmed, where it is not blank.
unfoldable pub backup_of : ScheduleOptions → Option Text
unfolding trim
backup_of options = elim options.backup_dir [
  | none ↦ none
  | some text ↦ (elim (trim text) [ [] ↦ none | c ∷ rest ↦ some (c ∷ rest) ])
]

unfoldable pub check_backup : PathPolicy → ScheduleOptions → Result ScheduleError (Unit {0})
unfolding backup_of
check_backup policy options = elim (backup_of options) [
  | none ↦ ok tt
  | some backup_dir ↦ path_checked (check_write policy backup_dir)
]

unfoldable pub check_retention : RemoteBinding → ScheduleOptions → Result ScheduleError (Unit {0})
unfolding backup_of
check_retention target options = elim options.retention_days [
  | none ↦ ok tt
  | some days ↦ (elim (backup_of options) [
    | none ↦ err ScheduleError.retention_without_backup
    | some backup_dir ↦
        fail_if (not target.allow_delete) (ScheduleError.no_deletes (codes "target"))
  ])
]

-- `fires` is whether a cron expression has a next instant, and `binding` the engine's registry.
module _ (fires : CronExpr → Bool) (binding : Text → Option RemoteBinding) where
  unfoldable pub bound : Text → Result ScheduleError RemoteBinding
  bound id = elim (binding id) [
    | none ↦ err (ScheduleError.unknown_connection id)
    | some found ↦ ok found
  ]

  abbrev pub policy_of : RemoteBinding → PathPolicy
  policy_of found = from_parts found.root found.lock_to_root false true

  unfoldable pub validate : ScheduleRequest → Result ScheduleError (Unit {0})
  unfolding bound check_kind check_backup check_retention
  validate request = do
    expr ← parsed (parse request.cron)
    fail_if (not (fires expr)) ScheduleError.never_fires
    source ← bound request.source_connection_id
    target ← bound (or_else request.target_connection_id request.source_connection_id)
    check_kind request.kind source target
    path_checked (check_read (policy_of source) request.source_path)
    path_checked (check_write (policy_of target) request.target_path)
    check_backup (policy_of target) request.options
    check_retention target request.options
