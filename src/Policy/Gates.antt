-- ===== src/Policy/Gates.antt =====
-- The read, write, delete, purge, copy and rename checks of `PathPolicy` (backend/src/policy.rs).
use dbx_plugin_files.Prelude.{
  not, ◌||◌, [], ◌∷◌, Result, ok, err, fail_if, ◌>>=◌, ◌>>◌, if◌then◌else◌,
}
use dbx_plugin_files.Prelude.Text.{Text, text_eq}
use dbx_plugin_files.Policy.Segments.{PathError, slash}
use dbx_plugin_files.Policy.Resolve.{PathPolicy, ResolvedPath, resolve}

unfoldable pub ensure_delete_allowed : PathPolicy → Result PathError (Unit {0})
ensure_delete_allowed policy =
    if policy.read_only
    then err PathError.read_only_delete
    else if not policy.allow_delete
    then err PathError.delete_forbidden
    else ok tt

unfoldable pub check_delete_allowed : PathPolicy → Result PathError (Unit {0})
check_delete_allowed policy = ensure_delete_allowed policy

unfoldable pub check_read : PathPolicy → Text → Result PathError ResolvedPath
check_read policy path = resolve policy path

unfoldable pub check_write : PathPolicy → Text → Result PathError ResolvedPath
check_write policy path = do
  resolved ← resolve policy path
  fail_if policy.read_only PathError.read_only_write
  ok resolved

unfoldable pub check_delete : PathPolicy → Text → Result PathError ResolvedPath
check_delete policy path = do
  resolved ← resolve policy path
  ensure_delete_allowed policy
  ok resolved

unfoldable pub check_purge : PathPolicy → Text → Result PathError ResolvedPath
check_purge policy path = do
  resolved ← resolve policy path
  fail_if (text_eq resolved.absolute (slash ∷ []) || text_eq resolved.absolute policy.root)
      PathError.purge_of_root
  ensure_delete_allowed policy
  ok resolved

unfoldable pub check_copy :
    PathPolicy → Text → Text → Result PathError (ResolvedPath × ResolvedPath)
check_copy policy source target = do
  from ← resolve policy source
  to ← check_write policy target
  ok (from, to)

unfoldable pub check_rename :
    PathPolicy → Text → Text → Result PathError (ResolvedPath × ResolvedPath)
check_rename policy source target = do
  from ← resolve policy source
  to ← check_write policy target
  ensure_delete_allowed policy
  ok (from, to)
