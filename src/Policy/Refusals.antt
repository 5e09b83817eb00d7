-- ===== src/Policy/Refusals.antt =====
-- When the gates of `PathPolicy` (backend/src/policy.rs) open, and what they let through.
use dbx_plugin_files.Prelude.{
  ℕ, zero, suc, true, false, [], ◌∷◌, Result, ok, ◌≡◌, ◌≢◌, ◌↔◌, refl, arith, inl, inr,
  Result-cases,
}
use dbx_plugin_files.Prelude.Text.{Text, text_eq_iff, text_eq_of_ne}
use dbx_plugin_files.Policy.Segments.{PathError, slash, sanitize}
use dbx_plugin_files.Policy.Resolve.{
  PathPolicy, ResolvedPath, trim_slashes, is_under_root, absolute_of, relative_of, resolved_at,
  confine, resolve_within, resolve,
}
use dbx_plugin_files.Policy.Gates.{
  ensure_delete_allowed, check_read, check_write, check_delete, check_purge, check_copy,
  check_rename,
}

-- A purge goes through exactly when the path resolves to neither `/` nor the connection's root and
-- the connection is writable and allows deletion.
pub check_purge_iff :
    (policy : PathPolicy) (path : Text) (found : ResolvedPath)
    → (check_purge policy path ≡ ok found) ↔ (
        (resolve policy path ≡ ok found)
        × (found.absolute ≢ slash ∷ [])
        × (found.absolute ≢ policy.root)
        × (policy.read_only ≡ false)
        × (policy.allow_delete ≡ true))
unfolding check_purge ensure_delete_allowed
check_purge_iff policy path found =
    let bare = text_eq_iff found.absolute (slash ∷ []) in
    let root = text_eq_iff found.absolute policy.root in
    (
      λ h. (ground arith, λ e. ground arith, λ e. ground arith, ground arith, ground arith),
      λ h. ground (
        arith,
        text_eq_of_ne found.absolute (slash ∷ []) h.1,
        text_eq_of_ne found.absolute policy.root h.2,
      ),
    )

-- A rename goes through exactly when both paths resolve, the connection is writable and it allows
-- the deletion of the source.
pub check_rename_iff :
    (policy : PathPolicy) (source target : Text) (from to : ResolvedPath)
    → (check_rename policy source target ≡ ok (from, to)) ↔ (
        (resolve policy source ≡ ok from)
        × (resolve policy target ≡ ok to)
        × (policy.read_only ≡ false)
        × (policy.allow_delete ≡ true))
unfolding check_rename check_write ensure_delete_allowed
check_rename_iff policy source target from to = (λ h. ground arith, λ h. ground arith)

-- The resolution of a path looks at the root and at the lock alone.
confine_free :
    (policy : PathPolicy) (path absolute : Text) (retry : Result PathError ResolvedPath)
    → confine policy path absolute retry
      ≡ confine (record policy { read_only = false }) path absolute retry
unfolding confine resolved_at relative_of is_under_root
confine_free policy path absolute retry = refl

resolve_within_free :
    (fuel : ℕ) (policy : PathPolicy) (path : Text)
    → resolve_within fuel policy path
      ≡ resolve_within fuel (record policy { read_only = false }) path
unfolding resolve_within confine resolved_at relative_of absolute_of
resolve_within_free zero policy path = refl
resolve_within_free (suc fuel) policy path = elim (Result-cases (sanitize path)) [
  | inl (x, bad) ↦ rw bad refl
  | inr (clean, good) ↦ rw (good, resolve_within_free fuel policy (trim_slashes clean)) refl
]

-- On a read-only connection every mutating check fails, whatever the paths, and a read is answered as
-- on the same connection with writing allowed.
pub read_only_refuses :
    (policy : PathPolicy) (path other : Text)
    → policy.read_only ≡ true
    → ((found : ResolvedPath)
        → (check_write policy path ≢ ok found)
          × (check_delete policy path ≢ ok found)
          × (check_purge policy path ≢ ok found))
      × ((pair : ResolvedPath × ResolvedPath)
          → (check_copy policy path other ≢ ok pair) × (check_rename policy path other ≢ ok pair))
      × (check_read policy path ≡ check_read (record policy { read_only = false }) path)
unfolding check_read check_write check_delete check_purge check_copy check_rename resolve
    ensure_delete_allowed
read_only_refuses policy path other h = (
  λ found. (λ e. ground arith, λ e. ground arith, λ e. ground arith),
  λ pair. (λ e. ground arith, λ e. ground arith),
  resolve_within_free 2 policy path,
)
