-- ===== src/Policy/Resolve.antt =====
-- `PathPolicy`, its constructors and `resolve` (backend/src/policy.rs).
use dbx_plugin_files.Prelude.{
  ℕ, zero, suc, Bool, true, false, not, ◌&&◌, [], ◌∷◌, ◌++◌, Option, none, some, if◌then◌else◌,
  Result, ok, err, ◌>>=◌, ◌==◌,
}
use dbx_plugin_files.Prelude.Text.{
  Text, text_eq, starts_with, strip_prefix, replace, trim_start_matches, trim_end_matches, trim,
  is_ascii_alphabetic,
}
use dbx_plugin_files.Policy.Segments.{PathError, slash, backslash, sanitize}

pub record PathPolicy : Type 0 where
  pub root : Text
  pub lock_to_root : Bool
  pub read_only : Bool
  pub allow_delete : Bool

pub record ResolvedPath : Type 0 where
  pub absolute : Text
  pub relative : Text

-- The four entries of the connection's `external_config` that the policy reads: `none` where the
-- entry is missing or of another JSON type.
pub record PolicyConfig : Type 0 where
  pub root : Option Text
  pub lock_to_root : Option Bool
  pub read_only : Option Bool
  pub allow_delete : Option Bool

-- The first two bytes of a drive-letter root are ASCII, so they are its first two characters.
unfoldable pub is_drive_form : Text → Bool
unfolding is_ascii_alphabetic
is_drive_form (letter ∷ colon ∷ _) = is_ascii_alphabetic letter && colon == b':'
is_drive_form _ = false

unfoldable pub or_root : Result PathError Text → Text
or_root (ok []) = slash ∷ []
or_root (ok (c ∷ s)) = c ∷ s
or_root (err e) = slash ∷ []

-- The root without trailing slashes, and with `/` for the backslashes of a drive-letter root.
unfoldable pub root_spelling : Text → Text
unfolding trim_end_matches is_drive_form replace
root_spelling root =
    let trimmed = trim_end_matches (λ c. c == slash) root in
    if is_drive_form trimmed then replace backslash slash trimmed else trimmed

unfoldable pub canonical_root : Text → Text
unfolding root_spelling sanitize or_root
canonical_root root = or_root (sanitize (root_spelling root))

get_or : Option Bool → Bool → Bool
get_or none d = d
get_or (some b) d = b

unfoldable pub configured_root : Option Text → Text
unfolding trim text_eq
configured_root none = slash ∷ []
configured_root (some value) =
    let trimmed = trim value in if text_eq trimmed [] then slash ∷ [] else canonical_root trimmed

unfoldable pub from_config : PolicyConfig → PathPolicy
unfolding get_or
from_config config = record {
  root = configured_root config.root;
  lock_to_root = get_or config.lock_to_root false;
  read_only = get_or config.read_only false;
  allow_delete = get_or config.allow_delete true;
}

abbrev pub permissive : PathPolicy
permissive = record {
  root = slash ∷ [];
  lock_to_root = false;
  read_only = false;
  allow_delete = true;
}

-- Also `from_connection`, which passes the same four fields of a stored connection.
unfoldable pub from_parts : Text → Bool → Bool → Bool → PathPolicy
from_parts root lock_to_root read_only allow_delete = record {
  root = canonical_root root;
  lock_to_root = lock_to_root;
  read_only = read_only;
  allow_delete = allow_delete;
}

abbrev pub is_root : Text → Bool
is_root path = text_eq path (slash ∷ [])

-- `absolute == root || absolute.starts_with(root + "/")`.
unfoldable pub is_under_root : Text → Text → Bool
is_under_root root absolute =
    if text_eq absolute root then true else starts_with absolute (root ++ (slash ∷ []))

-- The three readings of a sanitized input.
unfoldable pub absolute_of : PathPolicy → Text → Text → Text
absolute_of policy path sanitized =
    if is_root sanitized
    then policy.root
    else if not (starts_with path (slash ∷ [])) && not (is_root policy.root)
    then policy.root ++ sanitized
    else sanitized

unfoldable pub trim_slashes : Text → Text
unfolding trim_start_matches
trim_slashes = trim_start_matches (λ c. c == slash)

unfoldable pub relative_of : PathPolicy → Text → Text
relative_of policy absolute =
    if is_root policy.root
    then trim_slashes absolute
    else if text_eq absolute policy.root
    then []
    else elim (strip_prefix absolute (policy.root ++ (slash ∷ []))) [
      | some rest ↦ rest
      | none ↦ trim_slashes absolute
    ]

unfoldable pub resolved_at : PathPolicy → Text → ResolvedPath
unfolding relative_of
resolved_at policy absolute = record { absolute = absolute; relative = relative_of policy absolute }

-- `retry` is the recursive call on the listing spelling.
unfoldable pub confine :
    PathPolicy → Text → Text → Result PathError ResolvedPath → Result PathError ResolvedPath
unfolding resolved_at
confine policy path absolute retry =
    if policy.lock_to_root && not (is_root policy.root)
    then (if is_under_root policy.root absolute
        then ok (resolved_at policy absolute)
        else if not (starts_with path (slash ∷ []))
        then err PathError.outside_root
        else retry)
    else ok (resolved_at policy absolute)

-- `resolve` calls itself on a relative spelling, so two rounds of fuel are enough.
unfoldable pub resolve_within : ℕ → PathPolicy → Text → Result PathError ResolvedPath
unfolding confine absolute_of is_under_root trim_slashes
resolve_within zero policy path = err PathError.diverged
resolve_within (suc fuel) policy path = do
  sanitized ← sanitize path
  let retry = resolve_within fuel policy (trim_slashes sanitized)
  confine policy path (absolute_of policy path sanitized) retry

unfoldable pub resolve : PathPolicy → Text → Result PathError ResolvedPath
unfolding resolve_within
resolve policy path = resolve_within 2 policy path
