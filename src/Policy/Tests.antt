-- ===== src/Policy/Tests.antt =====
-- Tests of the model of backend/src/policy.rs, on the inputs of its own tests, and the theorems
-- at concrete inputs.
use dbx_plugin_files.Prelude.{true, false, [], ◌∷◌, some, none, ok, err, ◌≡◌, ◌≢◌, ◌↔◌, refl}
use dbx_plugin_files.Prelude.Text.{
  codes, is_control, replace, split_on, starts_with, strip_prefix, trim_start_matches,
}
use dbx_plugin_files.Policy.Segments.{
  PathError, slash, backslash, is_skipped, is_parent, escapes_via_backslash, walk_segments,
  sanitize, render,
}
use dbx_plugin_files.Policy.Sanitize.{
  IsSegment, IsCanonical, sanitize-IsCanonical, escapes_via_backslash-walk,
}
use dbx_plugin_files.Policy.Backslash.{
  IsPlain, hidden_traversal, traversal, hidden_traversal_passes,
}
use dbx_plugin_files.Policy.Resolve.{
  PathPolicy, ResolvedPath, PolicyConfig, canonical_root, resolve,
}
use dbx_plugin_files.Policy.Whitelist.{IsWhitelisted, resolve-IsWhitelisted}
use dbx_plugin_files.Policy.Gates.{
  check_read, check_write, check_delete, check_purge, check_copy, check_rename,
}
use dbx_plugin_files.Policy.Refusals.{read_only_refuses}

sanitize_dots : sanitize (codes "a/./b//../c") ≡ ok (codes "/a/c")
unfolding sanitize
sanitize_dots = refl

sanitize_escape : sanitize (codes "a/../..") ≡ err PathError.escapes_root
unfolding sanitize
sanitize_escape = refl

sanitize_backslash_name : sanitize (codes "keys/a\\b") ≡ ok (codes "/keys/a\\b")
unfolding sanitize
sanitize_backslash_name = refl

canonical_drive_root : canonical_root (codes "C:\\data\\") ≡ codes "/C:/data"
unfolding canonical_root trim_start_matches
canonical_drive_root = refl

abbrev nas : PathPolicy
nas = record {
  root = codes "/mnt/nas";
  lock_to_root = true;
  read_only = false;
  allow_delete = true;
}

abbrev archive : PathPolicy
archive = record nas { read_only = true }

resolve_forms :
    (resolve nas (codes "sub/f")
      ≡ ok (record { absolute = codes "/mnt/nas/sub/f"; relative = codes "sub/f" }))
    × (resolve nas (codes "/sub")
        ≡ ok (record { absolute = codes "/mnt/nas/sub"; relative = codes "sub" }))
    × (resolve nas (codes "/mnt/nas/x")
        ≡ ok (record { absolute = codes "/mnt/nas/x"; relative = codes "x" }))
    × (resolve nas (codes "") ≡ ok (record { absolute = codes "/mnt/nas"; relative = [] }))
unfolding resolve sanitize starts_with strip_prefix
resolve_forms = (refl, refl, refl, refl)

-- The locked root does not stop a traversal that only the backslash reading shows.
resolve_hidden :
    resolve nas (codes "d\\e/../..\\f")
    ≡ ok (record { absolute = codes "/mnt/nas/..\\f"; relative = codes "..\\f" })
unfolding resolve sanitize starts_with strip_prefix
resolve_hidden = refl

sanitize-IsCanonical_example : IsCanonical (codes "/a/c")
unfolding sanitize
sanitize-IsCanonical_example = sanitize-IsCanonical (codes "a/./b//../c") refl

a-IsSegment : IsSegment (codes "a")
unfolding is_skipped is_parent is_control
a-IsSegment = record { kept = refl; down = refl; whole = (refl, tt); printable = (refl, tt) }

a-IsPlain : IsPlain (codes "a")
a-IsPlain = record { segment = a-IsSegment; bare = (refl, tt) }

a-IsCanonical : IsCanonical (codes "/a")
unfolding render
a-IsCanonical = (codes "a" ∷ [], (a-IsSegment, tt), refl)

escapes_via_backslash-walk_example :
    (escapes_via_backslash (codes "a\\..\\..") ≡ true)
    ↔ (walk_segments [] (split_on slash (replace backslash slash (codes "a\\..\\.."))) ≡ none)
escapes_via_backslash-walk_example = escapes_via_backslash-walk (codes "a\\..\\..")

hidden_traversal_passes_example :
    (sanitize (hidden_traversal (codes "a") (codes "a") (codes "a")) ≡ ok (traversal (codes "a")))
    × (sanitize (traversal (codes "a")) ≡ err PathError.backslash_traversal)
hidden_traversal_passes_example =
    hidden_traversal_passes (codes "a") (codes "a") (codes "a") a-IsPlain a-IsPlain a-IsPlain

abbrev nas_config : PolicyConfig
nas_config = record {
  root = some (codes "mnt/nas/");
  lock_to_root = some true;
  read_only = none;
  allow_delete = none;
}

abbrev locked : PathPolicy
locked = record { root = codes "/a"; lock_to_root = true; read_only = false; allow_delete = true }

resolve-IsWhitelisted_example :
    IsWhitelisted locked (codes "/x/../b") (resolve locked (codes "/x/../b"))
resolve-IsWhitelisted_example = resolve-IsWhitelisted locked (codes "/x/../b") a-IsCanonical

abbrev sub : ResolvedPath
sub = record { absolute = codes "/mnt/nas/sub"; relative = codes "sub" }

read_only_refuses_example :
    ((found : ResolvedPath)
      → (check_write archive (codes "a") ≢ ok found)
        × (check_delete archive (codes "a") ≢ ok found)
        × (check_purge archive (codes "a") ≢ ok found))
    × ((pair : ResolvedPath × ResolvedPath)
        → (check_copy archive (codes "a") (codes "b") ≢ ok pair)
          × (check_rename archive (codes "a") (codes "b") ≢ ok pair))
    × (check_read archive (codes "a")
        ≡ check_read (record archive { read_only = false }) (codes "a"))
read_only_refuses_example = read_only_refuses archive (codes "a") (codes "b") refl
