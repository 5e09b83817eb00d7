-- ===== src/Archive/Paths.antt =====
-- The zip-slip guard `sanitize_entry_path` of backend/src/archive.rs, and the errors of that file.
use dbx_plugin_files.Prelude.{
  ℕ, Bool, false, ◌&&◌, ◌==◌, List, [], ◌∷◌, ltb, if◌then◌else◌, Result, ok, err, ◌>>=◌,
}
use dbx_plugin_files.Prelude.Text.{Text, text_eq, contains, starts_with, split_on, join, trim}
use dbx_plugin_files.Policy.Segments.{slash, backslash, is_skipped, is_parent}

pub data ArchiveError : Type 0 where
  -- entry paths
  empty_path backslash_path absolute_path drive_path parent_path : ArchiveError
  -- gzip and deflate
  zip_unsupported too_short bad_method truncated_header truncated_stream : ArchiveError
  crc_mismatch size_mismatch end_of_stream over_budget : ArchiveError
  bad_code_length over_subscribed bad_code bad_symbol bad_distance : ArchiveError
  bad_repeat no_end_code bad_stored_length bad_block : ArchiveError
  -- tar
  empty_field field_overflow bad_octal not_tar checksum_mismatch : ArchiveError
  oversized_payload truncated_entry bad_size_override no_entries : ArchiveError
  too_many_headers too_many_entries link_refused over_extraction : ArchiveError
  -- what Rust would panic on, and a loop without the fuel to end
  panicked diverged : ArchiveError

abbrev pub colon : ℕ
colon = b':'

-- `name.len() >= 2 && name.as_bytes()[1] == b':'`: the second byte is a character of its own where
-- the first character takes one byte.
unfoldable pub is_drive : Text → Bool
is_drive [] = false
is_drive (c ∷ []) = false
is_drive (c ∷ d ∷ rest) = ltb c 128 && d == colon

-- The loop over the components.
unfoldable pub keep_components : List Text → Result ArchiveError (List Text)
keep_components [] = ok []
keep_components (component ∷ components) =
    let rest = keep_components components in
    if is_skipped component
    then rest
    else if is_parent component
    then err ArchiveError.parent_path
    else (rest >>= λ kept. ok (component ∷ kept))

unfoldable pub normalized : List Text → Result ArchiveError Text
normalized components =
    let path = join slash components in
    if text_eq path [] then err ArchiveError.empty_path else ok path

unfoldable pub sanitize_entry_path : Text → Result ArchiveError Text
unfolding is_drive keep_components normalized
sanitize_entry_path raw =
    let name = trim raw in
    if text_eq name []
    then err ArchiveError.empty_path
    else if contains backslash name
    then err ArchiveError.backslash_path
    else if starts_with name (slash ∷ [])
    then err ArchiveError.absolute_path
    else if is_drive name
    then err ArchiveError.drive_path
    else (keep_components (split_on slash name) >>= normalized)
