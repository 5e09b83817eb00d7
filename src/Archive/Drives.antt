-- ===== src/Archive/Drives.antt =====
-- Drive paths and the zip-slip guard of backend/src/archive.rs.
use dbx_plugin_files.Prelude.{ℕ, ◌≡◌, refl, ◌<◌, true, false, ◌==◌, [], ◌∷◌, arith, ok, err}
use dbx_plugin_files.Prelude.Text.{
  Text, text_eq, contains, starts_with, split_on, join, trim, Lacks,
}
use dbx_plugin_files.Prelude.Split.{split_on_whole, split_on-sep, All→any}
use dbx_plugin_files.Policy.Segments.{slash, backslash, dot, is_skipped, is_parent}
use dbx_plugin_files.Archive.Paths.{
  ArchiveError, colon, is_drive, keep_components, sanitize_entry_path,
}

-- The two components of `./` and a plain name.
dotted_components :
    (name : Text) → Lacks slash name → split_on slash (dot ∷ slash ∷ name) ≡ (dot ∷ []) ∷ name ∷ []
dotted_components name whole =
    rw (split_on-sep slash (dot ∷ []) name (refl, tt), split_on_whole slash name whole) refl

module _ (c : ℕ) (rest : Text) (ascii : c < 128) (whole : Lacks slash (c ∷ colon ∷ rest))
    (plain : Lacks backslash (c ∷ colon ∷ rest)) where
  kept_drive : keep_components ((dot ∷ []) ∷ (c ∷ colon ∷ rest) ∷ []) ≡ ok ((c ∷ colon ∷ rest) ∷ [])
  unfolding keep_components is_skipped is_parent text_eq
  kept_drive = ground (arith, ascii)

  no_backslash : contains backslash (dot ∷ slash ∷ c ∷ colon ∷ rest) ≡ false
  unfolding contains
  no_backslash =
      All→any (λ d. d == backslash) (dot ∷ slash ∷ c ∷ colon ∷ rest) (refl, (refl, plain))

  drive_lacks : contains backslash (c ∷ colon ∷ rest) ≡ false
  unfolding contains
  drive_lacks = All→any (λ d. d == backslash) (c ∷ colon ∷ rest) plain

  -- The first character is no slash, and takes one byte.
  drive_tests :
      (starts_with (c ∷ colon ∷ rest) (slash ∷ []) ≡ false) × (is_drive (c ∷ colon ∷ rest) ≡ true)
  unfolding starts_with is_drive
  drive_tests = (ground (arith, whole.0), ground (arith, ascii))

  -- A drive path is refused by itself, but behind `./` it is let through, and what comes out is the
  -- drive path. The name is any with an ASCII first character, no slash or backslash, and nothing to
  -- trim.
  pub drive_passes :
      trim (dot ∷ slash ∷ c ∷ colon ∷ rest) ≡ dot ∷ slash ∷ c ∷ colon ∷ rest
      → trim (c ∷ colon ∷ rest) ≡ c ∷ colon ∷ rest
      → (sanitize_entry_path (dot ∷ slash ∷ c ∷ colon ∷ rest) ≡ ok (c ∷ colon ∷ rest))
        × (sanitize_entry_path (c ∷ colon ∷ rest) ≡ err ArchiveError.drive_path)
  unfolding sanitize_entry_path text_eq starts_with join is_drive
  drive_passes dotted_trim drive_trim = (
    rw
        (
          sanitize_entry_path,
          dotted_trim,
          no_backslash,
          dotted_components (c ∷ colon ∷ rest) whole,
          kept_drive,
        )
        refl,
    rw (sanitize_entry_path, drive_trim, drive_lacks, drive_tests.0, drive_tests.1) refl,
  )
