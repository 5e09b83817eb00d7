-- ===== src/Archive/Tests.antt =====
-- Tests of the model of backend/src/archive.rs, and its theorems at concrete inputs.
use dbx_plugin_files.Prelude.{
  ℕ, ◌≡◌, ◌≢◌, ◌≤◌, ◌⊎◌, refl, List, [], ◌∷◌, ◌++◌, true, false, arith, length, ok, err,
}
use dbx_plugin_files.Prelude.Text.{
  codes, text_eq, contains, starts_with, split_on, cons_head, join, trim, trim_end_matches,
  trim_start_matches, is_whitespace,
}
use dbx_plugin_files.Policy.Segments.{is_skipped, is_parent}
use dbx_plugin_files.Archive.Paths.{ArchiveError, sanitize_entry_path}
use dbx_plugin_files.Archive.Reader.{new, bits, align_to_byte, copy_bytes}
use dbx_plugin_files.Archive.Reading.{remaining, size}
use dbx_plugin_files.Archive.Huffman.{build, decode}
use dbx_plugin_files.Archive.Inflate.{inflate}
use dbx_plugin_files.Archive.Gzip.{
  gunzip, gzip_stored_wrap, crc32, gzip_header, gzip_trailer, deflate_stored_blocks,
}
use dbx_plugin_files.Archive.Streams.{as_stream, take_bits, LeavesReader, bits-refines}
use dbx_plugin_files.Archive.Confined.{IsConfined, sanitize_entry_path-IsConfined}
use dbx_plugin_files.Archive.Drives.{drive_passes}
use dbx_plugin_files.Archive.Bombs.{new-IsReader, inflate-guarded}
use dbx_plugin_files.Archive.Framing.{gunzip-gzip_stored_wrap, gunzip_unfinished}

-- A fixed block of "abaabaab", as zlib makes it.
abbrev fixed_block : List ℕ
fixed_block = 0x4b ∷ 0x4c ∷ 0x4a ∷ 0x04 ∷ 0x23 ∷ 0x00 ∷ []

fixed_block_decodes : inflate fixed_block 100 ≡ ok (codes "abaabaab")
unfolding inflate new bits align_to_byte copy_bytes build decode
fixed_block_decodes = refl

crc_check_value : crc32 (codes "123456789") ≡ 0xcbf43926
unfolding crc32
crc_check_value = refl

-- The theorems at inputs that meet their hypotheses.
sanitize_entry_path-IsConfined_example : IsConfined (codes "a/b")
unfolding sanitize_entry_path trim is_skipped is_parent contains starts_with split_on cons_head join
    text_eq trim_end_matches trim_start_matches is_whitespace
sanitize_entry_path-IsConfined_example =
    sanitize_entry_path-IsConfined (codes " ./a//b ") (codes "a/b") refl

drive_passes_example :
    (sanitize_entry_path (codes "./C:x") ≡ ok (codes "C:x"))
    × (sanitize_entry_path (codes "C:x") ≡ err ArchiveError.drive_path)
unfolding trim trim_end_matches trim_start_matches is_whitespace
drive_passes_example =
    drive_passes b'C' (codes "x") (omega arith) (refl, (refl, (refl, tt)))
      (refl, (refl, (refl, tt))) refl refl

bits-refines_example :
    (as_stream (bits 3 (new fixed_block))
      ≡ take_bits 3 (remaining (new fixed_block)) (size (new fixed_block)))
    × LeavesReader (bits 3 (new fixed_block))
bits-refines_example =
    bits-refines 3 (new fixed_block) (new-IsReader fixed_block (omega arith)) (omega arith)

inflate-guarded_example :
    ((fault : ArchiveError) × (inflate fixed_block 100 ≡ err fault)
      × (fault ≢ ArchiveError.diverged))
    ⊎ ((out : List ℕ) × (inflate fixed_block 100 ≡ ok out) × (length out ≤ 100))
inflate-guarded_example = inflate-guarded fixed_block 100 (omega arith)

gunzip-gzip_stored_wrap_example :
    gunzip (gzip_stored_wrap (104 ∷ 105 ∷ [])) 100 ≡ ok (104 ∷ 105 ∷ [])
gunzip-gzip_stored_wrap_example =
    gunzip-gzip_stored_wrap 104 (105 ∷ []) 100 (omega arith) (omega arith)

abbrev two_letters : List ℕ
two_letters = 104 ∷ 105 ∷ []

gunzip_unfinished_example :
    gunzip
      (gzip_header
        ++ ((deflate_stored_blocks two_letters false ++ deflate_stored_blocks [] true)
            ++ gzip_trailer 0xd8932aac (length two_letters)))
      100
    ≡ err ArchiveError.end_of_stream
gunzip_unfinished_example = gunzip_unfinished two_letters 0xd8932aac 100 (omega arith) (omega arith)
