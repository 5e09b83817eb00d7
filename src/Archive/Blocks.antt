-- ===== src/Archive/Blocks.antt =====
-- The variables of the tar walker of backend/src/archive.rs, and what a pass reads of a header block.
use dbx_plugin_files.Prelude.{
  ℕ, ◌+◌, ◌*◌, ◌/◌, ◌^◌, Bool, true, not, ◌&&◌, ◌==◌, List, [], ◌∷◌, ltb, leb, Option, Result, ok,
  err, fail_if, ◌>>=◌, ◌>>◌, length, drop,
}
use dbx_plugin_files.Prelude.Text.{Text}
use dbx_plugin_files.Archive.Paths.{ArchiveError}
use dbx_plugin_files.Archive.Fields.{slice, parse_numeric, header_checksum}

pub record Limits : Type 0 where
  pub max_entries : ℕ
  pub max_bytes : ℕ

pub record RawEntry : Type 0 where
  pub path : Text
  pub typeflag : ℕ
  pub size : ℕ
  pub mtime : ℕ
  pub payload : List ℕ
  pub is_link : Bool
  pub is_dir : Bool

-- The variables of the loop.
pub record Walk : Type 0 where
  pub entries : List RawEntry
  pub pending_longname : Option Text
  pub pending_pax : List (Text × Text)
  pub global_pax : List (Text × Text)
  pub offset : ℕ

-- What a pass reads of its header block.
pub record Block : Type 0 where
  pub header : List ℕ
  pub flag : ℕ
  pub raw_size : ℕ
  pub modified : ℕ
  pub body : ℕ
  pub next : ℕ

abbrev pub usize_end : ℕ
usize_end = 2 ^ 64

-- `checked_next_multiple_of(512)`, before its check.
abbrev pub padded_size : ℕ → ℕ
padded_size size = (size + 511) / 512 * 512

unfoldable pub all_zero : List ℕ → Bool
all_zero [] = true
all_zero (b ∷ bytes) = b == 0 && all_zero bytes

unfoldable pub stored_checksum : List ℕ → Result ArchiveError ℕ
unfolding parse_numeric
stored_checksum header = elim (parse_numeric (slice 148 8 header)) [
  | ok value ↦ ok value
  | err fault ↦ err ArchiveError.checksum_mismatch
]

abbrev pub or_zero : Result ArchiveError ℕ → ℕ
or_zero (ok value) = value
or_zero (err fault) = 0

abbrev pub first_byte : List ℕ → ℕ
first_byte [] = 0
first_byte (b ∷ bytes) = b

-- A pass down to the dispatch on the type: the header's fields and the window of the payload.
unfoldable pub read_block : List ℕ → ℕ → Result ArchiveError Block
unfolding stored_checksum header_checksum parse_numeric
read_block bytes offset = do
  let header = slice offset 512 bytes
  stored ← stored_checksum header
  fail_if (not (header_checksum header == stored)) ArchiveError.checksum_mismatch
  raw_size ← parse_numeric (slice 124 12 header)
  fail_if (leb usize_end (padded_size raw_size)) ArchiveError.oversized_payload
  fail_if (leb usize_end (offset + 512 + raw_size)) ArchiveError.oversized_payload
  fail_if (ltb (length bytes) (offset + 512 + raw_size)) ArchiveError.truncated_entry
  fail_if (leb usize_end (offset + 512 + padded_size raw_size)) ArchiveError.oversized_payload
  ok (record {
    header = header;
    flag = first_byte (drop 156 header);
    raw_size = raw_size;
    modified = or_zero (parse_numeric (slice 136 12 header));
    body = offset + 512;
    next = offset + 512 + padded_size raw_size;
  })
