-- ===== src/Archive/Overflow.antt =====
-- Record lengths that wrap around, in `parse_pax_records` of backend/src/archive.rs.
use dbx_plugin_files.Prelude.{
  ℕ, suc, ◌+◌, ◌-◌, ◌%◌, ◌^◌, ◌<◌, ◌≤◌, ◌≡◌, List, length, drop, some, arith, err,
}
use dbx_plugin_files.Archive.Paths.{ArchiveError}
use dbx_plugin_files.Archive.Fields.{record_length, pax_records_from, parse_pax_records}

wraps_at :
    (fuel pos : ℕ) (payload : List ℕ) (space len : ℕ)
    → length payload < 2 ^ 64
    → pos ≤ length payload
    → record_length (drop pos payload) ≡ some (space, len)
    → 0 < len
    → len < 2 ^ 64
    → 2 ^ 64 ≤ pos + len
    → pax_records_from (suc fuel) pos payload ≡ err ArchiveError.panicked
unfolding pax_records_from
wraps_at fuel pos payload space len short inside two some_bytes machine over =
    let end : (pos + len) % 2 ^ 64 ≡ pos + len - 2 ^ 64 = omega arith in
    rw (two, pax_records_from) (rw end (ground arith))

fails_behind :
    (fuel : ℕ) (payload : List ℕ) (space len : ℕ)
    → length payload < 2 ^ 64
    → record_length payload ≡ some (space, len)
    → 0 < len
    → len ≤ length payload
    → pax_records_from fuel len payload ≡ err ArchiveError.panicked
    → pax_records_from (suc fuel) 0 payload ≡ err ArchiveError.panicked
unfolding pax_records_from
fails_behind fuel payload space len short one some_bytes inside rest =
    let end : (0 + len) % 2 ^ 64 ≡ len = omega arith in
    rw (one, pax_records_from) (rw end (rw rest (ground arith)))

-- A PAX header whose second record declares a length that wraps around panics: the sum of its position
-- and its length is taken without a check, and the slice that it bounds ends before it starts. The first
-- record is any that ends inside of the payload, and the second record's length any of at least
-- 2^64 less the position.
pub parse_pax_records_wraps :
    (payload : List ℕ) (space1 first space2 second : ℕ)
    → length payload < 2 ^ 64
    → record_length payload ≡ some (space1, first)
    → 0 < first
    → first ≤ length payload
    → record_length (drop first payload) ≡ some (space2, second)
    → 0 < second
    → second < 2 ^ 64
    → 2 ^ 64 ≤ first + second
    → parse_pax_records payload ≡ err ArchiveError.panicked
unfolding parse_pax_records
parse_pax_records_wraps payload space1 first space2 second short one some_bytes inside two h h'
      over =
    let rounds : length payload + 1 ≡ suc (suc (length payload - 1)) = omega arith in
    rw rounds (
      fails_behind (suc (length payload - 1)) payload space1 first short one some_bytes inside
        (wraps_at (length payload - 1) first payload space2 second short inside two h h' over))
