-- ===== src/Archive/Passes.antt =====
-- A pass of the tar walker of backend/src/archive.rs over a block of which the fields are known.
use dbx_plugin_files.Prelude.{
  ℕ, ◌+◌, ◌^◌, ◌≤◌, ◌<◌, ◌≡◌, refl, List, length, drop, arith, ltb, leb, ◌==◌, true, false, ok,
}
use dbx_plugin_files.Archive.Fields.{slice, header_checksum, parse_numeric}
use dbx_plugin_files.Archive.Blocks.{
  read_block, stored_checksum, padded_size, usize_end, first_byte,
}

pub stored_of :
    (bytes : List ℕ) (value : ℕ)
    → parse_numeric (slice 148 8 bytes) ≡ ok value
    → stored_checksum bytes ≡ ok value
unfolding stored_checksum
stored_of bytes value h = rw (h, stored_checksum) refl

agree : (a b : ℕ) → a ≡ b → (a == b) ≡ true
agree a b h = ground arith

not_over : (x limit : ℕ) → x < limit → leb limit x ≡ false
not_over x limit h = ground arith

not_under : (x limit : ℕ) → limit ≤ x → ltb x limit ≡ false
not_under x limit h = ground arith

padded_small : (size : ℕ) → size < 2 ^ 63 → padded_size size < 2 ^ 63 + 512
padded_small size h = omega arith

-- A pass over a block of which the fields are known.
pub block_of :
    (bytes header : List ℕ) (sum size flag : ℕ)
    → slice 0 512 bytes ≡ header
    → stored_checksum header ≡ ok sum
    → header_checksum header ≡ sum
    → parse_numeric (slice 124 12 header) ≡ ok size
    → parse_numeric (slice 136 12 header) ≡ ok 0
    → first_byte (drop 156 header) ≡ flag
    → 512 + size ≤ length bytes
    → length bytes < 2 ^ 63
    → read_block bytes 0
      ≡ ok (record {
        header = header;
        flag = flag;
        raw_size = size;
        modified = 0;
        body = 512;
        next = 512 + padded_size size;
      })
unfolding read_block
block_of bytes header sum size flag at stored sums sized modified flagged inside short =
    let same = agree (header_checksum header) sum sums in
    let room =
      not_over (padded_size size) usize_end (omega (arith, padded_small size (omega arith))) in
    let room1 = not_over (0 + 512 + size) usize_end (omega arith) in
    let room2 = not_under (length bytes) (0 + 512 + size) (omega arith) in
    let room3 =
      not_over (0 + 512 + padded_size size) usize_end
        (omega (arith, padded_small size (omega arith))) in
    rw (at, stored, same, sized, room, room1, room2, room3, modified, flagged) refl
