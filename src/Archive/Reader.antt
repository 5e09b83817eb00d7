-- ===== src/Archive/Reader.antt =====
-- `BitReader` of backend/src/archive.rs: bits of a byte slice, the lowest of a byte first.
use Prim.Native.Nat.{bit_and, bit_or}
use dbx_plugin_files.Prelude.{
  ℕ, zero, suc, ◌+◌, ◌-◌, ◌*◌, ◌/◌, ◌%◌, ◌^◌, Bool, true, false, ◌&&◌, ◌==◌, List, [], ◌∷◌, ◌++◌,
  length, take, drop, ltb, leb, if◌then◌else◌, Result, ok, err,
}
use dbx_plugin_files.Archive.Paths.{ArchiveError}

-- `bytes` is the source's `data`.
pub record BitReader : Type 0 where
  pub bytes : List ℕ
  pub pos : ℕ
  pub buf : ℕ
  pub nbits : ℕ

unfoldable pub new : List ℕ → BitReader
new bytes = record { bytes = bytes; pos = 0; buf = 0; nbits = 0 }

-- The body of the loop of `fill`: a `u64` takes the byte.
unfoldable pub load : BitReader → BitReader
load reader = elim (drop reader.pos reader.bytes) [
  | [] ↦ reader
  | byte ∷ rest ↦ record reader {
    buf = bit_or reader.buf (byte * 2 ^ reader.nbits % 2 ^ 64);
    pos = reader.pos + 1;
    nbits = reader.nbits + 8;
  }
]

unfoldable pub wants : BitReader → Bool
wants reader = leb reader.nbits 56 && ltb reader.pos (length reader.bytes)

-- `fill`, with the rounds that are left.
unfoldable pub fill : ℕ → BitReader → BitReader
unfolding load wants
fill zero reader = reader
fill (suc rounds) reader = elim (wants reader) [ true ↦ fill rounds (load reader) | false ↦ reader ]

-- Eight rounds fill the buffer from any state.
abbrev pub fill_rounds : ℕ
fill_rounds = 8

unfoldable pub bits : ℕ → BitReader → Result ArchiveError (ℕ × BitReader)
unfolding fill
bits count reader =
    if count == 0
    then ok (0, reader)
    else let filled = fill fill_rounds reader in
      if ltb filled.nbits count
      then err ArchiveError.end_of_stream
      else ok (
        bit_and filled.buf (2 ^ count - 1) % 2 ^ 32,
        record filled { buf = filled.buf / 2 ^ count; nbits = filled.nbits - count },
      )

unfoldable pub align_to_byte : BitReader → BitReader
align_to_byte reader =
    let drop = reader.nbits % 8 in
    record reader { buf = reader.buf / 2 ^ drop; nbits = reader.nbits - drop }

-- The bytes that the buffer still holds are read again from the slice.
unfoldable pub copy_bytes : ℕ → ℕ → List ℕ → BitReader → Result ArchiveError (List ℕ × BitReader)
copy_bytes count max_out out reader =
    let start = reader.pos - reader.nbits / 8 in
    if ltb (length reader.bytes) (start + count)
    then err ArchiveError.end_of_stream
    else if ltb max_out (length out + count)
    then err ArchiveError.over_budget
    else ok (
      out ++ take count (drop start reader.bytes),
      record reader { pos = start + count; buf = 0; nbits = 0 },
    )
