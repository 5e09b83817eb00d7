-- ===== src/Archive/Gzip.antt =====
-- The gzip layer of backend/src/archive.rs: detection, decoding, and the writer of stored blocks.
use Prim.Native.Nat.{bit_and, bit_xor}
use dbx_plugin_files.Prelude.{
  ℕ, zero, suc, ◌+◌, ◌-◌, ◌*◌, ◌/◌, ◌%◌, ◌^◌, min, Bool, true, false, not, ◌&&◌, ◌==◌, List, [],
  ◌∷◌, ◌++◌, Option, none, some, length, take, drop, ltb, leb, if◌then◌else◌, Result, ok, err,
  ok_or, fail_if, ◌>>=◌, ◌>>◌,
}
use dbx_plugin_files.Archive.Paths.{ArchiveError}
use dbx_plugin_files.Archive.Inflate.{inflate}

pub data ArchiveKind : Type 0 where
  zip tar_gz tar : ArchiveKind

-- The magic numbers; a slice that is too short has none.
abbrev pub has_prefix : ℕ → ℕ → List ℕ → Bool
has_prefix a b (c ∷ d ∷ raw) = c == a && d == b
has_prefix a b _ = false

unfoldable pub kind_of : List ℕ → ArchiveKind
kind_of raw =
    if has_prefix b'P' b'K' raw
    then ArchiveKind.zip
    else if has_prefix 0x1f 0x8b raw
    then ArchiveKind.tar_gz
    else ArchiveKind.tar

-- `make_crc_table` at one index, with the rounds that are left.
unfoldable pub crc_entry : ℕ → ℕ → ℕ
crc_entry zero value = value
crc_entry (suc rounds) value =
    crc_entry rounds (if bit_and value 1 == 0 then value / 2 else bit_xor 0xedb88320 (value / 2))

unfoldable pub crc32_update : ℕ → List ℕ → ℕ
unfolding crc_entry
crc32_update state [] = state
crc32_update state (byte ∷ raw) =
    crc32_update (bit_xor (crc_entry 8 (bit_and (bit_xor state byte) 0xff)) (state / 2 ^ 8)) raw

-- `!state` of a `u32`.
abbrev pub complement : ℕ → ℕ
complement state = 0xffffffff - state

unfoldable pub crc32 : List ℕ → ℕ
unfolding crc32_update
crc32 raw = complement (crc32_update 0xffffffff raw)

-- `raw[index]`, behind the test of the length.
abbrev pub byte_at : ℕ → List ℕ → ℕ
byte_at index raw = elim (drop index raw) [ [] ↦ 0 | byte ∷ rest ↦ byte ]

abbrev pub le16 : ℕ → List ℕ
le16 value = value % 256 ∷ value / 256 % 256 ∷ []

abbrev pub le32 : ℕ → List ℕ
le32 value = value % 256 ∷ value / 256 % 256 ∷ value / 65536 % 256 ∷ value / 16777216 % 256 ∷ []

abbrev pub from_le32 : List ℕ → ℕ
from_le32 raw =
    byte_at 0 raw + 256 * byte_at 1 raw + 65536 * byte_at 2 raw + 16777216 * byte_at 3 raw

-- The index of the first zero byte.
unfoldable pub zero_position : List ℕ → Option ℕ
zero_position [] = none
zero_position (byte ∷ raw) =
    let rest = zero_position raw in
    if byte == 0 then some 0 else elim rest [ none ↦ none | some at ↦ some (at + 1) ]

unfoldable pub skip_extra : ℕ → List ℕ → ℕ → Result ArchiveError ℕ
skip_extra flags raw pos =
    if bit_and flags 0x04 == 0
    then ok pos
    else if ltb (length raw) (pos + 2)
    then err ArchiveError.truncated_header
    else ok (min (pos + 2 + (byte_at pos raw + 256 * byte_at (pos + 1) raw)) (length raw))

unfoldable pub skip_string : ℕ → ℕ → List ℕ → ℕ → Result ArchiveError ℕ
unfolding zero_position
skip_string flag flags raw pos =
    if bit_and flags flag == 0
    then ok pos
    else if ltb (length raw) pos
    then err ArchiveError.truncated_header
    else (ok_or (zero_position (drop pos raw)) ArchiveError.truncated_header >>= λ end.
        ok (pos + (end + 1)))

abbrev pub skip_crc : ℕ → ℕ → ℕ
skip_crc flags pos = if bit_and flags 0x02 == 0 then pos else pos + 2

-- The checks of the trailer.
unfoldable pub verified : List ℕ → List ℕ → Result ArchiveError (List ℕ)
verified trailer out = do
  fail_if (not (crc32 out == from_le32 (take 4 trailer))) ArchiveError.crc_mismatch
  fail_if (not (length out % 2 ^ 32 == from_le32 (drop 4 trailer))) ArchiveError.size_mismatch
  ok out

unfoldable pub gunzip : List ℕ → ℕ → Result ArchiveError (List ℕ)
unfolding skip_extra skip_string verified
gunzip raw max_out = do
  fail_if (ltb (length raw) 18) ArchiveError.too_short
  fail_if (not (byte_at 2 raw == 8)) ArchiveError.bad_method
  let flags = byte_at 3 raw
  pos1 ← skip_extra flags raw 10
  pos2 ← skip_string 0x08 flags raw pos1
  pos3 ← skip_string 0x10 flags raw pos2
  let pos = skip_crc flags pos3
  fail_if (leb (length raw) (pos + 8)) ArchiveError.truncated_stream
  out ← inflate (take (length raw - 8 - pos) (drop pos raw)) max_out
  verified (drop (length raw - 8) raw) out

-- The tar bytes of an archive.
unfoldable pub prepare : List ℕ → ℕ → Result ArchiveError (List ℕ)
unfolding gunzip
prepare raw max_bytes =
    if has_prefix b'P' b'K' raw
    then err ArchiveError.zip_unsupported
    else if has_prefix 0x1f 0x8b raw
    then gunzip raw max_bytes
    else ok raw

abbrev pub max_chunk : ℕ
max_chunk = 65535

-- One stored block: the final bit, the length, its complement and the bytes.
abbrev pub stored_chunk : Bool → List ℕ → List ℕ
stored_chunk is_last chunk =
    (if is_last then 1 else 0)
    ∷ (le16 (length chunk % 65536) ++ (le16 (0xffff - length chunk % 65536) ++ chunk))

-- `data.chunks(65_535).enumerate()`; the first argument is the chunks left.
unfoldable pub stored_chunks : ℕ → ℕ → ℕ → Bool → List ℕ → List ℕ
stored_chunks zero index total is_final raw = []
stored_chunks (suc left) index total is_final raw =
    stored_chunk (is_final && index + 1 == total) (take max_chunk raw)
    ++ stored_chunks left (index + 1) total is_final (drop max_chunk raw)

unfoldable pub deflate_stored_blocks : List ℕ → Bool → List ℕ
unfolding stored_chunks
deflate_stored_blocks [] is_final = if is_final then 0x01 ∷ 0x00 ∷ 0x00 ∷ 0xff ∷ [] else []
deflate_stored_blocks (byte ∷ raw) is_final =
    let total = (length (byte ∷ raw) + 65534) / 65535 in
    stored_chunks total 0 total is_final (byte ∷ raw)

unfoldable pub gzip_trailer : ℕ → ℕ → List ℕ
gzip_trailer crc total = le32 crc ++ le32 (total % 2 ^ 32)

abbrev pub gzip_header : List ℕ
gzip_header = 0x1f ∷ 0x8b ∷ 0x08 ∷ 0x00 ∷ 0 ∷ 0 ∷ 0 ∷ 0 ∷ 0x00 ∷ 0xff ∷ []

unfoldable pub gzip_stored_wrap : List ℕ → List ℕ
unfolding deflate_stored_blocks gzip_trailer crc32_update
gzip_stored_wrap raw =
    gzip_header
    ++ (deflate_stored_blocks raw true
        ++ gzip_trailer (complement (crc32_update 0xffffffff raw)) (length raw))
