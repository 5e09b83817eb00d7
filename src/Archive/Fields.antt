-- ===== src/Archive/Fields.antt =====
-- The fields of a tar header in backend/src/archive.rs: texts, numbers, the checksum, and the records of
-- a PAX header. A `usize` has 64 bits; where it wraps the remainder is written out.
use Prim.Native.Nat.{bit_and}
use dbx_plugin_files.Prelude.{
  ℕ, zero, suc, ◌+◌, ◌-◌, ◌*◌, ◌%◌, ◌^◌, Bool, not, ◌&&◌, ◌||◌, ◌==◌, List, [], ◌∷◌, ltb, leb,
  if◌then◌else◌, Option, none, some, Result, ok, err, ◌>>=◌, length, take, drop,
}
use dbx_plugin_files.Prelude.Text.{Text, trim, trim_end_matches, is_whitespace, parse_u64}
use dbx_plugin_files.Archive.Paths.{ArchiveError}
use dbx_plugin_files.Archive.Utf8.{from_utf8_lossy}

-- `bytes[start..start + count]`.
abbrev pub slice : ℕ → ℕ → List ℕ → List ℕ
slice start count bytes = take count (drop start bytes)

-- `bytes.iter().take_while(f)`.
unfoldable pub take_while : (ℕ → Bool) → List ℕ → List ℕ
take_while f [] = []
take_while f (b ∷ bytes) = let rest = take_while f bytes in if f b then b ∷ rest else []

unfoldable pub read_string : List ℕ → Text
unfolding take_while trim_end_matches is_whitespace from_utf8_lossy
read_string field =
    trim_end_matches is_whitespace (from_utf8_lossy (take_while (λ b. not (b == 0)) field))

-- The loop over the GNU base-256 bytes.
unfoldable pub base_256 : ℕ → List ℕ → Result ArchiveError ℕ
base_256 value [] = ok value
base_256 value (b ∷ bytes) =
    let rest = base_256 (value * 256 + b) bytes in
    if leb (2 ^ 64) (value * 256 + b) then err ArchiveError.field_overflow else rest

-- `u64::from_str_radix(text, 8)` behind its sign.
unfoldable pub octal_digits : ℕ → List ℕ → Result ArchiveError ℕ
octal_digits value [] = ok value
octal_digits value (c ∷ text) =
    let next = value * 8 + (c - 48) in
    let rest = octal_digits next text in
    if leb b'0' c && leb c b'7' && ltb next (2 ^ 64) then rest else err ArchiveError.bad_octal

unfoldable pub from_octal : List ℕ → Result ArchiveError ℕ
unfolding octal_digits
from_octal [] = err ArchiveError.bad_octal
from_octal (c ∷ []) = octal_digits 0 (c ∷ [])
from_octal (c ∷ d ∷ text) =
    if c == b'+' then octal_digits 0 (d ∷ text) else octal_digits 0 (c ∷ d ∷ text)

-- An empty field is 0.
unfoldable pub octal_or_zero : List ℕ → Result ArchiveError ℕ
unfolding from_octal
octal_or_zero [] = ok 0
octal_or_zero (c ∷ text) = from_octal (c ∷ text)

unfoldable pub parse_numeric : List ℕ → Result ArchiveError ℕ
unfolding base_256 take_while octal_or_zero
parse_numeric [] = err ArchiveError.empty_field
parse_numeric (b ∷ bytes) =
    if not (bit_and b 0x80 == 0)
    then base_256 (bit_and b 0x7f) bytes
    else octal_or_zero (take_while (λ c. not (c == 0) && not (c == 32)) (b ∷ bytes))

-- The sum of the bytes from `index` on, the checksum's own field read as spaces.
unfoldable pub checksum_from : ℕ → List ℕ → ℕ
checksum_from index [] = 0
checksum_from index (b ∷ bytes) =
    (if leb 148 index && ltb index 156 then 0x20 else b) + checksum_from (index + 1) bytes

unfoldable pub header_checksum : List ℕ → ℕ
unfolding checksum_from
header_checksum header = checksum_from 0 header

-- `bytes.iter().position(|&b| b == c)`.
unfoldable pub position : ℕ → List ℕ → Option ℕ
position c [] = none
position c (b ∷ bytes) =
    let rest = position c bytes in
    if b == c then some 0 else (elim rest [ none ↦ none | some at ↦ some (at + 1) ])

-- The value of a record without its line feed.
unfoldable pub without_newline : List ℕ → List ℕ
without_newline [] = []
without_newline (b ∷ []) = if b == 10 then [] else b ∷ []
without_newline (b ∷ c ∷ bytes) = b ∷ without_newline (c ∷ bytes)

-- One record of which the key starts at `key_start`, put before the records behind it.
unfoldable pub with_record :
    ℕ → List ℕ → List (Text × Text) → Result ArchiveError (List (Text × Text))
unfolding position without_newline from_utf8_lossy
with_record key_start record_bytes records = elim (position b'=' record_bytes) [
  | none ↦ ok records
  | some eq ↦
      if ltb eq key_start
      then err ArchiveError.panicked
      else ok (
          (
            from_utf8_lossy (slice key_start (eq - key_start) record_bytes),
            from_utf8_lossy (without_newline (drop (eq + 1) record_bytes)),
          )
          ∷ records)
]

-- Where the space behind a record's length is, and that length.
unfoldable pub record_length : List ℕ → Option (ℕ × ℕ)
unfolding position from_utf8_lossy trim parse_u64
record_length bytes = elim (position 32 bytes) [
  | none ↦ none
  | some space ↦ (elim (parse_u64 (trim (from_utf8_lossy (take space bytes)))) [
    | none ↦ none
    | some len ↦ some (space, len)
  ])
]

-- The loop of `parse_pax_records`: a sum that wraps around is a slice that ends before it starts.
unfoldable pub pax_records_from : ℕ → ℕ → List ℕ → Result ArchiveError (List (Text × Text))
unfolding record_length with_record
pax_records_from zero pos payload = err ArchiveError.diverged
pax_records_from (suc fuel) pos payload = elim (record_length (drop pos payload)) [
  | none ↦ ok []
  | some (space, len) ↦
      let end = (pos + len) % 2 ^ 64 in
      let rest = pax_records_from fuel end payload in
      if len == 0 || ltb (length payload) end
      then ok []
      else if ltb end pos
      then err ArchiveError.panicked
      else (rest >>= with_record (space + 1) (slice pos len payload))
]

unfoldable pub parse_pax_records : List ℕ → Result ArchiveError (List (Text × Text))
unfolding pax_records_from
parse_pax_records payload = pax_records_from (length payload + 1) 0 payload
