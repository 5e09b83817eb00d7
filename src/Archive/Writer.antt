-- ===== src/Archive/Writer.antt =====
-- The tar writer of backend/src/archive.rs. A header is the list of its fields in their order; a text
-- that does not fit its field, where `copy_from_slice` panics, is the error `panicked`.
use dbx_plugin_files.Prelude.{
  ℕ, zero, suc, ◌+◌, ◌-◌, ◌*◌, ◌/◌, ◌%◌, ◌^◌, ◌==◌, List, [], ◌∷◌, ◌++◌, length, take, replicate,
  ltb, if◌then◌else◌, Result, ok, err, ◌>>=◌,
}
use dbx_plugin_files.Prelude.Text.{Text, codes}
use dbx_plugin_files.Archive.Paths.{ArchiveError, sanitize_entry_path}
use dbx_plugin_files.Archive.Fields.{checksum_from}

-- `char::encode_utf8`.
unfoldable pub encode_char : ℕ → List ℕ
encode_char c =
    if ltb c 0x80
    then c ∷ []
    else if ltb c 0x800
    then (0xc0 + c / 64) ∷ (0x80 + c % 64) ∷ []
    else if ltb c 0x10000
    then (0xe0 + c / 4096) ∷ (0x80 + c / 64 % 64) ∷ (0x80 + c % 64) ∷ []
    else (0xf0 + c / 262144) ∷ (0x80 + c / 4096 % 64) ∷ (0x80 + c / 64 % 64) ∷ (0x80 + c % 64) ∷ []

-- `str::as_bytes`.
unfoldable pub as_bytes : Text → List ℕ
unfolding encode_char
as_bytes [] = []
as_bytes (c ∷ text) = encode_char c ++ as_bytes text

-- The last `width` octal digits.
unfoldable pub octal : ℕ → ℕ → List ℕ
octal zero value = []
octal (suc width) value = octal width (value / 8) ++ ((48 + value % 8) ∷ [])

-- `write_octal_field` on a field of `width + 1` bytes.
unfoldable pub write_octal_field : ℕ → ℕ → Result ArchiveError (List ℕ)
write_octal_field width value =
    if ltb value (8 ^ width) then ok (octal width value ++ (0 ∷ [])) else err ArchiveError.panicked

-- The fields in front of the checksum, and those behind it.
unfoldable pub front_fields : List ℕ → ℕ → ℕ → Result ArchiveError (List ℕ)
front_fields name size flag = do
  mode ← write_octal_field 7 (if flag == b'5' then 493 else 420)
  owner ← write_octal_field 7 0
  group ← write_octal_field 7 0
  bytes ← write_octal_field 11 size
  mtime ← write_octal_field 11 0
  ok (
      (take 100 name ++ replicate (100 - length name) 0)
      ++ (mode ++ (owner ++ (group ++ (bytes ++ mtime)))))

unfoldable pub back_fields : ℕ → List ℕ
back_fields flag =
    flag ∷ (replicate 100 0 ++ ((codes "ustar" ++ (0 ∷ codes "00")) ++ replicate 247 0))

-- `{checksum:06o}\0 `.
unfoldable pub checksum_text : ℕ → Result ArchiveError (List ℕ)
checksum_text checksum =
    if ltb checksum (8 ^ 6)
    then ok (octal 6 checksum ++ (0 ∷ 32 ∷ []))
    else err ArchiveError.panicked

unfoldable pub ustar_header : List ℕ → ℕ → ℕ → Result ArchiveError (List ℕ)
ustar_header name size flag = do
  front ← front_fields name size flag
  text ← checksum_text (checksum_from 0 (front ++ (replicate 8 0 ++ back_fields flag)))
  ok (front ++ (text ++ back_fields flag))

unfoldable pub payload_padding : ℕ → ℕ
payload_padding len = (len + 511) / 512 * 512 - len

-- The decimal digits of a `usize`; twenty rounds are enough.
unfoldable pub decimal : ℕ → ℕ → List ℕ
decimal zero value = []
decimal (suc rounds) value =
    let high = decimal rounds (value / 10) in
    (if ltb value 10 then [] else high) ++ ((48 + value % 10) ∷ [])

unfoldable pub to_string : ℕ → List ℕ
unfolding decimal
to_string value = decimal 20 value

-- The loop for the length of a record that states its own length.
unfoldable pub record_total_from : ℕ → ℕ → ℕ → Result ArchiveError ℕ
record_total_from zero len total = err ArchiveError.diverged
record_total_from (suc fuel) len total =
    let next = length (to_string total) + 1 + 5 + len + 1 in
    let rest = record_total_from fuel len next in if next == total then ok total else rest

unfoldable pub record_total : ℕ → Result ArchiveError ℕ
unfolding record_total_from
record_total len = record_total_from 22 len (len + 8)

unfoldable pub pax_record : List ℕ → Result ArchiveError (List ℕ)
unfolding record_total
pax_record path = do
  total ← record_total (length path)
  ok (to_string total ++ (codes " path=" ++ (path ++ (10 ∷ []))))

unfoldable pub tar_entry_header : Text → ℕ → Result ArchiveError (List ℕ)
unfolding sanitize_entry_path as_bytes ustar_header pax_record payload_padding
tar_entry_header archive_path size = do
  sanitized ← sanitize_entry_path archive_path
  let path = as_bytes sanitized
  let long = (do
    line ← pax_record path
    head ← ustar_header (codes "PaxHeaders/x") (length line) b'x'
    real ← ustar_header (codes "longname") size b'0'
    ok (head ++ (line ++ (replicate (payload_padding (length line)) 0 ++ real))))
  if ltb 100 (length path) then long else ustar_header path size b'0'
