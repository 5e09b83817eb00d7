-- ===== src/Archive/Tar.antt =====
-- The tar walker `parse_tar` of backend/src/archive.rs.
use dbx_plugin_files.Prelude.{
  ℕ, zero, suc, ◌+◌, ◌-◌, ◌*◌, ◌%◌, min, Bool, false, ◌&&◌, ◌||◌, ◌==◌, List, [], ◌∷◌, ◌++◌, ltb,
  leb, if◌then◌else◌, Option, none, some, Result, ok, err, ok_or, fail_if, ◌>>=◌, ◌>>◌, length,
  take,
}
use dbx_plugin_files.Prelude.Text.{Text, codes, text_eq, trim, parse_u64}
use dbx_plugin_files.Policy.Segments.{slash}
use dbx_plugin_files.Archive.Paths.{ArchiveError, sanitize_entry_path}
use dbx_plugin_files.Archive.Fields.{slice, read_string, parse_pax_records}
use dbx_plugin_files.Archive.Blocks.{Limits, RawEntry, Walk, Block, usize_end, all_zero, read_block}

unfoldable pub lookup : Text → List (Text × Text) → Option Text
lookup key [] = none
lookup key (entry ∷ records) =
    let rest = lookup key records in if text_eq entry.0 key then some entry.1 else rest

unfoldable pub or_lookup : Option Text → Option Text → Option Text
or_lookup none other = other
or_lookup (some text) other = some text

unfoldable pub entry_size : List (Text × Text) → ℕ → Result ArchiveError ℕ
unfolding lookup trim parse_u64
entry_size pax raw_size = elim (lookup (codes "size") pax) [
  | none ↦ ok raw_size
  | some text ↦ ok_or (parse_u64 (trim text)) ArchiveError.bad_size_override
]

-- The name that the header itself has, a POSIX prefix in front.
unfoldable pub header_name : List ℕ → Text
unfolding text_eq read_string
header_name header =
    let prefix =
      if text_eq (slice 257 6 header) (codes "ustar" ++ (0 ∷ []))
      then read_string (slice 345 155 header)
      else [] in
    if text_eq prefix []
    then read_string (take 100 header)
    else prefix ++ (slash ∷ read_string (take 100 header))

abbrev or_empty : Option Text → Text
or_empty none = []
or_empty (some text) = text

unfoldable pub entry_name : Walk → List ℕ → Text
unfolding or_lookup lookup text_eq header_name
entry_name walk header =
    let path_override =
      or_lookup (lookup (codes "path") walk.pending_pax) (lookup (codes "path") walk.global_pax) in
    let name = or_empty (or_lookup path_override walk.pending_longname) in
    if text_eq name [] then header_name header else name

unfoldable pub ends_with_slash : Text → Bool
ends_with_slash [] = false
ends_with_slash (c ∷ []) = c == slash
ends_with_slash (c ∷ d ∷ text) = ends_with_slash (d ∷ text)

-- The entry of a block under its name and size.
unfoldable pub made_entry : Bool → List ℕ → Block → Text → Text → ℕ → RawEntry
unfolding ends_with_slash
made_entry collects bytes block name path size =
    let links = block.flag == b'1' || block.flag == b'2' in
    record {
      path = path;
      typeflag = block.flag;
      size = if links then 0 else size;
      mtime = block.modified;
      payload =
          if collects && (block.flag == b'0' || block.flag == 0 || block.flag == b'7')
          then slice block.body size bytes
          else [];
      is_link = links;
      is_dir = block.flag == b'5' || ends_with_slash name;
    }

-- The end of a pass for a real entry of that name and size.
unfoldable pub push_entry :
    Limits → Bool → List ℕ → Block → Text → ℕ → Walk → Result ArchiveError Walk
unfolding text_eq sanitize_entry_path made_entry
push_entry limits collects bytes block name size walk =
    let pushed = sanitize_entry_path name >>= λ path.
    fail_if (leb limits.max_entries (length walk.entries)) ArchiveError.too_many_entries
    >> ok (record walk {
      entries = walk.entries ++ (made_entry collects bytes block name path size ∷ []);
    }) in
    if text_eq name [] then ok walk else pushed

-- A pass for a real entry, behind the dispatch.
unfoldable pub read_entry : Limits → Bool → List ℕ → Block → Walk → Result ArchiveError Walk
unfolding entry_size entry_name push_entry
read_entry limits collects bytes block walk = do
  size ← entry_size walk.pending_pax block.raw_size
  fail_if (leb usize_end (block.body + size)) ArchiveError.oversized_payload
  fail_if (ltb (length bytes) (block.body + size)) ArchiveError.truncated_entry
  push_entry limits collects bytes block (entry_name walk block.header) size
      (record walk { pending_longname = none; pending_pax = []; offset = block.next })

-- The dispatch on the type.
unfoldable pub take_block : Limits → Bool → List ℕ → Block → Walk → Result ArchiveError Walk
unfolding read_entry read_string parse_pax_records
take_block limits collects bytes block walk =
    let payload = slice block.body block.raw_size bytes in
    let moved = record walk { offset = block.next } in
    if block.flag == b'L'
    then ok (record moved { pending_longname = some (read_string payload) })
    else if block.flag == b'K'
    then ok moved
    else if block.flag == b'x' || block.flag == b'X'
    then (parse_pax_records payload >>= λ records. ok (record moved { pending_pax = records }))
    else if block.flag == b'g'
    then (parse_pax_records payload >>= λ records. ok (record moved { global_pax = records }))
    else read_entry limits collects bytes block walk

-- The loop; the first argument is how many passes the iteration cap leaves.
unfoldable pub walk_from : ℕ → Limits → Bool → List ℕ → Walk → Result ArchiveError Walk
unfolding all_zero read_block take_block
walk_from zero limits collects bytes walk =
    if leb (walk.offset + 512) (length bytes) then err ArchiveError.too_many_headers else ok walk
walk_from (suc left) limits collects bytes walk =
    let rest = read_block bytes walk.offset >>= λ block.
    take_block limits collects bytes block walk >>= λ walk'.
    walk_from left limits collects bytes walk' in
    if ltb (length bytes) (walk.offset + 512)
    then ok walk
    else if all_zero (slice walk.offset 512 bytes)
    then ok walk
    else rest

abbrev pub first_walk : Walk
first_walk = record {
  entries = [];
  pending_longname = none;
  pending_pax = [];
  global_pax = [];
  offset = 0;
}

-- `max_entries.saturating_mul(4) + 64`, where the sum of a `usize` wraps.
unfoldable pub parse_tar : List ℕ → Limits → Bool → Result ArchiveError (List RawEntry)
unfolding walk_from
parse_tar bytes limits collects = do
  fail_if (ltb (length bytes) 512) ArchiveError.not_tar
  walk ←
      walk_from ((min (limits.max_entries * 4) (usize_end - 1) + 64) % usize_end) limits collects
        bytes first_walk
  fail_if (length walk.entries == 0) ArchiveError.no_entries
  ok walk.entries
