-- ===== src/Archive/Listing.antt =====
-- The listing, the extraction plan and the pages of backend/src/archive.rs.
use dbx_plugin_files.Prelude.{
  ℕ, ◌+◌, ◌-◌, ◌*◌, ◌%◌, min, max, Bool, true, false, List, [], ◌∷◌, ltb, leb, if◌then◌else◌,
  Option, none, some, Result, ok, err, ◌>>=◌, map,
}
use dbx_plugin_files.Prelude.Text.{Text, split_on}
use dbx_plugin_files.Policy.Segments.{slash}
use dbx_plugin_files.Archive.Paths.{ArchiveError}
use dbx_plugin_files.Archive.Gzip.{prepare}
use dbx_plugin_files.Archive.Blocks.{Limits, RawEntry, usize_end}
use dbx_plugin_files.Archive.Tar.{parse_tar}

pub record ArchiveEntry : Type 0 where
  pub name : Text
  pub entry_path : Text
  pub is_directory : Bool
  pub entry_bytes : ℕ
  pub modified_at : Option ℕ

pub record ExtractEntry : Type 0 where
  pub target : Text
  pub contents : List ℕ
  pub planned : ℕ

-- `rsplit('/').next()`.
unfoldable pub base_name : List Text → Text
base_name [] = []
base_name (part ∷ []) = part
base_name (part ∷ next ∷ parts) = base_name (next ∷ parts)

abbrev pub saturating : ℕ → ℕ
saturating n = min n (usize_end - 1)

unfoldable pub listed : RawEntry → ArchiveEntry
unfolding base_name split_on
listed entry = record {
  name = base_name (split_on slash entry.path);
  entry_path = entry.path;
  is_directory = entry.is_dir;
  entry_bytes = if entry.is_dir then 0 else entry.size;
  modified_at = if ltb 0 entry.mtime then some (saturating (entry.mtime * 1000)) else none;
}

unfoldable pub list_entries : List ℕ → Limits → Result ArchiveError (List ArchiveEntry)
unfolding prepare parse_tar listed
list_entries raw limits = prepare raw limits.max_bytes >>= λ bytes.
    parse_tar bytes limits false >>= λ entries. ok (map listed entries)

-- The loop of `extract_entries` behind `total` bytes.
unfoldable pub plan_from : ℕ → ℕ → List RawEntry → Result ArchiveError (List ExtractEntry)
plan_from max_bytes total [] = ok []
plan_from max_bytes total (entry ∷ entries) =
    let skipped = plan_from max_bytes total entries in
    let total' = saturating (total + entry.size) in
    let kept = plan_from max_bytes total' entries >>= λ plan.
    ok (record { target = entry.path; contents = entry.payload; planned = entry.size } ∷ plan) in
    if entry.is_link
    then err ArchiveError.link_refused
    else if entry.is_dir
    then skipped
    else if ltb max_bytes total'
    then err ArchiveError.over_extraction
    else kept

unfoldable pub extract_entries : List ℕ → Limits → Result ArchiveError (List ExtractEntry)
unfolding prepare parse_tar plan_from
extract_entries raw limits = prepare raw limits.max_bytes >>= λ bytes.
    parse_tar bytes limits true >>= plan_from limits.max_bytes 0

-- The window of a page, a `usize` each.
unfoldable pub paginate : ℕ → ℕ → ℕ → ℕ × ℕ
paginate total page page_size =
    let start = saturating ((page - 1) * max page_size 1) in
    if leb total start
    then (total, total)
    else (start, min ((start + max page_size 1) % usize_end) total)
