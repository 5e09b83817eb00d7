-- ===== src/Archive/TarTests.antt =====
-- Tests of the tar walker of backend/src/archive.rs, and its theorems at concrete inputs.
use dbx_plugin_files.Prelude.{
  ℕ, true, ◌+◌, ◌≡◌, ◌≢◌, ◌≤◌, ◌<◌, ◌/◌, ◌⊎◌, refl, List, [], ◌∷◌, ◌++◌, All, Bool, ltb, ◌&&◌,
  arith, length, ◌>>=◌, max, replicate, ok, err,
}
use dbx_plugin_files.Prelude.Text.{
  codes, text_eq, contains, starts_with, split_on, cons_head, join, trim, trim_end_matches,
  trim_start_matches, is_whitespace,
}
use dbx_plugin_files.Policy.Segments.{is_skipped, is_parent}
use dbx_plugin_files.Archive.Paths.{ArchiveError, sanitize_entry_path}
use dbx_plugin_files.Archive.Reading.{IsByte}
use dbx_plugin_files.Archive.Fields.{checksum_from, record_length, parse_pax_records}
use dbx_plugin_files.Archive.Blocks.{Limits, read_block, padded_size}
use dbx_plugin_files.Archive.Listing.{ExtractEntry, extract_entries, paginate}
use dbx_plugin_files.Archive.Extracted.{IsSafePlan, extract_entries-IsSafePlan}
use dbx_plugin_files.Archive.Overflow.{parse_pax_records_wraps}
use dbx_plugin_files.Archive.Pages.{paginate-adjoins}
use dbx_plugin_files.Archive.Writer.{
  pax_record, record_total, to_string, tar_entry_header, ustar_header, front_fields, back_fields,
  checksum_text, write_octal_field, octal,
}
use dbx_plugin_files.Archive.Totals.{pax_record-Total}
use dbx_plugin_files.Archive.HeaderTrip.{read_block-ustar_header}

-- The text "abc" as a.txt.
abbrev written_fields : List ℕ
written_fields = codes "00000000003" ++ replicate 13 0 ++ codes "002462" ++ (0 ∷ b' ' ∷ b'0' ∷ [])

abbrev one_file : List ℕ
one_file =
    codes "a.txt"
    ++ replicate 119 0
    ++ written_fields
    ++ replicate 355 0
    ++ codes "abc"
    ++ replicate 509 0

abbrev limits : Limits
limits = record { max_entries = 10; max_bytes = 1000 }

one_file_extracts :
    extract_entries one_file limits
    ≡ ok (record { target = codes "a.txt"; contents = codes "abc"; planned = 3 } ∷ [])
unfolding extract_entries sanitize_entry_path contains starts_with split_on cons_head join trim
    trim_end_matches trim_start_matches is_whitespace text_eq is_skipped is_parent
one_file_extracts = refl

abbrev octets : List ℕ → Bool
octets [] = true
octets (b ∷ bytes) = ltb b 256 && octets bytes

octets→All : (bytes : List ℕ) → octets bytes ≡ true → All IsByte bytes
octets→All [] h = tt
octets→All (b ∷ bytes) h = (ground arith, octets→All bytes (ground arith))

extract_entries-IsSafePlan_example :
    ((fault : ArchiveError) × (extract_entries one_file limits ≡ err fault)
      × (fault ≢ ArchiveError.diverged))
    ⊎ ((plan : List ExtractEntry) × (extract_entries one_file limits ≡ ok plan)
        × IsSafePlan 10 1000 plan)
extract_entries-IsSafePlan_example =
    extract_entries-IsSafePlan one_file limits (octets→All one_file refl) (omega arith)

abbrev two_records : List ℕ
two_records = codes "6 a=b" ++ (10 ∷ codes "18446744073709551615 p=q")

parse_pax_records_wraps_example : parse_pax_records two_records ≡ err ArchiveError.panicked
parse_pax_records_wraps_example =
    parse_pax_records_wraps two_records 1 6 20 18446744073709551615 (omega arith)
      (unfold record_length in refl) (omega arith) (omega arith) (unfold record_length in refl)
      (omega arith) (omega arith) (omega arith)

paginate-adjoins_example :
    ((((paginate 10 2 4).0 ≤ (paginate 10 2 4).1)
      × ((paginate 10 2 4).1 ≤ 10)
      × ((paginate 10 2 4).1 ≤ (paginate 10 2 4).0 + max 4 1)
      × ((paginate 10 3 4).0 ≡ (paginate 10 2 4).1)))
    × ((paginate 10 1 4).0 ≡ 0)
    × ((i : ℕ)
        → i < 10
        → ((paginate 10 (i / max 4 1 + 1) 4).0 ≤ i) × (i < (paginate 10 (i / max 4 1 + 1) 4).1))
paginate-adjoins_example = paginate-adjoins 10 2 4 (omega arith) (omega arith) (omega arith)

read_block-ustar_header_example :
    (block : List ℕ) × (ustar_header (codes "a.txt") 3 b'0' ≡ ok block)
    × (length block ≡ 512)
    × (read_block (block ++ codes "abc") 0
        ≡ ok (record {
          header = block;
          flag = b'0';
          raw_size = 3;
          modified = 0;
          body = 512;
          next = 512 + padded_size 3;
        }))
read_block-ustar_header_example =
    read_block-ustar_header (codes "a.txt") 3 b'0' (codes "abc") (octets→All (codes "a.txt") refl)
      (omega arith) (omega arith) (omega arith) (omega arith)

pax_record-Total_example :
    (line : List ℕ) × (pax_record (replicate 101 b'a') ≡ ok line)
    × (line ≡ to_string (length line) ++ (codes " path=" ++ (replicate 101 b'a' ++ (10 ∷ []))))
pax_record-Total_example = pax_record-Total (replicate 101 b'a')

short_record : pax_record (codes "a") ≡ ok (codes "9 path=a" ++ (10 ∷ []))
unfolding pax_record record_total to_string
short_record = refl

header_of_a :
    (tar_entry_header (codes "a") 3 >>= λ block.
    read_block (block ++ codes "abc") 0 >>= λ block'. ok block'.raw_size)
    ≡ ok 3
unfolding tar_entry_header sanitize_entry_path contains starts_with split_on cons_head join trim
    trim_end_matches trim_start_matches is_whitespace text_eq is_skipped is_parent ustar_header
    front_fields back_fields checksum_text write_octal_field octal checksum_from read_block
header_of_a = refl
