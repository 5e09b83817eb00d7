-- ===== src/Archive/Walked.antt =====
-- The tar walker of backend/src/archive.rs ends, and every entry that it collects is confined and holds
-- no more bytes than it declares.
use dbx_plugin_files.Prelude.{
  ℕ, zero, suc, ◌+◌, ◌-◌, ◌*◌, ◌%◌, ◌≤◌, refl, Bool, not, ◌||◌, ◌==◌, List, [], ◌∷◌, length, drop,
  ltb, leb, min, arith, inl, inr, Option-cases, none, All, All-append, length-append, length-take,
  Result-cases,
}
use dbx_plugin_files.Prelude.Text.{Text, codes, text_eq, trim, parse_u64}
use dbx_plugin_files.Archive.Paths.{sanitize_entry_path}
use dbx_plugin_files.Archive.Confined.{IsConfined}
use dbx_plugin_files.Archive.Fields.{slice, parse_numeric, header_checksum, parse_pax_records}
use dbx_plugin_files.Archive.Blocks.{
  Limits, RawEntry, Walk, Block, usize_end, padded_size, all_zero, stored_checksum, read_block,
}
use dbx_plugin_files.Archive.Tar.{
  lookup, entry_size, entry_name, made_entry, push_entry, read_entry, take_block, walk_from,
  first_walk, parse_tar,
}
use dbx_plugin_files.Archive.Ends.{Ends, Ends-bind, Ends-if, Ends-fail_if}
use dbx_plugin_files.Archive.Tables.{Any}
use dbx_plugin_files.Archive.Headers.{parse_numeric-Ends, parse_pax_records-Ends, sanitized-Ends}

-- A confined path, and no more bytes than the declared size.
pub record IsSound (entry : RawEntry) : Type 0 where
  pub confined : IsConfined entry.path
  pub bounded : length entry.payload ≤ entry.size

pub record IsWalk (limits : Limits) (walk : Walk) : Type 0 where
  pub sound : All IsSound walk.entries
  pub within : length walk.entries ≤ limits.max_entries

stored_checksum-Ends : (header : List ℕ) → Ends Any (stored_checksum header)
unfolding stored_checksum
stored_checksum-Ends header = elim (Result-cases (parse_numeric (slice 148 8 header))) [
  | inl (fault, bad) ↦ rw (bad, Ends) refl
  | inr (value, good) ↦ rw (good, Ends) tt
]

read_block-Ends : (bytes : List ℕ) (offset : ℕ) → Ends Any (read_block bytes offset)
unfolding read_block
read_block-Ends bytes offset =
    let header = slice offset 512 bytes in
    Ends-bind Any Any (stored_checksum header) _ (stored_checksum-Ends header) (λ stored k.
      Ends-fail_if Any (not (header_checksum header == stored)) _ _ refl (λ same.
        Ends-bind Any Any (parse_numeric (slice 124 12 header)) _
          (parse_numeric-Ends (slice 124 12 header))
          (λ raw_size k'. Ends-fail_if Any (leb usize_end (padded_size raw_size)) _ _ refl (λ h1.
            Ends-fail_if Any (leb usize_end (offset + 512 + raw_size)) _ _ refl (λ h2.
              Ends-fail_if Any (ltb (length bytes) (offset + 512 + raw_size)) _ _ refl (λ h3.
                Ends-fail_if Any (leb usize_end (offset + 512 + padded_size raw_size)) _ _ refl
                  (λ h4. tt)))))))

entry_size-Ends : (pax : List (Text × Text)) (raw_size : ℕ) → Ends Any (entry_size pax raw_size)
unfolding entry_size
entry_size-Ends pax raw_size = elim (Option-cases (lookup (codes "size") pax)) [
  | inl missing ↦ rw (missing, Ends) tt
  | inr (text, found) ↦ elim (Option-cases (parse_u64 (trim text))) [
    | inl bad ↦ rw (found, bad, Ends) refl
    | inr (size, good) ↦ rw (found, good, Ends) tt
  ]
]

made_entry-IsSound :
    (collects : Bool) (bytes : List ℕ) (block : Block) (name path : Text) (size : ℕ)
    → IsConfined path
    → IsSound (made_entry collects bytes block name path size)
unfolding made_entry
made_entry-IsSound collects bytes block name path size confined = record {
  confined = confined;
  bounded = ground (arith, length-take size (drop block.body bytes));
}

push_entry-Ends :
    (limits : Limits) (collects : Bool) (bytes : List ℕ) (block : Block) (name : Text) (size : ℕ)
    (walk : Walk)
    → IsWalk limits walk
    → Ends (IsWalk limits) (push_entry limits collects bytes block name size walk)
unfolding push_entry
push_entry-Ends limits collects bytes block name size walk h =
    let Q = IsWalk limits in
    Ends-if Q (text_eq name []) _ _ (λ unnamed. h)
      (λ named.
        Ends-bind IsConfined Q (sanitize_entry_path name) _ (sanitized-Ends name) (λ path confined.
          Ends-fail_if Q (leb limits.max_entries (length walk.entries)) _ _ refl (λ room.
            let entry = made_entry collects bytes block name path size in
            record {
              sound =
                  All-append IsSound walk.entries (entry ∷ []) h.sound
                    (made_entry-IsSound collects bytes block name path size confined, tt);
              within = ground (arith, length-append walk.entries (entry ∷ []));
            })))

read_entry-Ends :
    (limits : Limits) (collects : Bool) (bytes : List ℕ) (block : Block) (walk : Walk)
    → IsWalk limits walk
    → Ends (IsWalk limits) (read_entry limits collects bytes block walk)
unfolding read_entry
read_entry-Ends limits collects bytes block walk h =
    let Q = IsWalk limits in
    Ends-bind Any Q (entry_size walk.pending_pax block.raw_size) _
      (entry_size-Ends walk.pending_pax block.raw_size)
      (λ size k. Ends-fail_if Q (leb usize_end (block.body + size)) _ _ refl (λ h1.
        Ends-fail_if Q (ltb (length bytes) (block.body + size)) _ _ refl (λ h2.
          push_entry-Ends limits collects bytes block (entry_name walk block.header) size
            (record walk { pending_longname = none; pending_pax = []; offset = block.next })
            (record { sound = h.sound; within = h.within }))))

take_block-Ends :
    (limits : Limits) (collects : Bool) (bytes : List ℕ) (block : Block) (walk : Walk)
    → IsWalk limits walk
    → Ends (IsWalk limits) (take_block limits collects bytes block walk)
unfolding take_block
take_block-Ends limits collects bytes block walk h =
    let Q = IsWalk limits in
    let payload = slice block.body block.raw_size bytes in
    Ends-if Q (block.flag == b'L') _ _ (λ e. record { sound = h.sound; within = h.within })
      (λ e1.
        Ends-if Q (block.flag == b'K') _ _ (λ e. record { sound = h.sound; within = h.within })
          (λ e2.
            Ends-if Q (block.flag == b'x' || block.flag == b'X') _ _
              (λ e.
                Ends-bind Any Q (parse_pax_records payload) _ (parse_pax_records-Ends payload)
                  (λ records k. record { sound = h.sound; within = h.within }))
              (λ e3.
                Ends-if Q (block.flag == b'g') _ _
                  (λ e.
                    Ends-bind Any Q (parse_pax_records payload) _ (parse_pax_records-Ends payload)
                      (λ records k. record { sound = h.sound; within = h.within }))
                  (λ e4. read_entry-Ends limits collects bytes block walk h))))

walk_from-Ends :
    (left : ℕ) (limits : Limits) (collects : Bool) (bytes : List ℕ) (walk : Walk)
    → IsWalk limits walk
    → Ends (IsWalk limits) (walk_from left limits collects bytes walk)
unfolding walk_from
walk_from-Ends zero limits collects bytes walk h =
    Ends-if (IsWalk limits) (leb (walk.offset + 512) (length bytes)) _ _ (λ more. refl) (λ end. h)
walk_from-Ends (suc left) limits collects bytes walk h =
    let Q = IsWalk limits in
    Ends-if Q (ltb (length bytes) (walk.offset + 512)) _ _ (λ end. h)
      (λ more.
        Ends-if Q (all_zero (slice walk.offset 512 bytes)) _ _ (λ end. h)
          (λ header.
            Ends-bind Any Q (read_block bytes walk.offset) _ (read_block-Ends bytes walk.offset)
              (λ block k.
                Ends-bind Q Q (take_block limits collects bytes block walk) _
                  (take_block-Ends limits collects bytes block walk h)
                  (λ walk' k'. walk_from-Ends left limits collects bytes walk' k'))))

-- What the walker answers.
abbrev pub AreEntries : Limits → List RawEntry → Type 0
AreEntries limits entries = All IsSound entries × (length entries ≤ limits.max_entries)

pub parse_tar-Ends :
    (bytes : List ℕ) (limits : Limits) (collects : Bool)
    → Ends (AreEntries limits) (parse_tar bytes limits collects)
unfolding parse_tar
parse_tar-Ends bytes limits collects =
    let Q = AreEntries limits in
    let rounds = (min (limits.max_entries * 4) (usize_end - 1) + 64) % usize_end in
    Ends-fail_if Q (ltb (length bytes) 512) _ _ refl (λ long.
      Ends-bind (IsWalk limits) Q (walk_from rounds limits collects bytes first_walk) _
        (walk_from-Ends rounds limits collects bytes first_walk
          (record { sound = tt; within = omega arith }))
        (λ walk h.
          Ends-fail_if Q (length walk.entries == 0) _ _ refl (λ some_entry. (h.sound, h.within))))
