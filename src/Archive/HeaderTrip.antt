-- ===== src/Archive/HeaderTrip.antt =====
-- The header that backend/src/archive.rs writes is read back by its walker.
use dbx_plugin_files.Prelude.{
  ℕ, ◌+◌, ◌^◌, ◌≤◌, ◌<◌, ◌≡◌, refl, sym, ap, ◌∙◌, subst, List, [], ◌∷◌, ◌++◌, All, All-append,
  length, take, drop, replicate, length-append, append_assoc, take-append, arith, ltb, ◌==◌,
  if◌then◌else◌, true, ok,
}
use dbx_plugin_files.Archive.Reading.{IsByte}
use dbx_plugin_files.Archive.Fields.{slice, checksum_from, header_checksum, parse_numeric}
use dbx_plugin_files.Archive.Blocks.{read_block, stored_checksum, padded_size, first_byte}
use dbx_plugin_files.Archive.Writer.{
  octal, write_octal_field, front_fields, back_fields, checksum_text, ustar_header,
}
use dbx_plugin_files.Archive.Octal.{length-octal, parse_numeric-octal}
use dbx_plugin_files.Archive.Passes.{stored_of, block_of}
use dbx_plugin_files.Archive.Layout.{
  drop_at, slice_at, checksum_from-parts, checksum_from_bound, digits_field, length-digits_field,
  digits_field-IsByte, name_field, length-name_field, name_field-IsByte, length-back_fields,
  back_fields-IsByte,
}

write_fits :
    (width value : ℕ)
    → value < 8 ^ width
    → write_octal_field width value ≡ ok (digits_field width value)
unfolding write_octal_field
write_fits width value fits = let room : ltb value (8 ^ width) ≡ true = ground arith in rw room refl

abbrev mode_of : ℕ → ℕ
mode_of flag = if flag == b'5' then 493 else 420

mode_fits : (flag : ℕ) → mode_of flag < 8 ^ 7
mode_fits flag = ground arith

-- A checksum's text counts as eight spaces.
eight_spaces :
    (sum : ℕ) → checksum_from 148 (octal 6 sum ++ (0 ∷ 32 ∷ [])) ≡ checksum_from 148 (replicate 8 0)
unfolding checksum_from octal
eight_spaces sum = refl

-- The fields in front of the size, the size, and all behind it.
around_size :
    (n m o g s t r : List ℕ)
    → (n ++ (m ++ (o ++ (g ++ (s ++ t))))) ++ r ≡ (n ++ (m ++ (o ++ g))) ++ (s ++ (t ++ r))
around_size n m o g s t r = simp append_assoc refl

module _ (name : List ℕ) (size flag : ℕ) (octets : All IsByte name) (byte : flag < 256)
    (fits : size < 8 ^ 11) where
  abbrev ids : List ℕ
  ids =
      digits_field 7 (mode_of flag)
      ++ (digits_field 7 0 ++ (digits_field 7 0 ++ (digits_field 11 size ++ digits_field 11 0)))

  abbrev front : List ℕ
  front = name_field name ++ ids

  abbrev sum : ℕ
  sum = checksum_from 0 (front ++ (replicate 8 0 ++ back_fields flag))

  abbrev text : List ℕ
  text = octal 6 sum ++ (0 ∷ 32 ∷ [])

  abbrev header : List ℕ
  header = front ++ (text ++ back_fields flag)

  front_made : front_fields name size flag ≡ ok front
  unfolding front_fields
  front_made =
      rw
        (
          write_fits 7 (mode_of flag) (mode_fits flag),
          write_fits 7 0 (omega arith),
          write_fits 11 size fits,
          write_fits 11 0 (omega arith),
        )
        refl

  length-ids : length ids ≡ 48
  length-ids = omega (
    arith,
    length-append (digits_field 7 (mode_of flag))
        (digits_field 7 0 ++ (digits_field 7 0 ++ (digits_field 11 size ++ digits_field 11 0))),
    length-append (digits_field 7 0)
        (digits_field 7 0 ++ (digits_field 11 size ++ digits_field 11 0)),
    length-append (digits_field 7 0) (digits_field 11 size ++ digits_field 11 0),
    length-append (digits_field 11 size) (digits_field 11 0),
    length-digits_field 7 (mode_of flag),
    length-digits_field 7 0,
    length-digits_field 11 size,
    length-digits_field 11 0,
  )

  length-front : length front ≡ 148
  length-front =
      omega (arith, length-append (name_field name) ids, length-name_field name, length-ids)

  ids-IsByte : All IsByte ids
  ids-IsByte =
      let sizes =
        All-append IsByte (digits_field 11 size) (digits_field 11 0) (digits_field-IsByte 11 size)
          (digits_field-IsByte 11 0) in
      let group =
        All-append IsByte (digits_field 7 0) (digits_field 11 size ++ digits_field 11 0)
          (digits_field-IsByte 7 0) sizes in
      let owner =
        All-append IsByte (digits_field 7 0)
          (digits_field 7 0 ++ (digits_field 11 size ++ digits_field 11 0))
          (digits_field-IsByte 7 0) group in
      All-append IsByte (digits_field 7 (mode_of flag))
        (digits_field 7 0 ++ (digits_field 7 0 ++ (digits_field 11 size ++ digits_field 11 0)))
        (digits_field-IsByte 7 (mode_of flag)) owner

  front-IsByte : All IsByte front
  front-IsByte = All-append IsByte (name_field name) ids (name_field-IsByte name octets) ids-IsByte

  sum_fits : sum < 8 ^ 6
  sum_fits =
      let parts = checksum_from-parts front (replicate 8 0) (back_fields flag) length-front refl in
      let behind = checksum_from_bound 156 (back_fields flag) (back_fields-IsByte flag byte) in
      let before = checksum_from_bound 0 front front-IsByte in
      let blank : checksum_from 148 (replicate 8 0) ≡ 256 = unfold checksum_from in refl in
      omega (arith, parts, behind, before, blank, length-front, length-back_fields flag)

  length-text : length text ≡ 8
  length-text = omega (arith, length-append (octal 6 sum) (0 ∷ 32 ∷ []), length-octal 6 sum)

  header_made : ustar_header name size flag ≡ ok header
  unfolding ustar_header checksum_text
  header_made =
      let room : ltb sum (8 ^ 6) ≡ true = ground (arith, sum_fits) in rw front_made (rw room refl)

  checksum_agrees : header_checksum header ≡ sum
  unfolding header_checksum
  checksum_agrees = omega (
    arith,
    checksum_from-parts front text (back_fields flag) length-front length-text,
    checksum_from-parts front (replicate 8 0) (back_fields flag) length-front refl,
    eight_spaces sum,
  )

  stored_agrees : stored_checksum header ≡ ok sum
  stored_agrees = stored_of header sum (
      ap parse_numeric (slice_at 148 8 front text (back_fields flag) length-front length-text)
      ∙ parse_numeric-octal 6 sum (32 ∷ []) (omega arith) sum_fits (omega arith))

  abbrev owners : List ℕ
  owners = digits_field 7 (mode_of flag) ++ (digits_field 7 0 ++ digits_field 7 0)

  abbrev before_size : List ℕ
  before_size = name_field name ++ owners

  abbrev after_mtime : List ℕ
  after_mtime = text ++ back_fields flag

  length-before_size : length before_size ≡ 124
  length-before_size = omega (
    arith,
    length-append (name_field name) owners,
    length-name_field name,
    length-append (digits_field 7 (mode_of flag)) (digits_field 7 0 ++ digits_field 7 0),
    length-append (digits_field 7 0) (digits_field 7 0),
    length-digits_field 7 (mode_of flag),
    length-digits_field 7 0,
  )

  sized : header ≡ before_size ++ (digits_field 11 size ++ (digits_field 11 0 ++ after_mtime))
  sized =
      around_size (name_field name) (digits_field 7 (mode_of flag)) (digits_field 7 0)
        (digits_field 7 0) (digits_field 11 size) (digits_field 11 0) after_mtime

  size_read : parse_numeric (slice 124 12 header) ≡ ok size
  size_read =
      ap (λ bytes. parse_numeric (slice 124 12 bytes)) sized
      ∙ ap parse_numeric (
          slice_at 124 12 before_size (digits_field 11 size) (digits_field 11 0 ++ after_mtime)
            length-before_size (length-digits_field 11 size))
      ∙ parse_numeric-octal 11 size [] (omega arith) fits (omega arith)

  modified_read : parse_numeric (slice 136 12 header) ≡ ok 0
  modified_read =
      ap (λ bytes. parse_numeric (slice 136 12 bytes))
        (sized
          ∙ sym
              (append_assoc before_size (digits_field 11 size) (digits_field 11 0 ++ after_mtime)))
      ∙ ap parse_numeric (
          slice_at 136 12 (before_size ++ digits_field 11 size) (digits_field 11 0) after_mtime
            (omega (
              arith,
              length-append before_size (digits_field 11 size),
              length-before_size,
              length-digits_field 11 size,
            ))
            (length-digits_field 11 0))
      ∙ parse_numeric-octal 11 0 [] (omega arith) (omega arith) (omega arith)

  flag_read : drop 156 header ≡ back_fields flag
  flag_read =
      ap (drop 156) (sym (append_assoc front text (back_fields flag)))
      ∙ drop_at 156 (front ++ text) (back_fields flag)
          (omega (arith, length-append front text, length-front, length-text))

  length-header : length header ≡ 512
  length-header = omega (
    arith,
    length-append front (text ++ back_fields flag),
    length-append text (back_fields flag),
    length-front,
    length-text,
    length-back_fields flag,
  )

-- The header written for any name, type and size below 8 GiB is a full block, and in front of a payload
-- that is long enough the walker accepts its checksum and reads the size and the type back.
pub read_block-ustar_header :
    (name : List ℕ) (size flag : ℕ) (payload : List ℕ)
    → All IsByte name
    → flag < 256
    → size < 8 ^ 11
    → size ≤ length payload
    → length payload < 2 ^ 62
    → (block : List ℕ) × (ustar_header name size flag ≡ ok block)
      × (length block ≡ 512)
      × (read_block (block ++ payload) 0
          ≡ ok (record {
            header = block;
            flag = flag;
            raw_size = size;
            modified = 0;
            body = 512;
            next = 512 + padded_size size;
          }))
unfolding back_fields
read_block-ustar_header name size flag payload octets byte fits inside short =
    let block = header name size flag octets byte fits in
    let long : length block ≡ 512 = length-header name size flag octets byte fits in
    let whole : slice 0 512 (block ++ payload) ≡ block =
      subst (λ n. take n (block ++ payload) ≡ block) long (take-append block payload) in
    (
      block,
      header_made name size flag octets byte fits,
      long,
      block_of (block ++ payload) block (sum name size flag octets byte fits) size flag whole
          (stored_agrees name size flag octets byte fits)
          (checksum_agrees name size flag octets byte fits)
          (size_read name size flag octets byte fits)
          (modified_read name size flag octets byte fits)
          (ap first_byte (flag_read name size flag octets byte fits))
          (omega (arith, length-append block payload, long))
          (omega (arith, length-append block payload, long)),
    )
