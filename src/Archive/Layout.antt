-- ===== src/Archive/Layout.antt =====
-- The layout of the header that backend/src/archive.rs writes: the place of each field, and the sum.
use dbx_plugin_files.Prelude.{
  ℕ, zero, suc, ◌+◌, ◌-◌, ◌*◌, ◌≤◌, ◌<◌, ◌≡◌, refl, ap, subst, ◌∙◌, List, [], ◌∷◌, ◌++◌, All,
  All-append, length, take, drop, replicate, length-append, length-take, drop-append, take-append,
  arith,
}
use dbx_plugin_files.Prelude.Text.{codes}
use dbx_plugin_files.Archive.Reading.{IsByte}
use dbx_plugin_files.Archive.RoundTrip.{All-take}
use dbx_plugin_files.Archive.Fields.{slice, checksum_from}
use dbx_plugin_files.Archive.Writer.{octal, back_fields}
use dbx_plugin_files.Archive.Octal.{length-octal, octal-IsByte}

pub drop_at :
    (start : ℕ) (before after : List ℕ)
    → length before ≡ start
    → drop start (before ++ after) ≡ after
drop_at start before after h =
    subst (λ n. drop n (before ++ after) ≡ after) h (drop-append before after)

pub slice_at :
    (start count : ℕ) (before field after : List ℕ)
    → length before ≡ start
    → length field ≡ count
    → slice start count (before ++ (field ++ after)) ≡ field
slice_at start count before field after h k =
    ap (take count) (drop_at start before (field ++ after) h)
    ∙ subst (λ n. take n (field ++ after) ≡ field) k (take-append field after)

pub checksum_from-append :
    (index : ℕ) (xs ys : List ℕ)
    → checksum_from index (xs ++ ys) ≡ checksum_from index xs + checksum_from (index + length xs) ys
unfolding checksum_from
checksum_from-append index [] ys =
    let at : index + 0 ≡ index = omega arith in
    let moved = ap (λ n. checksum_from n ys) at in omega (arith, moved)
checksum_from-append index (x ∷ xs) ys =
    let ih = checksum_from-append (index + 1) xs ys in
    let at : index + 1 + length xs ≡ index + suc (length xs) = omega arith in
    let moved = ap (λ n. checksum_from n ys) at in omega (arith, ih, moved)

-- The sum of the three parts of a header.
pub checksum_from-parts :
    (xs mid ys : List ℕ)
    → length xs ≡ 148
    → length mid ≡ 8
    → checksum_from 0 (xs ++ (mid ++ ys))
      ≡ checksum_from 0 xs + (checksum_from 148 mid + checksum_from 156 ys)
checksum_from-parts xs mid ys h k =
    let at : 0 + length xs ≡ 148 = omega (arith, h) in
    let behind : 148 + length mid ≡ 156 = omega (arith, k) in
    let outer = checksum_from-append 0 xs (mid ++ ys) in
    let inner = checksum_from-append 148 mid ys in
    omega (
      arith,
      outer,
      inner,
      ap (λ n. checksum_from n (mid ++ ys)) at,
      ap (λ n. checksum_from n ys) behind,
    )

pub checksum_from_bound :
    (index : ℕ) (xs : List ℕ) → All IsByte xs → checksum_from index xs ≤ 255 * length xs
unfolding checksum_from
checksum_from_bound index [] h = omega arith
checksum_from_bound index (x ∷ xs) h =
    let ih = checksum_from_bound (index + 1) xs h.1 in ground (arith, ih, h.0)

zeros-IsByte : (n : ℕ) → All IsByte (replicate n 0)
zeros-IsByte zero = tt
zeros-IsByte (suc n) = (omega arith, zeros-IsByte n)

length-replicate : (n : ℕ) → length {A = ℕ} (replicate n 0) ≡ n
length-replicate zero = refl
length-replicate (suc n) = ap suc (length-replicate n)

-- A field of octal digits and a NUL.
abbrev pub digits_field : ℕ → ℕ → List ℕ
digits_field width value = octal width value ++ (0 ∷ [])

pub length-digits_field : (width value : ℕ) → length (digits_field width value) ≡ width + 1
length-digits_field width value =
    omega (arith, length-append (octal width value) (0 ∷ []), length-octal width value)

pub digits_field-IsByte : (width value : ℕ) → All IsByte (digits_field width value)
digits_field-IsByte width value =
    All-append IsByte (octal width value) (0 ∷ []) (octal-IsByte width value) (omega arith, tt)

abbrev pub name_field : List ℕ → List ℕ
name_field name = take 100 name ++ replicate (100 - length name) 0

pub length-name_field : (name : List ℕ) → length (name_field name) ≡ 100
length-name_field name = omega (
  arith,
  length-append (take 100 name) (replicate (100 - length name) 0),
  length-take 100 name,
  length-replicate (100 - length name),
)

pub name_field-IsByte : (name : List ℕ) → All IsByte name → All IsByte (name_field name)
name_field-IsByte name h =
    All-append IsByte (take 100 name) (replicate (100 - length name) 0) (All-take 100 name h)
      (zeros-IsByte (100 - length name))

pub length-back_fields : (flag : ℕ) → length (back_fields flag) ≡ 356
unfolding back_fields
length-back_fields flag = refl

pub back_fields-IsByte : (flag : ℕ) → flag < 256 → All IsByte (back_fields flag)
unfolding back_fields
back_fields-IsByte flag h =
    let magic = codes "ustar" ++ (0 ∷ codes "00") in
    (
      h,
      All-append IsByte (replicate 100 0) (magic ++ replicate 247 0) (zeros-IsByte 100)
          (All-append IsByte magic (replicate 247 0) (ground arith) (zeros-IsByte 247)),
    )
