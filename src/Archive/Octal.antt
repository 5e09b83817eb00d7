-- ===== src/Archive/Octal.antt =====
-- The octal fields that backend/src/archive.rs writes are read back.
use Prim.Native.Nat.{bit_and}
use native.Mathlib.Nat.{pow-suc}
use dbx_plugin_files.Prelude.{
  ℕ, zero, suc, ◌+◌, ◌-◌, ◌*◌, ◌/◌, ◌%◌, ◌^◌, ◌≤◌, ◌<◌, ◌≡◌, refl, sym, ap, ◌∙◌, List, [], ◌∷◌,
  ◌++◌, All, All-append, length, length-append, append-nil, append_assoc, ◌==◌, ◌&&◌, not, false,
  arith, ok,
}
use dbx_plugin_files.Archive.Reading.{IsByte}
use dbx_plugin_files.Archive.Fields.{
  octal_digits, from_octal, octal_or_zero, parse_numeric, take_while,
}
use dbx_plugin_files.Archive.Writer.{octal}

abbrev pub IsDigit : ℕ → Type 0
IsDigit c = (48 ≤ c) × (c < 56)

pub length-octal : (width value : ℕ) → length (octal width value) ≡ width
unfolding octal
length-octal zero value = refl
length-octal (suc width) value = omega (
  arith,
  length-append (octal width (value / 8)) ((48 + value % 8) ∷ []),
  length-octal width (value / 8),
)

octal-IsDigit : (width value : ℕ) → All IsDigit (octal width value)
unfolding octal
octal-IsDigit zero value = tt
octal-IsDigit (suc width) value =
    All-append IsDigit (octal width (value / 8)) ((48 + value % 8) ∷ [])
      (octal-IsDigit width (value / 8)) ((omega arith, omega arith), tt)

one_digit :
    (acc d total : ℕ) (rest : List ℕ)
    → d < 8
    → acc * 8 + d ≡ total
    → total < 2 ^ 64
    → octal_digits acc ((48 + d) ∷ rest) ≡ octal_digits total rest
unfolding octal_digits
one_digit acc d total rest small sum below =
    let same : acc * 8 + (48 + d - 48) ≡ total = omega arith in rw same (ground arith)

eightfold : (width acc : ℕ) → acc * 8 ^ suc width ≡ acc * 8 ^ width * 8
eightfold width acc = omega (arith, ap (λ (t : ℕ). acc * t) (pow-suc 8 width))

-- The digits behind an accumulated value.
octal_digits-octal :
    (width value acc : ℕ) (rest : List ℕ)
    → value < 8 ^ width
    → acc * 8 ^ width + value < 2 ^ 64
    → octal_digits acc (octal width value ++ rest) ≡ octal_digits (acc * 8 ^ width + value) rest
unfolding octal
octal_digits-octal zero value acc rest fits small = ap (λ n. octal_digits n rest) (omega arith)
octal_digits-octal (suc width) value acc rest fits small =
    let power = eightfold width acc in
    let one = eightfold width 1 in
    rw (append_assoc (octal width (value / 8)) ((48 + value % 8) ∷ []) rest) (
      octal_digits-octal width (value / 8) acc ((48 + value % 8) ∷ rest) (omega arith) (omega arith)
      ∙ one_digit (acc * 8 ^ width + value / 8) (value % 8) (acc * 8 ^ suc width + value) rest
          (omega arith) (omega arith) small)

take_while-octal :
    (digits more : List ℕ)
    → All IsDigit digits
    → take_while (λ c. not (c == 0) && not (c == 32)) (digits ++ (0 ∷ more)) ≡ digits
unfolding take_while
take_while-octal [] more h = refl
take_while-octal (c ∷ digits) more h =
    let ih = take_while-octal digits more h.1 in ground (arith, ih, h.0.0, h.0.1)

low_digit : (d : ℕ) → d < 8 → bit_and (48 + d) 0x80 ≡ 0
low_digit zero h = refl
low_digit (suc zero) h = refl
low_digit (suc (suc zero)) h = refl
low_digit (suc (suc (suc zero))) h = refl
low_digit (suc (suc (suc (suc zero)))) h = refl
low_digit (suc (suc (suc (suc (suc zero))))) h = refl
low_digit (suc (suc (suc (suc (suc (suc zero)))))) h = refl
low_digit (suc (suc (suc (suc (suc (suc (suc zero))))))) h = refl
low_digit (suc (suc (suc (suc (suc (suc (suc (suc d)))))))) h = absurd (omega arith)

digit_is_ascii : (c : ℕ) → IsDigit c → bit_and c 0x80 ≡ 0
digit_is_ascii c h =
    let same : c ≡ 48 + (c - 48) = omega (arith, h.0) in
    rw same (low_digit (c - 48) (omega (arith, h.1)))

from_octal-digits :
    (c : ℕ) (digits : List ℕ) → IsDigit c → from_octal (c ∷ digits) ≡ octal_digits 0 (c ∷ digits)
unfolding from_octal
from_octal-digits c [] h = refl
from_octal-digits c (d ∷ digits) h =
    let no_sign : (c == b'+') ≡ false = ground (arith, h.0) in rw no_sign refl

numeric_digits :
    (c : ℕ) (digits more : List ℕ)
    → All IsDigit (c ∷ digits)
    → parse_numeric (c ∷ (digits ++ (0 ∷ more))) ≡ octal_digits 0 (c ∷ digits)
unfolding parse_numeric octal_or_zero
numeric_digits c digits more h =
    let ascii = digit_is_ascii c h.0 in
    let taken = take_while-octal (c ∷ digits) more h in
    rw ascii (rw taken (from_octal-digits c digits h.0))

numeric_text :
    (text more : List ℕ)
    → 0 < length text
    → All IsDigit text
    → parse_numeric (text ++ (0 ∷ more)) ≡ octal_digits 0 text
numeric_text [] more some_digit h = absurd (omega arith)
numeric_text (c ∷ digits) more some_digit h = numeric_digits c digits more h

-- A field of octal digits and a NUL is read back as the value that was written, for every value that
-- the field has room for and every width that a 64-bit number fits in.
pub parse_numeric-octal :
    (width value : ℕ) (more : List ℕ)
    → 0 < width
    → value < 8 ^ width
    → 8 ^ width ≤ 2 ^ 64
    → parse_numeric (octal width value ++ (0 ∷ more)) ≡ ok value
unfolding octal_digits
parse_numeric-octal width value more some_digit fits machine =
    let text = octal width value in
    let long : 0 < length text = omega (arith, length-octal width value) in
    let read = octal_digits-octal width value 0 [] fits (omega arith) in
    numeric_text text more long (octal-IsDigit width value)
    ∙ ap (octal_digits 0) (sym (append-nil text))
    ∙ read
    ∙ ap (λ n. octal_digits n []) (omega arith)

All-IsByte : (xs : List ℕ) → All IsDigit xs → All IsByte xs
All-IsByte [] h = tt
All-IsByte (x ∷ xs) h = (omega (arith, h.0.1), All-IsByte xs h.1)

pub octal-IsByte : (width value : ℕ) → All IsByte (octal width value)
octal-IsByte width value = All-IsByte (octal width value) (octal-IsDigit width value)
