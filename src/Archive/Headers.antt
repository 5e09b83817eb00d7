-- ===== src/Archive/Headers.antt =====
-- The fields of a tar header in backend/src/archive.rs are read without running out of fuel.
use Prim.Native.Nat.{bit_and}
use dbx_plugin_files.Prelude.{
  ℕ, zero, suc, ◌+◌, ◌-◌, ◌*◌, ◌%◌, ◌^◌, ◌≤◌, ◌<◌, ◌≡◌, refl, false, not, ◌&&◌, ◌||◌, ◌==◌, List,
  [], ◌∷◌, length, take, drop, ltb, leb, arith, inl, inr, Option-cases, some, ok, Result-cases,
}
use dbx_plugin_files.Prelude.Text.{
  Text, split_on, join, trim, text_eq, contains, starts_with, parse_u64, parse_u64-lt,
}
use dbx_plugin_files.Policy.Segments.{slash, backslash, is_skipped, is_parent}
use dbx_plugin_files.Archive.Paths.{keep_components, normalized, sanitize_entry_path, is_drive}
use dbx_plugin_files.Archive.Confined.{IsConfined, sanitize_entry_path-IsConfined}
use dbx_plugin_files.Archive.Utf8.{from_utf8_lossy}
use dbx_plugin_files.Archive.Fields.{
  slice, base_256, octal_digits, from_octal, octal_or_zero, parse_numeric, take_while, position,
  with_record, record_length, pax_records_from, parse_pax_records,
}
use dbx_plugin_files.Archive.Ends.{Ends, Ends-bind, Ends-if, is_diverged}
use dbx_plugin_files.Archive.Tables.{Any}

base_256-Ends : (value : ℕ) (bytes : List ℕ) → Ends Any (base_256 value bytes)
unfolding base_256
base_256-Ends value [] = tt
base_256-Ends value (b ∷ bytes) =
    Ends-if Any (leb (2 ^ 64) (value * 256 + b)) _ _ (λ h. refl)
      (λ h. base_256-Ends (value * 256 + b) bytes)

octal_digits-Ends : (value : ℕ) (text : List ℕ) → Ends Any (octal_digits value text)
unfolding octal_digits
octal_digits-Ends value [] = tt
octal_digits-Ends value (c ∷ text) =
    Ends-if Any (leb b'0' c && leb c b'7' && ltb (value * 8 + (c - 48)) (2 ^ 64)) _ _
      (λ h. octal_digits-Ends (value * 8 + (c - 48)) text) (λ h. refl)

from_octal-Ends : (text : List ℕ) → Ends Any (from_octal text)
unfolding from_octal
from_octal-Ends [] = refl
from_octal-Ends (c ∷ []) = octal_digits-Ends 0 (c ∷ [])
from_octal-Ends (c ∷ d ∷ text) =
    Ends-if Any (c == b'+') _ _ (λ h. octal_digits-Ends 0 (d ∷ text))
      (λ h. octal_digits-Ends 0 (c ∷ d ∷ text))

octal_or_zero-Ends : (text : List ℕ) → Ends Any (octal_or_zero text)
unfolding octal_or_zero
octal_or_zero-Ends [] = tt
octal_or_zero-Ends (c ∷ text) = from_octal-Ends (c ∷ text)

pub parse_numeric-Ends : (field : List ℕ) → Ends Any (parse_numeric field)
unfolding parse_numeric
parse_numeric-Ends [] = refl
parse_numeric-Ends (b ∷ bytes) =
    Ends-if Any (not (bit_and b 0x80 == 0)) _ _ (λ h. base_256-Ends (bit_and b 0x7f) bytes)
      (λ h. octal_or_zero-Ends (take_while (λ c. not (c == 0) && not (c == 32)) (b ∷ bytes)))

keep_components-Ends : (parts : List Text) → Ends Any (keep_components parts)
unfolding keep_components
keep_components-Ends [] = tt
keep_components-Ends (part ∷ parts) =
    Ends-if Any (is_skipped part) _ _ (λ h. keep_components-Ends parts)
      (λ h.
        Ends-if Any (is_parent part) _ _ (λ h'. refl)
          (λ h'.
            Ends-bind Any Any (keep_components parts) (λ kept. ok (part ∷ kept))
              (keep_components-Ends parts) (λ kept k. tt)))

normalized-Ends : (parts : List Text) → Ends Any (normalized parts)
unfolding normalized
normalized-Ends parts = Ends-if Any (text_eq (join slash parts) []) _ _ (λ h. refl) (λ h. tt)

sanitize_entry_path-Ends : (name : Text) → Ends Any (sanitize_entry_path name)
unfolding sanitize_entry_path
sanitize_entry_path-Ends raw =
    let name = trim raw in
    Ends-if Any (text_eq name []) _ _ (λ h. refl)
      (λ h1.
        Ends-if Any (contains backslash name) _ _ (λ h. refl)
          (λ h2.
            Ends-if Any (starts_with name (slash ∷ [])) _ _ (λ h. refl)
              (λ h3.
                Ends-if Any (is_drive name) _ _ (λ h. refl)
                  (λ h4.
                    Ends-bind Any Any (keep_components (split_on slash name)) normalized
                      (keep_components-Ends (split_on slash name))
                      (λ kept k. normalized-Ends kept)))))

-- A name is refused or confined.
pub sanitized-Ends : (name : Text) → Ends IsConfined (sanitize_entry_path name)
sanitized-Ends name = elim (Result-cases (sanitize_entry_path name)) [
  | inl (fault, bad) ↦
      let e : Ends Any (sanitize_entry_path name) = sanitize_entry_path-Ends name in
      let q : is_diverged fault ≡ false = rw bad at e in rw bad q
  | inr (path, good) ↦ rw good (sanitize_entry_path-IsConfined name path good)
]

with_record-Ends :
    (key_start : ℕ) (record_bytes : List ℕ) (records : List (Text × Text))
    → Ends Any (with_record key_start record_bytes records)
unfolding with_record
with_record-Ends key_start record_bytes records = elim (Option-cases (position b'=' record_bytes)) [
  | inl missing ↦ rw (missing, Ends) tt
  | inr (eq, found) ↦ rw (found, Ends) (Ends-if Any (ltb eq key_start) _ _ (λ h. refl) (λ h. tt))
]

record_length-lt :
    (bytes : List ℕ) (space len : ℕ) → record_length bytes ≡ some (space, len) → len < 2 ^ 64
unfolding record_length
record_length-lt bytes space len h = elim (Option-cases (position 32 bytes)) [
  | inl missing ↦ absurd (ground arith)
  | inr (at, found) ↦
      let prefix = trim (from_utf8_lossy (take at bytes)) in
      elim (Option-cases (parse_u64 prefix)) [
        | inl bad ↦ absurd (ground arith)
        | inr (value, read) ↦
            let small = parse_u64-lt prefix value read in
            let same : value ≡ len = ground arith in omega arith
      ]
]

-- A record that ends where it starts or behind ends behind it.
end_ahead :
    (pos len : ℕ)
    → len < 2 ^ 64
    → (len == 0) ≡ false
    → pos ≤ (pos + len) % 2 ^ 64
    → pos < (pos + len) % 2 ^ 64
end_ahead pos len small some_bytes ahead = grind arith

-- Every record of a PAX header takes a byte of the payload.
pax_records_from-Ends :
    (fuel pos : ℕ) (payload : List ℕ)
    → pos ≤ length payload
    → length payload < pos + fuel
    → Ends Any (pax_records_from fuel pos payload)
unfolding pax_records_from
pax_records_from-Ends zero pos payload h fuel = absurd (omega arith)
pax_records_from-Ends (suc fuel) pos payload h enough =
    elim (Option-cases (record_length (drop pos payload))) [
      | inl missing ↦ rw (missing, Ends) tt
      | inr ((space, len), found) ↦
          let end = (pos + len) % 2 ^ 64 in
          let small = record_length-lt (drop pos payload) space len found in
          rw (found, Ends)
            (Ends-if Any (len == 0 || ltb (length payload) end) _ _ (λ stop. tt)
              (λ more.
                Ends-if Any (ltb end pos) _ _ (λ wraps. refl)
                  (λ ahead.
                    let further : pos < end =
                      end_ahead pos len small (ground arith) (ground arith) in
                    Ends-bind Any Any (pax_records_from fuel end payload)
                      (with_record (space + 1) (slice pos len payload))
                      (pax_records_from-Ends fuel end payload (ground arith) (omega arith))
                      (λ records k. with_record-Ends (space + 1) (slice pos len payload) records))))
    ]

pub parse_pax_records-Ends : (payload : List ℕ) → Ends Any (parse_pax_records payload)
unfolding parse_pax_records
parse_pax_records-Ends payload =
    pax_records_from-Ends (length payload + 1) 0 payload (omega arith) (omega arith)
