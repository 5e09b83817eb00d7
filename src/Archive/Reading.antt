-- ===== src/Archive/Reading.antt =====
-- The buffer of the bit reader of backend/src/archive.rs, as a number of a known length.
use native.Mathlib.Nat.{
  pow-suc, one-le-pow, pow-le-pow_right, mod-eq_of_lt, div-lt_iff_lt-mul, add-mul-div_right,
  add-mul-mod_self_right,
}
use native.Mathlib.Numerals.{towards_suc}
use dbx_plugin_files.Prelude.{
  ℕ, zero, suc, ◌+◌, ◌-◌, ◌*◌, ◌/◌, ◌%◌, ◌^◌, ◌≤◌, ◌<◌, ◌≡◌, refl, ap, ◌∙◌, sym, inl, inr, true,
  false, List, [], ◌∷◌, All, arith, length, drop, Bool-cases,
}
use dbx_plugin_files.Archive.Masks.{or_above}
use dbx_plugin_files.Archive.Reader.{BitReader, load, wants, fill}

-- The bits of bytes as a number, the first the lowest.
abbrev pub value_of : List ℕ → ℕ
value_of [] = 0
value_of (byte ∷ rest) = byte + 256 * value_of rest

-- What a reader has still to give: the bits as a number, and how many they are.
abbrev pub remaining : BitReader → ℕ
remaining reader = reader.buf + value_of (drop reader.pos reader.bytes) * 2 ^ reader.nbits

abbrev pub size : BitReader → ℕ
size reader = reader.nbits + 8 * (length reader.bytes - reader.pos)

abbrev pub IsByte : ℕ → Type 0
IsByte byte = byte < 256

pub record IsReader (reader : BitReader) : Type 0 where
  pub fits : reader.buf < 2 ^ reader.nbits
  pub short : reader.nbits ≤ 64
  pub inside : reader.pos ≤ length reader.bytes
  pub backed : reader.nbits ≤ 8 * reader.pos
  pub octets : All IsByte reader.bytes

pub drop_next :
    (pos : ℕ) (bytes : List ℕ)
    → pos < length bytes
    → All IsByte bytes
    → (byte : ℕ) × (rest : List ℕ) × ((drop pos bytes ≡ byte ∷ rest)
        × ((drop (pos + 1) bytes ≡ rest) × (byte < 256)))
drop_next pos [] h o = absurd (omega arith)
drop_next zero (byte ∷ bytes) h o = (byte, bytes, (refl, (refl, o.0)))
drop_next (suc pos) (first ∷ bytes) h o =
    let (byte, rest, (here, (next, octet))) = drop_next pos bytes (omega arith) o.1 in
    let e : suc pos + 1 ≡ suc (pos + 1) = omega arith in (byte, rest, (here, (rw e next, octet)))

pub pow_eight : (n : ℕ) → 2 ^ (n + 8) ≡ 2 ^ n * 256
pow_eight n = simp towards_suc (omega arith)

-- A byte above the buffered bits has room in a `u64`.
shifted : (n byte : ℕ) → n ≤ 56 → byte < 256 → byte * 2 ^ n % 2 ^ 64 ≡ byte * 2 ^ n
shifted n byte small octet =
    let room : 2 ^ n ≤ 2 ^ 56 = pow-le-pow_right (omega arith) small in
    let bound : byte * 2 ^ n ≤ 255 * 2 ^ n = grind arith in mod-eq_of_lt (omega arith)

byte_mul : (byte tail p : ℕ) → (byte + 256 * tail) * p ≡ byte * p + tail * (p * 256)
byte_mul byte tail p = grind arith

-- The reader behind `load`.
abbrev with_byte : ℕ → BitReader → BitReader
with_byte byte reader = record reader {
  buf = reader.buf + byte * 2 ^ reader.nbits;
  pos = reader.pos + 1;
  nbits = reader.nbits + 8;
}

load-with_byte :
    (reader : BitReader) (byte : ℕ) (rest : List ℕ)
    → IsReader reader
    → reader.nbits ≤ 56
    → byte < 256
    → drop reader.pos reader.bytes ≡ byte ∷ rest
    → load reader ≡ with_byte byte reader
unfolding load
load-with_byte reader byte rest h small octet here =
    rw
      (
        load,
        here,
        shifted reader.nbits byte small octet,
        or_above reader.nbits reader.buf byte h.fits,
      )
      refl

-- A byte more in the buffer leaves the bits as they were.
abbrev Loaded : BitReader → BitReader → Type 0
Loaded reader after =
    IsReader after
    × (remaining after ≡ remaining reader)
    × (size after ≡ size reader)
    × (after.bytes ≡ reader.bytes)
    × (after.nbits ≡ reader.nbits + 8)

with_byte-Loaded :
    (reader : BitReader) (byte : ℕ) (rest : List ℕ)
    → IsReader reader
    → reader.nbits ≤ 56
    → reader.pos < length reader.bytes
    → byte < 256
    → drop reader.pos reader.bytes ≡ byte ∷ rest
    → drop (reader.pos + 1) reader.bytes ≡ rest
    → Loaded reader (with_byte byte reader)
with_byte-Loaded reader byte rest h small more octet here next =
    let n = reader.nbits in
    let wide = pow_eight n in
    let bound : byte * 2 ^ n ≤ 255 * 2 ^ n = grind arith in
    (
      record {
        fits = omega (arith, h.fits);
        short = omega arith;
        inside = omega arith;
        backed = omega (arith, h.backed);
        octets = h.octets;
      },
      rw (here, next, wide) (omega (arith, byte_mul byte (value_of rest) (2 ^ n))),
      omega arith,
      refl,
      refl,
    )

load_step :
    (reader : BitReader) → IsReader reader → wants reader ≡ true → Loaded reader (load reader)
unfolding wants
load_step reader h more =
    let (byte, rest, (here, (next, octet))) =
      drop_next reader.pos reader.bytes (ground arith) h.octets in
    rw (load-with_byte reader byte rest h (ground arith) octet here)
      (with_byte-Loaded reader byte rest h (ground arith) (ground arith) octet here next)

-- A filled reader has the same bits, all of them or more than 56 in the buffer.
abbrev pub Filled : BitReader → BitReader → Type 0
Filled reader after =
    IsReader after
    × (remaining after ≡ remaining reader)
    × (size after ≡ size reader)
    × (after.bytes ≡ reader.bytes)
    × (wants after ≡ false)

wants_full : (reader : BitReader) → 56 < reader.nbits → wants reader ≡ false
unfolding wants
wants_full reader h = ground arith

pub fill_lem :
    (rounds : ℕ) (reader : BitReader)
    → IsReader reader
    → 56 < reader.nbits + 8 * rounds
    → Filled reader (fill rounds reader)
unfolding fill
fill_lem zero reader h enough = (h, refl, refl, refl, wants_full reader (omega arith))
fill_lem (suc rounds) reader h enough = elim (Bool-cases (wants reader)) [
  | inr full ↦ rw (fill, full) (h, refl, refl, refl, full)
  | inl more ↦
      let (valid, value, count, bytes, grown) = load_step reader h more in
      let (valid', value', count', bytes', full) =
        fill_lem rounds (load reader) valid (omega arith) in
      rw (fill, more) (valid', value' ∙ value, count' ∙ count, bytes' ∙ bytes, full)
]

pub pow_add : (a b : ℕ) → 2 ^ (a + b) ≡ 2 ^ a * 2 ^ b
pow_add a zero = let e : a + 0 ≡ a = omega arith in rw e (omega arith)
pow_add a (suc b) = grind (arith, pow-suc 2 (a + b), pow-suc 2 b, pow_add a b)

-- What taking `count` bits from a filled buffer leaves.
abbrev pub taken : ℕ → BitReader → BitReader
taken count reader = record reader { buf = reader.buf / 2 ^ count; nbits = reader.nbits - count }

abbrev pub Taken : ℕ → BitReader → BitReader → Type 0
Taken count reader after =
    IsReader after
    × (remaining after ≡ remaining reader / 2 ^ count)
    × (size after + count ≡ size reader)
    × (after.bytes ≡ reader.bytes)

pub taken-Taken :
    (count : ℕ) (reader : BitReader)
    → IsReader reader
    → count ≤ reader.nbits
    → Taken count reader (taken count reader)
      × (reader.buf % 2 ^ count ≡ remaining reader % 2 ^ count)
taken-Taken count reader h enough =
    let tail = value_of (drop reader.pos reader.bytes) in
    let p = 2 ^ count in
    let q = 2 ^ (reader.nbits - count) in
    let whole : 2 ^ reader.nbits ≡ q * p =
      ap (λ (n : ℕ). 2 ^ n) (let e : reader.nbits ≡ reader.nbits - count + count = omega arith in e)
      ∙ pow_add (reader.nbits - count) count in
    let pos : 0 < p = one-le-pow count 2 (omega arith) in
    let split : remaining reader ≡ reader.buf + tail * q * p = grind (arith, whole) in
    (
      (
        record {
          fits = (div-lt_iff_lt-mul pos).1 (rw (← whole) h.fits);
          short = omega arith;
          inside = h.inside;
          backed = omega (arith, h.backed);
          octets = h.octets;
        },
        sym (ap (λ (n : ℕ). n / p) split ∙ add-mul-div_right reader.buf (tail * q) pos),
        omega arith,
        refl,
      ),
      sym (ap (λ (n : ℕ). n % p) split ∙ add-mul-mod_self_right reader.buf (tail * q) p),
    )
