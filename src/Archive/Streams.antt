-- ===== src/Archive/Streams.antt =====
-- The bit reader of backend/src/archive.rs implements a stream of bits: a number and its length.
use Prim.Native.Nat.{bit_and}
use native.Mathlib.Nat.{pow-le-pow_right, mod-lt, mod-eq_of_lt, one-le-pow}
use dbx_plugin_files.Prelude.{
  ℕ, ◌-◌, ◌/◌, ◌%◌, ◌^◌, ◌≤◌, ◌<◌, ◌≡◌, refl, ap, subst, ◌∙◌, inl, inr, true, false, ◌==◌, arith,
  ltb, if◌then◌else◌, Bool-cases, Result, ok, err,
}
use dbx_plugin_files.Archive.Paths.{ArchiveError}
use dbx_plugin_files.Archive.Masks.{and_low}
use dbx_plugin_files.Archive.Reader.{BitReader, wants, fill, fill_rounds, bits}
use dbx_plugin_files.Archive.Reading.{
  remaining, size, IsReader, Filled, Taken, taken, taken-Taken, fill_lem,
}

-- A filled buffer has every bit that is left, or more than 56.
filled_enough :
    (reader : BitReader)
    → IsReader reader
    → wants reader ≡ false
    → (count : ℕ) → count ≤ 32
    → count ≤ size reader
    → count ≤ reader.nbits
unfolding wants
filled_enough reader h full count small enough = ground (arith, h.inside)

low_value : (count buf : ℕ) → count ≤ 32 → bit_and buf (2 ^ count - 1) % 2 ^ 32 ≡ buf % 2 ^ count
low_value count buf small =
    let room : 2 ^ count ≤ 2 ^ 32 = pow-le-pow_right (omega arith) small in
    let below : buf % 2 ^ count < 2 ^ count = mod-lt buf (one-le-pow count 2 (omega arith)) in
    rw (and_low count buf) (mod-eq_of_lt (omega arith))

-- The outcome of a read where the stream is long enough.
abbrev pub Gives : ℕ → BitReader → Type 0
Gives count reader =
    (after : BitReader) × (bits count reader ≡ ok (remaining reader % 2 ^ count, after))
    × Taken count reader after

bits_zero : (reader : BitReader) → IsReader reader → Gives 0 reader
unfolding bits
bits_zero reader h =
    let none_left : remaining reader % 2 ^ 0 ≡ 0 = omega arith in
    (reader, rw none_left refl, (h, omega arith, omega arith, refl))

bits_pos :
    (count : ℕ) (reader : BitReader)
    → (count == 0) ≡ false
    → ltb (fill fill_rounds reader).nbits count ≡ false
    → bits count reader
      ≡ ok (
        bit_and (fill fill_rounds reader).buf (2 ^ count - 1) % 2 ^ 32,
        taken count (fill fill_rounds reader),
      )
unfolding bits
bits_pos count reader some enough = rw (bits, some, enough) refl

bits_short :
    (count : ℕ) (reader : BitReader)
    → (count == 0) ≡ false
    → ltb (fill fill_rounds reader).nbits count ≡ true
    → bits count reader ≡ err ArchiveError.end_of_stream
unfolding bits
bits_short count reader some short = rw (bits, some, short) refl

fill-Gives :
    (count : ℕ) (reader : BitReader)
    → count ≤ 32
    → (count == 0) ≡ false
    → count ≤ size reader
    → Filled reader (fill fill_rounds reader)
    → Gives count reader
fill-Gives count reader small some enough (valid, value, total, bytes, full) =
    let filled = fill fill_rounds reader in
    let room : count ≤ filled.nbits =
      filled_enough filled valid full count small (omega (arith, total)) in
    let ((valid', value', total', bytes'), low) = taken-Taken count filled valid room in
    (
      taken count filled,
      bits_pos count reader some (ground (arith, room))
          ∙ ap (λ (v : ℕ). ok (v, taken count filled))
              (low_value count filled.buf small ∙ low ∙ ap (λ (v : ℕ). v % 2 ^ count) value),
      (valid', value' ∙ ap (λ (v : ℕ). v / 2 ^ count) value, total' ∙ total, bytes' ∙ bytes),
    )

-- A read of a stream that is too short, and of one that is not.
pub bits-Gives :
    (count : ℕ) (reader : BitReader)
    → IsReader reader
    → count ≤ 32
    → (size reader < count → bits count reader ≡ err ArchiveError.end_of_stream)
      × (count ≤ size reader → Gives count reader)
bits-Gives count reader h small =
    let ready = fill_lem fill_rounds reader h (omega arith) in
    let (valid, value, total, bytes, full) = ready in
    elim (Bool-cases (count == 0)) [
      | inl zero_bits ↦
          let e : 0 ≡ count = ground arith in
          (
            λ short. absurd (omega (arith, e)),
            λ enough. subst (λ n. Gives n reader) e (bits_zero reader h),
          )
      | inr some_bits ↦ (
        λ short. bits_short count reader some_bits (ground (arith, total)),
        λ enough. fill-Gives count reader small some_bits enough ready,
      )
    ]

-- The specification: a stream of bits is a number and its length.
abbrev pub take_bits : ℕ → ℕ → ℕ → Result ArchiveError (ℕ × ℕ × ℕ)
take_bits count value total =
    if ltb total count
    then err ArchiveError.end_of_stream
    else ok (value % 2 ^ count, value / 2 ^ count, total - count)

-- What a read shows of the reader that it leaves.
abbrev pub as_stream : Result ArchiveError (ℕ × BitReader) → Result ArchiveError (ℕ × ℕ × ℕ)
as_stream (ok (value, reader)) = ok (value, remaining reader, size reader)
as_stream (err fault) = err fault

abbrev pub LeavesReader : Result ArchiveError (ℕ × BitReader) → Type 0
LeavesReader (ok (value, reader)) = IsReader reader
LeavesReader (err fault) = Unit

-- The reader implements the stream: a read of up to 32 bits is the specification's on the number of
-- the bits that are left, buffered or not, and leaves a valid reader.
pub bits-refines :
    (count : ℕ) (reader : BitReader)
    → IsReader reader
    → count ≤ 32
    → (as_stream (bits count reader) ≡ take_bits count (remaining reader) (size reader))
      × LeavesReader (bits count reader)
bits-refines count reader h small = elim (Bool-cases (ltb (size reader) count)) [
  | inl short ↦
      let answer = (bits-Gives count reader h small).0 (ground arith) in
      rw (answer, short) (refl, tt)
  | inr enough ↦
      let (after, answer, (valid, left, less, same)) =
        (bits-Gives count reader h small).1 (ground arith) in
      let rest : size after ≡ size reader - count = omega (arith, less) in
      rw (answer, enough, left, rest) (refl, valid)
]
