-- ===== src/Archive/Stored.antt =====
-- Reading a stored block of backend/src/archive.rs from a byte boundary.
use dbx_plugin_files.Prelude.{
  ℕ, ◌+◌, ◌-◌, ◌*◌, ◌/◌, ◌%◌, ◌^◌, ◌≤◌, ◌<◌, ◌≡◌, refl, ap, subst, ◌∙◌, true, false, ◌==◌, List,
  ◌++◌, arith, length, take, drop, ltb, ok,
}
use dbx_plugin_files.Archive.Reader.{BitReader, bits, align_to_byte, copy_bytes}
use dbx_plugin_files.Archive.Reading.{remaining, size, IsReader, taken-Taken}
use dbx_plugin_files.Archive.Streams.{bits-Gives}
use dbx_plugin_files.Archive.Inflate.{stored_block}

-- A reader at a byte, with an empty buffer.
abbrev pub at_byte : List ℕ → ℕ → BitReader
at_byte bytes pos = record { bytes = bytes; pos = pos; buf = 0; nbits = 0 }

-- A reader of a stream: valid, with the number and the length of what is left.
pub record Streams (reader : BitReader) (bytes : List ℕ) (value total : ℕ) : Type 0 where
  pub valid : IsReader reader
  pub left : remaining reader ≡ value
  pub total_left : size reader ≡ total
  pub source : reader.bytes ≡ bytes

-- A read from a stream that is long enough.
pub bits-Streams :
    (count : ℕ) (reader : BitReader) (bytes : List ℕ) (value total : ℕ)
    → count ≤ 32
    → Streams reader bytes value (total + count)
    → (after : BitReader) × ((bits count reader ≡ ok (value % 2 ^ count, after))
        × Streams after bytes (value / 2 ^ count) total)
bits-Streams count reader bytes value total small h =
    let (after, answer, (valid, left, less, same)) =
      (bits-Gives count reader h.valid small).1 (omega (arith, h.total_left)) in
    (
      after,
      (
        rw (← h.left) answer,
        record {
          valid = valid;
          left = left ∙ ap (λ (v : ℕ). v / 2 ^ count) h.left;
          total_left = omega (arith, less, h.total_left);
          source = same ∙ h.source;
        },
      ),
    )

pub align-Streams :
    (reader : BitReader) (bytes : List ℕ) (value total : ℕ)
    → Streams reader bytes (32 * value) (8 * total + 5)
    → Streams (align_to_byte reader) bytes value (8 * total)
unfolding align_to_byte
align-Streams reader bytes value total h =
    let five : reader.nbits % 8 ≡ 5 = omega (arith, h.total_left) in
    let ((valid, left, less, same), low) =
      taken-Taken (reader.nbits % 8) reader h.valid (omega arith) in
    record {
      valid = valid;
      left =
          left
          ∙ ap (λ (v : ℕ). v / 2 ^ (reader.nbits % 8)) h.left
          ∙ ap (λ (k : ℕ). 32 * value / 2 ^ k) five
          ∙ (let e : 32 * value / 32 ≡ value = omega arith in e);
      total_left = omega (arith, less, five, h.total_left);
      source = same ∙ h.source;
    }

copied :
    (count max_out start : ℕ) (out : List ℕ) (reader : BitReader) (bytes : List ℕ) (value total : ℕ)
    → Streams reader bytes value (8 * total)
    → start + total ≡ length bytes
    → count ≤ total
    → length out + count ≤ max_out
    → copy_bytes count max_out out reader
      ≡ ok (out ++ take count (drop start bytes), at_byte bytes (start + count))
unfolding copy_bytes
copied count max_out start out reader bytes value total h whole enough fits =
    let long : length reader.bytes ≡ length bytes = ap length h.source in
    let e : reader.pos - reader.nbits / 8 ≡ start =
      omega (arith, h.total_left, h.valid.inside, h.valid.backed) in
    let inside : ltb (length bytes) (start + count) ≡ false = ground arith in
    let room : ltb max_out (length out + count) ≡ false = ground arith in
    rw (copy_bytes, e, h.source, inside, room) refl

-- The block behind its three header bits: the bytes are copied, and the reader stands behind them.
pub stored_block_at :
    (count max_out start : ℕ) (out : List ℕ) (reader : BitReader) (bytes : List ℕ) (value total : ℕ)
    → Streams reader bytes
        (32 * (count + 65536 * (0xffff - count + 65536 * value)))
        (8 * (total + 4) + 5)
    → count < 65536
    → start + total ≡ length bytes
    → count ≤ total
    → length out + count ≤ max_out
    → stored_block max_out out reader
      ≡ ok (out ++ take count (drop start bytes), at_byte bytes (start + count))
unfolding stored_block
stored_block_at count max_out start out reader bytes value total h small whole enough fits =
    let tail = 0xffff - count + 65536 * value in
    let aligned = align-Streams reader bytes (count + 65536 * tail) (total + 4) h in
    let (reader1, (answer1, stream1)) =
      bits-Streams 16 (align_to_byte reader) bytes (count + 65536 * tail) (8 * total + 16)
        (omega arith)
        (subst (Streams (align_to_byte reader) bytes (count + 65536 * tail))
          (let e : 8 * (total + 4) ≡ 8 * total + 16 + 16 = omega arith in e) aligned) in
    let low1 : (count + 65536 * tail) % 2 ^ 16 ≡ count = omega arith in
    let high1 : (count + 65536 * tail) / 2 ^ 16 ≡ tail = omega arith in
    let (reader2, (answer2, stream2)) =
      bits-Streams 16 reader1 bytes tail (8 * total) (omega arith)
        (subst (λ v. Streams reader1 bytes v (8 * total + 16)) high1 stream1) in
    let low2 : tail % 2 ^ 16 ≡ 0xffff - count = omega arith in
    let same : (count == 0xffff - (0xffff - count)) ≡ true = ground arith in
    rw (stored_block, answer1, low1, answer2, low2, same)
      (copied count max_out start out reader2 bytes (tail / 2 ^ 16) total stream2 whole enough fits)
