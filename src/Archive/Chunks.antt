-- ===== src/Archive/Chunks.antt =====
-- The decoder of backend/src/archive.rs on the stored blocks that its writer makes.
use dbx_plugin_files.Prelude.{
  ℕ, zero, suc, ◌+◌, ◌-◌, ◌*◌, ◌/◌, ◌%◌, ◌≤◌, ◌<◌, ◌≡◌, refl, ap, subst, ◌∙◌, sym, Bool, true,
  false, ◌==◌, List, [], ◌∷◌, ◌++◌, arith, All, length, take, drop, if◌then◌else◌, take-append,
  drop-append, length-append, length-drop, ok,
}
use dbx_plugin_files.Archive.Reader.{BitReader}
use dbx_plugin_files.Archive.Reading.{value_of, IsByte}
use dbx_plugin_files.Archive.Inflate.{stored_block, read_block, inflate_from}
use dbx_plugin_files.Archive.Stored.{at_byte, Streams, bits-Streams, stored_block_at}
use dbx_plugin_files.Archive.Gzip.{stored_chunk}

pub drop-nil : (n : ℕ) → drop {A = ℕ} n [] ≡ []
drop-nil zero = refl
drop-nil (suc n) = refl

pub drop-add : (m n : ℕ) (xs : List ℕ) → drop (m + n) xs ≡ drop n (drop m xs)
drop-add zero n xs = let e : 0 + n ≡ n = omega arith in rw e refl
drop-add (suc m) n [] = drop-nil (suc m + n) ∙ sym (drop-nil n)
drop-add (suc m) n (x ∷ xs) =
    let e : suc m + n ≡ suc (m + n) = omega arith in rw e (drop-add m n xs)

-- The number of a block: its header bit, its length twice, and the rest.
block_value : Bool → List ℕ → List ℕ → ℕ
block_value is_last chunk tail =
    (if is_last then 1 else 0)
    + 256 * (length chunk + 65536 * (0xffff - length chunk + 65536 * value_of (chunk ++ tail)))

value_of-stored_chunk :
    (is_last : Bool) (chunk tail : List ℕ)
    → length chunk < 65536
    → value_of (stored_chunk is_last chunk ++ tail) ≡ block_value is_last chunk tail
unfolding block_value
value_of-stored_chunk is_last chunk tail small = omega arith

-- The three header bits, and what is behind them.
header_bits :
    (is_last : Bool) (body : ℕ)
    → let flag : ℕ = if is_last then 1 else 0 in
      ((flag + 256 * body) % 2 ≡ flag)
      × ((flag + 256 * body) / 2 % 4 ≡ 0)
      × ((flag + 256 * body) / 2 / 4 ≡ 32 * body)
      × ((flag == 1) ≡ is_last)
header_bits true body = (omega arith, omega arith, omega arith, refl)
header_bits false body = (omega arith, omega arith, omega arith, refl)

read_block_stored :
    (rounds max_out : ℕ) (out : List ℕ) (reader : BitReader)
    → read_block rounds 0 max_out out reader ≡ stored_block max_out out reader
unfolding read_block
read_block_stored rounds max_out out reader = refl

module _ (bytes : List ℕ) (octets : All IsByte bytes) (pos : ℕ) (is_last : Bool)
    (chunk tail : List ℕ) (here : drop pos bytes ≡ stored_chunk is_last chunk ++ tail)
    (small : length chunk < 65536) where
  block_length : length bytes ≡ pos + (5 + (length chunk + length tail))
  block_length =
      let total : length (drop pos bytes) ≡ 5 + (length chunk + length tail) =
        rw here (omega (arith, length-append chunk tail)) in
      omega (arith, length-drop pos bytes)

  behind_header : drop (pos + 5) bytes ≡ chunk ++ tail
  behind_header = drop-add pos 5 bytes ∙ ap (drop 5) here

  pub behind_block : drop (pos + 5 + length chunk) bytes ≡ tail
  behind_block =
      drop-add (pos + 5) (length chunk) bytes
      ∙ ap (drop (length chunk)) behind_header
      ∙ drop-append chunk tail

  block_stream :
      Streams
        (at_byte bytes pos)
        bytes
        (block_value is_last chunk tail)
        (8 * (length chunk + length tail + 4) + 5 + 2 + 1)
  block_stream = record {
    valid = record {
      fits = omega arith;
      short = omega arith;
      inside = omega (arith, block_length);
      backed = omega arith;
      octets = octets;
    };
    left = omega (arith, ap value_of here, value_of-stored_chunk is_last chunk tail small);
    total_left = omega (arith, block_length);
    source = refl;
  }

  -- One stored block is decoded to its bytes, and the reader stands at the next byte.
  pub stored_step :
      (fuel rounds max_out : ℕ) (out : List ℕ)
      → length out + length chunk ≤ max_out
      → inflate_from (suc fuel) rounds max_out out (at_byte bytes pos) ≡ (
          if is_last
          then ok (out ++ chunk)
          else inflate_from fuel rounds max_out
              (out ++ chunk)
              (at_byte bytes (pos + 5 + length chunk)))
  unfolding inflate_from block_value
  stored_step fuel rounds max_out out fits =
      let flag : ℕ = if is_last then 1 else 0 in
      let count = length chunk in
      let total = length chunk + length tail in
      let value = value_of (chunk ++ tail) in
      let body = count + 65536 * (0xffff - count + 65536 * value) in
      let (reader1, (answer1, stream1)) =
        bits-Streams 1 (at_byte bytes pos) bytes (flag + 256 * body) (8 * (total + 4) + 5 + 2)
          (omega arith) block_stream in
      let (reader2, (answer2, stream2)) =
        bits-Streams 2 reader1 bytes ((flag + 256 * body) / 2) (8 * (total + 4) + 5) (omega arith)
          stream1 in
      let (low1, low2, high, flagged) = header_bits is_last body in
      let block =
        stored_block_at count max_out (pos + 5) out reader2 bytes value total
          (subst (λ v. Streams reader2 bytes v (8 * (total + 4) + 5)) high stream2) small
          (omega (arith, block_length)) (omega arith) fits in
      let copied : take count (drop (pos + 5) bytes) ≡ chunk =
        ap (take count) behind_header ∙ take-append chunk tail in
      rw (inflate_from, answer1, low1, answer2, low2, block, copied, flagged) refl
