-- ===== src/Archive/RoundTrip.antt =====
-- What the gzip writer of backend/src/archive.rs writes, the reader of the same file reads back.
use dbx_plugin_files.Prelude.{
  ℕ, zero, suc, ◌+◌, ◌-◌, ◌*◌, ◌/◌, ◌≤◌, ◌<◌, ◌≡◌, refl, ap, ◌∙◌, Bool, true, false, ◌&&◌, ◌==◌,
  List, [], ◌∷◌, ◌++◌, append_assoc, arith, All, All-append, min, length, take, drop,
  take-append-drop, length-append, length-drop, length-take, ok,
}
use dbx_plugin_files.Archive.Reader.{new}
use dbx_plugin_files.Archive.Reading.{IsByte}
use dbx_plugin_files.Archive.Inflate.{inflate, inflate_from}
use dbx_plugin_files.Archive.Stored.{at_byte}
use dbx_plugin_files.Archive.Chunks.{stored_step, behind_block}
use dbx_plugin_files.Archive.Gzip.{stored_chunk, stored_chunks, max_chunk, deflate_stored_blocks}

pub All-take : (n : ℕ) (xs : List ℕ) → All IsByte xs → All IsByte (take n xs)
All-take zero xs h = tt
All-take (suc n) [] h = tt
All-take (suc n) (x ∷ xs) h = (h.0, All-take n xs h.1)

pub All-drop : (n : ℕ) (xs : List ℕ) → All IsByte xs → All IsByte (drop n xs)
All-drop zero xs h = h
All-drop (suc n) [] h = tt
All-drop (suc n) (x ∷ xs) h = All-drop n xs h.1

pub stored_chunks-IsByte :
    (left index total : ℕ) (is_final : Bool) (raw : List ℕ)
    → All IsByte raw
    → All IsByte (stored_chunks left index total is_final raw)
unfolding stored_chunks
stored_chunks-IsByte zero index total is_final raw h = tt
stored_chunks-IsByte (suc left) index total is_final raw h =
    All-append IsByte (stored_chunk (is_final && index + 1 == total) (take max_chunk raw)) _
      (
        ground arith,
        (omega arith, (omega arith, (omega arith, (omega arith, All-take max_chunk raw h)))),
      )
      (stored_chunks-IsByte left (index + 1) total is_final (drop max_chunk raw)
        (All-drop max_chunk raw h))

pub left-le-length :
    (left index total : ℕ) (is_final : Bool) (raw : List ℕ)
    → left ≤ length (stored_chunks left index total is_final raw)
unfolding stored_chunks
left-le-length zero index total is_final raw = omega arith
left-le-length (suc left) index total is_final raw = omega (
  arith,
  length-append (stored_chunk (is_final && index + 1 == total) (take max_chunk raw))
      (stored_chunks left (index + 1) total is_final (drop max_chunk raw)),
  left-le-length left (index + 1) total is_final (drop max_chunk raw),
)

take_all : (n : ℕ) (xs : List ℕ) → length xs ≤ n → take n xs ≡ xs
take_all zero [] h = refl
take_all zero (x ∷ xs) h = absurd (omega arith)
take_all (suc n) [] h = refl
take_all (suc n) (x ∷ xs) h = ap (◌∷◌ x) (take_all n xs (omega arith))

last_flag : (index total : ℕ) → total ≡ index + 1 → (index + 1 == total) ≡ true
last_flag index total h = ground arith

other_flag : (index left total : ℕ) → total ≡ index + suc (suc left) → (index + 1 == total) ≡ false
other_flag index left total h = ground arith

module _ (bytes : List ℕ) (octets : All IsByte bytes) (rounds max_out : ℕ) where
  -- The blocks of a text are decoded one after the other, to the last.
  stored_run :
      (left index total pos fuel : ℕ) (raw out : List ℕ)
      → drop pos bytes ≡ stored_chunks (suc left) index total true raw
      → suc left ≡ (length raw + 65534) / 65535
      → total ≡ index + suc left
      → left < fuel
      → length out + length raw ≤ max_out
      → inflate_from fuel rounds max_out out (at_byte bytes pos) ≡ ok (out ++ raw)
  unfolding stored_chunks
  stored_run left index total pos zero raw out here count last enough fits = absurd (omega arith)
  stored_run zero index total pos (suc fuel) raw out here count last enough fits =
      let flag : (index + 1 == total) ≡ true = last_flag index total last in
      let whole : take max_chunk raw ≡ raw = take_all max_chunk raw (omega arith) in
      let here' : drop pos bytes ≡ stored_chunk true raw ++ [] = here ∙ rw (flag, whole) refl in
      stored_step bytes octets pos true raw [] here' (omega arith) fuel rounds max_out out fits
  stored_run (suc left) index total pos (suc fuel) raw out here count last enough fits =
      let flag : (index + 1 == total) ≡ false = other_flag index left total last in
      let chunk = take max_chunk raw in
      let rest = drop max_chunk raw in
      let tail = stored_chunks (suc left) (index + 1) total true rest in
      let here' : drop pos bytes ≡ stored_chunk false chunk ++ tail = here ∙ rw flag refl in
      let sizes : length chunk ≡ min 65535 (length raw) = length-take max_chunk raw in
      let shorter : length rest ≡ length raw - 65535 = length-drop max_chunk raw in
      stored_step bytes octets pos false chunk tail here' (omega arith) fuel rounds max_out out
        (omega arith)
      ∙ stored_run left (index + 1) total (pos + 5 + length chunk) fuel rest (out ++ chunk)
          (behind_block bytes octets pos false chunk tail here' (omega arith)) (omega arith)
          (omega arith) (omega arith) (omega (arith, length-append out chunk))
      ∙ ap ok (append_assoc out chunk rest ∙ ap (◌++◌ out) (take-append-drop max_chunk raw))

pub inflate_start :
    (src : List ℕ) (max_out : ℕ)
    → inflate src max_out
      ≡ inflate_from (suc (8 * length src)) (suc (8 * length src)) max_out [] (at_byte src 0)
unfolding inflate new
inflate_start src max_out = refl

blocks :
    (byte : ℕ) (rest : List ℕ) (left : ℕ)
    → (length (byte ∷ rest) + 65534) / 65535 ≡ suc left
    → deflate_stored_blocks (byte ∷ rest) true
      ≡ stored_chunks (suc left) 0 (suc left) true (byte ∷ rest)
unfolding deflate_stored_blocks
blocks byte rest left total = ap (λ (n : ℕ). stored_chunks n 0 n true (byte ∷ rest)) total

-- A text that is not empty comes back from the blocks that it was written in.
pub inflate-deflate_stored_blocks :
    (byte : ℕ) (rest : List ℕ) (max_out : ℕ)
    → All IsByte (byte ∷ rest)
    → length (byte ∷ rest) ≤ max_out
    → inflate (deflate_stored_blocks (byte ∷ rest) true) max_out ≡ ok (byte ∷ rest)
inflate-deflate_stored_blocks byte rest max_out octets fits =
    let raw = byte ∷ rest in
    let left = (length raw + 65534) / 65535 - 1 in
    let total : (length raw + 65534) / 65535 ≡ suc left = omega arith in
    let src = stored_chunks (suc left) 0 (suc left) true raw in
    rw (blocks byte rest left total) (
      inflate_start src max_out
      ∙ stored_run src (stored_chunks-IsByte (suc left) 0 (suc left) true raw octets)
          (suc (8 * length src)) max_out left 0 (suc left) 0 (suc (8 * length src)) raw [] refl
          (omega (arith, total)) (omega arith)
          (omega (arith, left-le-length (suc left) 0 (suc left) true raw)) (omega arith))

pub some_blocks : (byte : ℕ) (rest : List ℕ) → 0 < length (deflate_stored_blocks (byte ∷ rest) true)
some_blocks byte rest =
    let raw = byte ∷ rest in
    let left = (length raw + 65534) / 65535 - 1 in
    rw (blocks byte rest left (omega arith))
      (omega (arith, left-le-length (suc left) 0 (suc left) true raw))
