-- ===== src/Archive/Unfinished.antt =====
-- A stream of stored blocks that is finished with the empty block of backend/src/archive.rs.
use dbx_plugin_files.Prelude.{
  ℕ, zero, suc, ◌+◌, ◌-◌, ◌*◌, ◌/◌, ◌≤◌, ◌<◌, ◌≡◌, refl, ap, ◌∙◌, true, false, List, [], ◌∷◌, ◌++◌,
  append_assoc, arith, All, All-append, min, length, take, drop, length-append, length-drop,
  length-take, err,
}
use dbx_plugin_files.Archive.Paths.{ArchiveError}
use dbx_plugin_files.Archive.Reader.{BitReader, align_to_byte}
use dbx_plugin_files.Archive.Reading.{value_of, IsByte}
use dbx_plugin_files.Archive.Inflate.{inflate, inflate_from, stored_block}
use dbx_plugin_files.Archive.Stored.{at_byte, Streams, bits-Streams, align-Streams}
use dbx_plugin_files.Archive.Streams.{bits-Gives}
use dbx_plugin_files.Archive.Chunks.{stored_step, behind_block}
use dbx_plugin_files.Archive.RoundTrip.{stored_chunks-IsByte, left-le-length, inflate_start}
use dbx_plugin_files.Archive.Gzip.{stored_chunk, stored_chunks, max_chunk, deflate_stored_blocks}

-- The block for no bytes.
abbrev empty_block : List ℕ
empty_block = 0x01 ∷ 0x00 ∷ 0x00 ∷ 0xff ∷ []

module _ (bytes : List ℕ) (octets : All IsByte bytes) (rounds max_out : ℕ) where
  -- Behind its length, the empty block has eight bits for the sixteen of the complement.
  short_complement :
      (reader : BitReader)
      → Streams reader bytes (32 * (65536 * 255)) (8 * 3 + 5)
      → (out : List ℕ) → stored_block max_out out reader ≡ err ArchiveError.end_of_stream
  unfolding stored_block
  short_complement reader h out =
      let aligned = align-Streams reader bytes (65536 * 255) 3 h in
      let (reader1, (answer1, stream1)) =
        bits-Streams 16 (align_to_byte reader) bytes (65536 * 255) 8 (omega arith) aligned in
      let short =
        (bits-Gives 16 reader1 stream1.valid (omega arith)).0 (omega (arith, stream1.total_left)) in
      rw (stored_block, answer1, short) refl

  last_step :
      (fuel pos : ℕ) (out : List ℕ)
      → drop pos bytes ≡ empty_block
      → inflate_from (suc fuel) rounds max_out out (at_byte bytes pos)
        ≡ err ArchiveError.end_of_stream
  unfolding inflate_from
  last_step fuel pos out here =
      let left : length bytes ≡ pos + 4 = omega (arith, length-drop pos bytes, ap length here) in
      let stream : Streams (at_byte bytes pos) bytes (1 + 256 * (65536 * 255)) 32 = record {
        valid = record {
          fits = omega arith;
          short = omega arith;
          inside = omega (arith, left);
          backed = omega arith;
          octets = octets;
        };
        left = omega (arith, ap value_of here);
        total_left = omega (arith, left);
        source = refl;
      } in
      let (reader1, (answer1, stream1)) =
        bits-Streams 1 (at_byte bytes pos) bytes _ 31 (omega arith) stream in
      let (reader2, (answer2, stream2)) = bits-Streams 2 reader1 bytes _ 29 (omega arith) stream1 in
      rw (inflate_from, answer1, answer2, short_complement reader2 stream2 out) refl

  open_run :
      (left index total pos fuel : ℕ) (raw out : List ℕ)
      → drop pos bytes ≡ stored_chunks left index total false raw ++ empty_block
      → left ≡ (length raw + 65534) / 65535
      → left < fuel
      → length out + length raw ≤ max_out
      → inflate_from fuel rounds max_out out (at_byte bytes pos) ≡ err ArchiveError.end_of_stream
  unfolding stored_chunks
  open_run left index total pos zero raw out here count enough fits = absurd (omega arith)
  open_run zero index total pos (suc fuel) raw out here count enough fits =
      last_step fuel pos out here
  open_run (suc left) index total pos (suc fuel) raw out here count enough fits =
      let chunk = take max_chunk raw in
      let rest = drop max_chunk raw in
      let tail = stored_chunks left (index + 1) total false rest in
      let here' : drop pos bytes ≡ stored_chunk false chunk ++ (tail ++ empty_block) =
        here ∙ append_assoc (stored_chunk false chunk) tail empty_block in
      let sizes : length chunk ≡ min 65535 (length raw) = length-take max_chunk raw in
      let shorter : length rest ≡ length raw - 65535 = length-drop max_chunk raw in
      stored_step bytes octets pos false chunk (tail ++ empty_block) here' (omega arith) fuel rounds
        max_out out (omega arith)
      ∙ open_run left (index + 1) total (pos + 5 + length chunk) fuel rest (out ++ chunk)
          (behind_block bytes octets pos false chunk (tail ++ empty_block) here' (omega arith))
          (omega arith) (omega arith) (omega (arith, length-append out chunk))

unfinished :
    (raw : List ℕ)
    → deflate_stored_blocks raw false ++ deflate_stored_blocks [] true
      ≡ stored_chunks ((length raw + 65534) / 65535) 0 ((length raw + 65534) / 65535) false raw
        ++ empty_block
unfolding deflate_stored_blocks stored_chunks
unfinished [] = refl
unfinished (byte ∷ raw) = refl

pub some_unfinished :
    (raw : List ℕ) → 0 < length (deflate_stored_blocks raw false ++ deflate_stored_blocks [] true)
unfolding deflate_stored_blocks
some_unfinished raw =
    omega (arith, length-append (deflate_stored_blocks raw false) (deflate_stored_blocks [] true))

-- A stream of blocks that the empty block finishes is not decoded, whatever the bytes.
pub inflate_unfinished :
    (raw : List ℕ) (max_out : ℕ)
    → All IsByte raw
    → length raw ≤ max_out
    → inflate (deflate_stored_blocks raw false ++ deflate_stored_blocks [] true) max_out
      ≡ err ArchiveError.end_of_stream
inflate_unfinished raw max_out octets fits =
    let total = (length raw + 65534) / 65535 in
    let front = stored_chunks total 0 total false raw in
    let src = front ++ empty_block in
    rw (unfinished raw) (
      inflate_start src max_out
      ∙ open_run src
          (All-append IsByte front empty_block (stored_chunks-IsByte total 0 total false raw octets)
            (omega arith, (omega arith, (omega arith, (omega arith, tt)))))
          (suc (8 * length src)) max_out total 0 total 0 (suc (8 * length src)) raw [] refl refl
          (omega (arith, left-le-length total 0 total false raw, length-append front empty_block))
          (omega (arith, fits)))
