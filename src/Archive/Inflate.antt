-- ===== src/Archive/Inflate.antt =====
-- The DEFLATE decoder of backend/src/archive.rs. The loops without a bound of their own take fuel, one
-- round for a bit of the input; a loop that used it up is the error `diverged`.
use dbx_plugin_files.Prelude.{
  ℕ, zero, suc, ◌+◌, ◌-◌, ◌*◌, ◌==◌, List, [], ◌∷◌, ◌++◌, length, take, drop, set, replicate, ltb,
  leb, if◌then◌else◌, Result, ok, err, fail_if, ◌>>=◌, ◌>>◌,
}
use dbx_plugin_files.Archive.Paths.{ArchiveError}
use dbx_plugin_files.Archive.Reader.{BitReader, new, bits, align_to_byte, copy_bytes}
use dbx_plugin_files.Archive.Huffman.{Huffman, index_of, build, decode}

abbrev pub length_base : List ℕ
length_base =
    3 ∷ 4 ∷ 5 ∷ 6 ∷ 7 ∷ 8 ∷ 9 ∷ 10 ∷ 11 ∷ 13 ∷ 15 ∷ 17 ∷ 19 ∷ 23 ∷ 27 ∷ 31 ∷ 35 ∷ 43 ∷ 51 ∷ 59 ∷ 67
    ∷ 83 ∷ 99 ∷ 115 ∷ 131 ∷ 163 ∷ 195 ∷ 227 ∷ 258 ∷ []

abbrev pub length_extra : List ℕ
length_extra =
    0 ∷ 0 ∷ 0 ∷ 0 ∷ 0 ∷ 0 ∷ 0 ∷ 0 ∷ 1 ∷ 1 ∷ 1 ∷ 1 ∷ 2 ∷ 2 ∷ 2 ∷ 2 ∷ 3 ∷ 3 ∷ 3 ∷ 3 ∷ 4 ∷ 4 ∷ 4 ∷ 4
    ∷ 5 ∷ 5 ∷ 5 ∷ 5 ∷ 0 ∷ []

abbrev pub dist_base : List ℕ
dist_base =
    1 ∷ 2 ∷ 3 ∷ 4 ∷ 5 ∷ 7 ∷ 9 ∷ 13 ∷ 17 ∷ 25 ∷ 33 ∷ 49 ∷ 65 ∷ 97 ∷ 129 ∷ 193 ∷ 257 ∷ 385 ∷ 513 ∷ 769
    ∷ 1025 ∷ 1537 ∷ 2049 ∷ 3073 ∷ 4097 ∷ 6145 ∷ 8193 ∷ 12289 ∷ 16385 ∷ 24577 ∷ []

abbrev pub dist_extra : List ℕ
dist_extra =
    0 ∷ 0 ∷ 0 ∷ 0 ∷ 1 ∷ 1 ∷ 2 ∷ 2 ∷ 3 ∷ 3 ∷ 4 ∷ 4 ∷ 5 ∷ 5 ∷ 6 ∷ 6 ∷ 7 ∷ 7 ∷ 8 ∷ 8 ∷ 9 ∷ 9 ∷ 10 ∷ 10
    ∷ 11 ∷ 11 ∷ 12 ∷ 12 ∷ 13 ∷ 13 ∷ []

abbrev pub cl_order : List ℕ
cl_order = 16 ∷ 17 ∷ 18 ∷ 0 ∷ 8 ∷ 7 ∷ 9 ∷ 6 ∷ 10 ∷ 5 ∷ 11 ∷ 4 ∷ 12 ∷ 3 ∷ 13 ∷ 2 ∷ 14 ∷ 1 ∷ 15 ∷ []

abbrev pub fixed_lengths : List ℕ
fixed_lengths = replicate 144 8 ++ (replicate 112 9 ++ (replicate 24 7 ++ replicate 8 8))

unfoldable pub fixed_tables : Result ArchiveError (Huffman × Huffman)
fixed_tables = do lit ← build fixed_lengths; dist ← build (replicate 30 5); ok (lit, dist)

-- The copy loop of a back-reference.
unfoldable pub copy_match : ℕ → ℕ → List ℕ → Result ArchiveError (List ℕ)
copy_match zero at out = ok out
copy_match (suc count) at out =
    index_of out at >>= λ byte. copy_match count (at + 1) (out ++ (byte ∷ []))

-- A length symbol and its back-reference.
unfoldable pub read_match :
    Huffman → ℕ → ℕ → List ℕ → BitReader → Result ArchiveError (List ℕ × BitReader)
unfolding copy_match
read_match dist max_out symbol out reader0 = do
  base ← index_of length_base (symbol - 257)
  extra ← index_of length_extra (symbol - 257)
  (more, reader1) ← bits extra reader0
  (dist_symbol, reader2) ← decode dist reader1
  fail_if (leb 30 dist_symbol) ArchiveError.bad_distance
  far ← index_of dist_base dist_symbol
  far_extra ← index_of dist_extra dist_symbol
  (farther, reader3) ← bits far_extra reader2
  fail_if (ltb (length out) (far + farther)) ArchiveError.bad_distance
  fail_if (ltb max_out (length out + (base + more))) ArchiveError.over_budget
  out' ← copy_match (base + more) (length out - (far + farther)) out
  ok (out', reader3)

unfoldable pub decode_block :
    ℕ → Huffman → Huffman → ℕ → List ℕ → BitReader → Result ArchiveError (List ℕ × BitReader)
unfolding read_match
decode_block zero lit dist max_out out reader = err ArchiveError.diverged
decode_block (suc fuel) lit dist max_out out reader = decode lit reader >>= λ (symbol, reader').
    let literal = decode_block fuel lit dist max_out (out ++ (symbol ∷ [])) reader' in
    let matched = read_match dist max_out symbol out reader' >>= λ (out', reader'').
    decode_block fuel lit dist max_out out' reader'' in
    if ltb symbol 256
    then (if leb max_out (length out) then err ArchiveError.over_budget else literal)
    else if symbol == 256
    then ok (out, reader')
    else if leb symbol 285
    then matched
    else err ArchiveError.bad_symbol

-- The code length code lengths, in the order of RFC 1951.
unfoldable pub read_cl_lengths :
    List ℕ → List ℕ → BitReader → Result ArchiveError (List ℕ × BitReader)
read_cl_lengths [] lengths reader = ok (lengths, reader)
read_cl_lengths (slot ∷ order) lengths reader =
    bits 3 reader >>= λ (len, reader'). read_cl_lengths order (set lengths slot len) reader'

unfoldable pub write_run : ℕ → ℕ → ℕ → List ℕ → List ℕ
write_run zero index len lengths = lengths
write_run (suc repeat) index len lengths = write_run repeat (index + 1) len (set lengths index len)

-- A repeat of a length, `write_zeros` where it is 0.
unfoldable pub write_repeat : ℕ → ℕ → ℕ → List ℕ → Result ArchiveError (ℕ × List ℕ)
unfolding write_run
write_repeat repeat index len lengths =
    if ltb (length lengths) (index + repeat)
    then err ArchiveError.bad_repeat
    else ok (index + repeat, write_run repeat index len lengths)

-- One symbol of the code lengths: the next index, the lengths and the reader.
unfoldable pub read_length :
    ℕ → ℕ → List ℕ → BitReader → Result ArchiveError (ℕ × List ℕ × BitReader)
unfolding write_repeat
read_length symbol index lengths reader =
    if ltb symbol 16
    then ok (index + 1, set lengths index symbol, reader)
    else if symbol == 16
    then (do
      fail_if (index == 0) ArchiveError.bad_repeat
      previous ← index_of lengths (index - 1)
      (extra, reader') ← bits 2 reader
      (index', lengths') ← write_repeat (3 + extra) index previous lengths
      ok (index', lengths', reader'))
    else if symbol == 17
    then (do
      (extra, reader') ← bits 3 reader
      (index', lengths') ← write_repeat (3 + extra) index 0 lengths
      ok (index', lengths', reader'))
    else if symbol == 18
    then (do
      (extra, reader') ← bits 7 reader
      (index', lengths') ← write_repeat (11 + extra) index 0 lengths
      ok (index', lengths', reader'))
    else err ArchiveError.bad_symbol

unfoldable pub read_lengths :
    ℕ → Huffman → ℕ → List ℕ → BitReader → Result ArchiveError (List ℕ × BitReader)
unfolding read_length
read_lengths zero cl index lengths reader = err ArchiveError.diverged
read_lengths (suc fuel) cl index lengths reader =
    let round = decode cl reader >>= λ (symbol, reader').
    read_length symbol index lengths reader' >>= λ (index', lengths', reader'').
    read_lengths fuel cl index' lengths' reader'' in
    if ltb index (length lengths) then round else ok (lengths, reader)

unfoldable pub read_dynamic_tables :
    ℕ → BitReader → Result ArchiveError (Huffman × Huffman × BitReader)
unfolding read_cl_lengths read_lengths
read_dynamic_tables fuel reader0 = do
  (lit_count, reader1) ← bits 5 reader0
  (dist_count, reader2) ← bits 5 reader1
  (cl_count, reader3) ← bits 4 reader2
  (cl_lengths, reader4) ← read_cl_lengths (take (cl_count + 4) cl_order) (replicate 19 0) reader3
  cl ← build cl_lengths
  (lengths, reader5) ←
      read_lengths fuel cl 0 (replicate (lit_count + 257 + (dist_count + 1)) 0) reader4
  end_length ← index_of lengths 256
  fail_if (end_length == 0) ArchiveError.no_end_code
  lit ← build (take (lit_count + 257) lengths)
  dist ← build (drop (lit_count + 257) lengths)
  ok (lit, dist, reader5)

-- A stored block; `!nlen & 0xffff` of a 16-bit number is `0xffff - nlen`.
unfoldable pub stored_block : ℕ → List ℕ → BitReader → Result ArchiveError (List ℕ × BitReader)
stored_block max_out out reader0 = do
  (len, reader1) ← bits 16 (align_to_byte reader0)
  (nlen, reader2) ← bits 16 reader1
  if len == 0xffff - nlen
      then copy_bytes len max_out out reader2
      else err ArchiveError.bad_stored_length

unfoldable pub read_block :
    ℕ → ℕ → ℕ → List ℕ → BitReader → Result ArchiveError (List ℕ × BitReader)
unfolding stored_block fixed_tables read_dynamic_tables decode_block
read_block fuel btype max_out out reader =
    if btype == 0
    then stored_block max_out out reader
    else if btype == 1
    then (do (lit, dist) ← fixed_tables; decode_block fuel lit dist max_out out reader)
    else if btype == 2
    then (do
      (lit, dist, reader') ← read_dynamic_tables fuel reader
      decode_block fuel lit dist max_out out reader')
    else err ArchiveError.bad_block

-- The loop over the blocks.
unfoldable pub inflate_from : ℕ → ℕ → ℕ → List ℕ → BitReader → Result ArchiveError (List ℕ)
unfolding read_block
inflate_from zero rounds max_out out reader = err ArchiveError.diverged
inflate_from (suc fuel) rounds max_out out reader = bits 1 reader >>= λ (bfinal, reader1).
    bits 2 reader1 >>= λ (btype, reader2).
    read_block rounds btype max_out out reader2 >>= λ (out', reader3).
    let rest = inflate_from fuel rounds max_out out' reader3 in
    if bfinal == 1 then ok out' else rest

-- Each round of each loop takes a bit of the input at least.
unfoldable pub inflate : List ℕ → ℕ → Result ArchiveError (List ℕ)
unfolding inflate_from
inflate src max_out =
    let rounds = suc (8 * length src) in inflate_from rounds rounds max_out [] (new src)
