-- ===== src/Archive/Huffman.antt =====
-- The canonical Huffman tables of backend/src/archive.rs. A read or write out of bounds, where Rust
-- panics, is the error `panicked`.
use Prim.Native.Nat.{bit_or}
use dbx_plugin_files.Prelude.{
  ℕ, zero, suc, ◌+◌, ◌-◌, ◌*◌, List, [], ◌∷◌, length, drop, get_elem?, set, replicate, ltb, leb,
  if◌then◌else◌, Result, ok, err, ok_or, fail_if, ◌>>=◌, ◌>>◌,
}
use dbx_plugin_files.Archive.Paths.{ArchiveError}
use dbx_plugin_files.Archive.Reader.{BitReader, bits}

-- `counts` has 16 entries, one for each code length.
pub record Huffman : Type 0 where
  pub counts : List ℕ
  pub symbols : List ℕ

-- `array[index]`.
abbrev pub index_of : List ℕ → ℕ → Result ArchiveError ℕ
index_of array index = ok_or (get_elem? array index) ArchiveError.panicked

unfoldable pub count_lengths : List ℕ → List ℕ → Result ArchiveError (List ℕ)
count_lengths counts [] = ok counts
count_lengths counts (len ∷ lengths) =
    if ltb 15 len
    then err ArchiveError.bad_code_length
    else (index_of counts len >>= λ count. count_lengths (set counts len (count + 1)) lengths)

-- The over-subscription check; `left` stays below 2^16, so the `i32` does not wrap.
unfoldable pub check_left : ℕ → List ℕ → Result ArchiveError (Unit {0})
check_left left [] = ok tt
check_left left (count ∷ counts) =
    let rest = check_left (left * 2 - count) counts in
    if ltb (left * 2) count then err ArchiveError.over_subscribed else rest

-- `offsets[1..]`: sums of the counts of the shorter lengths.
unfoldable pub sums : ℕ → List ℕ → List ℕ
sums total [] = total ∷ []
sums total (count ∷ counts) = total ∷ sums (total + count) counts

-- The loop that places the symbols; `symbol` is the index in `lengths`.
unfoldable pub place : ℕ → List ℕ → List ℕ → List ℕ → Result ArchiveError (List ℕ)
place symbol [] offsets symbols = ok symbols
place symbol (zero ∷ lengths) offsets symbols = place (symbol + 1) lengths offsets symbols
place symbol (suc len ∷ lengths) offsets symbols = do
  at ← index_of offsets (suc len)
  fail_if (leb (length symbols) at) ArchiveError.panicked
  place (symbol + 1) lengths (set offsets (suc len) (at + 1)) (set symbols at symbol)

unfoldable pub build : List ℕ → Result ArchiveError Huffman
unfolding count_lengths check_left sums place
build lengths = do
  counted ← count_lengths (replicate 16 0) lengths
  let counts = set counted 0 0
  check_left 1 (drop 1 counts)
  symbols ← place 0 lengths (0 ∷ sums 0 (drop 1 counts)) (replicate (length lengths) 0)
  ok (record { counts = counts; symbols = symbols })

-- The loop of `decode` over the counts of the lengths from 1; `code` is never below `first`.
unfoldable pub decode_from :
    List ℕ → List ℕ → ℕ → ℕ → ℕ → BitReader → Result ArchiveError (ℕ × BitReader)
decode_from symbols [] code first index reader = err ArchiveError.bad_code
decode_from symbols (count ∷ counts) code first index reader = bits 1 reader >>= λ (bit, reader').
    let code' = bit_or code bit in
    let rest =
      decode_from symbols counts (code' * 2) ((first + count) * 2) (index + count) reader' in
    if ltb (code' - first) count
    then (index_of symbols (index + (code' - first)) >>= λ symbol. ok (symbol, reader'))
    else rest

unfoldable pub decode : Huffman → BitReader → Result ArchiveError (ℕ × BitReader)
unfolding decode_from
decode table reader = decode_from table.symbols (drop 1 table.counts) 0 0 0 reader
