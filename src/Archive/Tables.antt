-- ===== src/Archive/Tables.antt =====
-- Building and reading the Huffman tables of backend/src/archive.rs ends.
use Prim.Native.Nat.{bit_or}
use dbx_plugin_files.Prelude.{
  ℕ, zero, suc, ◌+◌, ◌-◌, ◌*◌, refl, List, [], ◌∷◌, arith, length, drop, set, replicate, ltb, leb,
}
use dbx_plugin_files.Archive.Paths.{ArchiveError}
use dbx_plugin_files.Archive.Reader.{BitReader, bits}
use dbx_plugin_files.Archive.Reading.{IsReader}
use dbx_plugin_files.Archive.Huffman.{
  Huffman, index_of, count_lengths, check_left, sums, place, build, decode_from, decode,
}
use dbx_plugin_files.Archive.Ends.{
  Ends, Ends-bind, Ends-weaken, Ends-if, Ends-fail_if, Ends-index_any, Later, bits-Ends,
}

-- A result that has nothing to prove.
abbrev pub Any : {A : Type 0} → A → Type 0
Any x = Unit {0}

count_lengths-Ends : (counts lengths : List ℕ) → Ends Any (count_lengths counts lengths)
unfolding count_lengths
count_lengths-Ends counts [] = tt
count_lengths-Ends counts (len ∷ lengths) =
    Ends-if Any (ltb 15 len) _ _ (λ long. refl)
      (λ short.
        Ends-bind Any Any (index_of counts len) _ (Ends-index_any counts len)
          (λ count h. count_lengths-Ends (set counts len (count + 1)) lengths))

check_left-Ends : (left : ℕ) (counts : List ℕ) → Ends Any (check_left left counts)
unfolding check_left
check_left-Ends left [] = tt
check_left-Ends left (count ∷ counts) =
    Ends-if Any (ltb (left * 2) count) _ _ (λ over. refl)
      (λ fits. check_left-Ends (left * 2 - count) counts)

place-Ends :
    (symbol : ℕ) (lengths offsets symbols : List ℕ)
    → Ends Any (place symbol lengths offsets symbols)
unfolding place
place-Ends symbol [] offsets symbols = tt
place-Ends symbol (zero ∷ lengths) offsets symbols = place-Ends (symbol + 1) lengths offsets symbols
place-Ends symbol (suc len ∷ lengths) offsets symbols =
    Ends-bind Any Any (index_of offsets (suc len)) _ (Ends-index_any offsets (suc len)) (λ at h.
      Ends-fail_if Any (leb (length symbols) at) ArchiveError.panicked _ refl (λ inside.
        place-Ends (symbol + 1) lengths (set offsets (suc len) (at + 1)) (set symbols at symbol)))

pub build-Ends : (lengths : List ℕ) → Ends Any (build lengths)
unfolding build
build-Ends lengths =
    Ends-bind Any Any (count_lengths (replicate 16 0) lengths) _
      (count_lengths-Ends (replicate 16 0) lengths)
      (λ counted h.
        let counts = drop 1 (set counted 0 0) in
        Ends-bind Any Any (check_left 1 counts) _ (check_left-Ends 1 counts) (λ u k.
          Ends-bind Any Any (place 0 lengths (0 ∷ sums 0 counts) (replicate (length lengths) 0)) _
            (place-Ends 0 lengths (0 ∷ sums 0 counts) (replicate (length lengths) 0))
            (λ symbols l. tt)))

-- A symbol takes a bit at least.
abbrev pub Read : ℕ → BitReader → ℕ × BitReader → Type 0
Read count reader x = Later count reader x.1

decode_from-Ends :
    (symbols counts : List ℕ) (code first index : ℕ) (reader : BitReader)
    → IsReader reader
    → Ends (Read 1 reader) (decode_from symbols counts code first index reader)
unfolding decode_from
decode_from-Ends symbols [] code first index reader h = refl
decode_from-Ends symbols (count ∷ counts) code first index reader h =
    Ends-bind (Read 1 reader) (Read 1 reader) (bits 1 reader) _ (bits-Ends 1 reader h (omega arith))
      (λ (bit, reader') later.
        let code' = bit_or code bit in
        Ends-if (Read 1 reader) (ltb (code' - first) count) _ _
          (λ here.
            Ends-bind Any (Read 1 reader) (index_of symbols (index + (code' - first))) _
              (Ends-index_any symbols (index + (code' - first))) (λ symbol u. later))
          (λ longer.
            Ends-weaken (Read 1 reader') (Read 1 reader)
              (decode_from symbols counts (code' * 2) ((first + count) * 2) (index + count) reader')
              (λ x k. (k.0, omega (arith, later.1, k.1)))
              (decode_from-Ends symbols counts (code' * 2) ((first + count) * 2) (index + count)
                reader' later.0)))

pub decode-Ends :
    (table : Huffman) (reader : BitReader)
    → IsReader reader
    → Ends (Read 1 reader) (decode table reader)
unfolding decode
decode-Ends table reader h = decode_from-Ends table.symbols (drop 1 table.counts) 0 0 0 reader h
