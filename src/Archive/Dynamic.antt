-- ===== src/Archive/Dynamic.antt =====
-- Reading the tables of a dynamic block of backend/src/archive.rs ends.
use dbx_plugin_files.Prelude.{
  ℕ, zero, suc, ◌+◌, ◌-◌, ◌≤◌, ◌<◌, refl, ◌==◌, List, [], ◌∷◌, arith, length, take, drop, set,
  replicate, ltb, ok, ◌>>=◌,
}
use dbx_plugin_files.Archive.Paths.{ArchiveError}
use dbx_plugin_files.Archive.Reader.{BitReader, bits}
use dbx_plugin_files.Archive.Reading.{size, IsReader}
use dbx_plugin_files.Archive.Huffman.{Huffman, index_of, build, decode}
use dbx_plugin_files.Archive.Inflate.{
  cl_order, read_cl_lengths, write_repeat, read_length, read_lengths, read_dynamic_tables,
}
use dbx_plugin_files.Archive.Ends.{
  Ends, Ends-bind, Ends-weaken, Ends-if, Ends-fail_if, Ends-index_any, Later, bits-Ends,
}
use dbx_plugin_files.Archive.Tables.{Any, Read, build-Ends, decode-Ends}

abbrev pub ListRead : BitReader → List ℕ × BitReader → Type 0
ListRead reader x = Later 0 reader x.1

abbrev pub TripleRead : {A B : Type 0} → BitReader → A × B × BitReader → Type 0
TripleRead reader x = Later 0 reader x.2

read_cl_lengths-Ends :
    (order lengths : List ℕ) (reader : BitReader)
    → IsReader reader
    → Ends (ListRead reader) (read_cl_lengths order lengths reader)
unfolding read_cl_lengths
read_cl_lengths-Ends [] lengths reader h = (h, omega arith)
read_cl_lengths-Ends (slot ∷ order) lengths reader h =
    Ends-bind (Read 3 reader) (ListRead reader) (bits 3 reader) _
      (bits-Ends 3 reader h (omega arith))
      (λ (len, reader') later.
        Ends-weaken (ListRead reader') (ListRead reader)
          (read_cl_lengths order (set lengths slot len) reader')
          (λ x k. (k.0, omega (arith, k.1, later.1)))
          (read_cl_lengths-Ends order (set lengths slot len) reader' later.0))

write_repeat-Ends :
    (repeat index len : ℕ) (lengths : List ℕ) → Ends Any (write_repeat repeat index len lengths)
unfolding write_repeat
write_repeat-Ends repeat index len lengths =
    Ends-if Any (ltb (length lengths) (index + repeat)) _ _ (λ over. refl) (λ fits. tt)

-- A repeat code with `count` extra bits.
repeat-Ends :
    (count base index len : ℕ) (lengths : List ℕ) (reader : BitReader)
    → IsReader reader
    → count ≤ 32
    → Ends (TripleRead reader) (
        bits count reader >>= λ (extra, reader').
        write_repeat (base + extra) index len lengths >>= λ (index', lengths').
        ok (index', lengths', reader'))
repeat-Ends count base index len lengths reader h small =
    Ends-bind (Read count reader) (TripleRead reader) (bits count reader) _
      (bits-Ends count reader h small)
      (λ (extra, reader') later.
        Ends-bind Any (TripleRead reader) (write_repeat (base + extra) index len lengths) _
          (write_repeat-Ends (base + extra) index len lengths)
          (λ x u. (later.0, omega (arith, later.1))))

read_length-Ends :
    (symbol index : ℕ) (lengths : List ℕ) (reader : BitReader)
    → IsReader reader
    → Ends (TripleRead reader) (read_length symbol index lengths reader)
unfolding read_length
read_length-Ends symbol index lengths reader h =
    let P = TripleRead reader in
    Ends-if P (ltb symbol 16) _ _ (λ plain. (h, omega arith))
      (λ code.
        Ends-if P (symbol == 16) _ _
          (λ repeated. Ends-fail_if P (index == 0) ArchiveError.bad_repeat _ refl (λ some_before.
            Ends-bind Any P (index_of lengths (index - 1)) _ (Ends-index_any lengths (index - 1))
              (λ previous u. repeat-Ends 2 3 index previous lengths reader h (omega arith))))
          (λ not16.
            Ends-if P (symbol == 17) _ _
              (λ short. repeat-Ends 3 3 index 0 lengths reader h (omega arith))
              (λ not17.
                Ends-if P (symbol == 18) _ _
                  (λ long. repeat-Ends 7 11 index 0 lengths reader h (omega arith))
                  (λ unknown. refl))))

read_lengths-Ends :
    (fuel : ℕ) (cl : Huffman) (index : ℕ) (lengths : List ℕ) (reader : BitReader)
    → IsReader reader
    → size reader < fuel
    → Ends (ListRead reader) (read_lengths fuel cl index lengths reader)
unfolding read_lengths
read_lengths-Ends zero cl index lengths reader h enough = absurd (omega arith)
read_lengths-Ends (suc fuel) cl index lengths reader h enough =
    let P = ListRead reader in
    Ends-if P (ltb index (length lengths)) _ _
      (λ more.
        Ends-bind (Read 1 reader) P (decode cl reader) _ (decode-Ends cl reader h)
          (λ (symbol, reader') later.
            Ends-bind (TripleRead reader') P (read_length symbol index lengths reader') _
              (read_length-Ends symbol index lengths reader' later.0)
              (λ (index', lengths', reader'') k.
                Ends-weaken (ListRead reader'') P (read_lengths fuel cl index' lengths' reader'')
                  (λ x l. (l.0, omega (arith, l.1, k.1, later.1)))
                  (read_lengths-Ends fuel cl index' lengths' reader'' k.0
                    (omega (arith, k.1, later.1))))))
      (λ done. (h, omega arith))

pub read_dynamic_tables-Ends :
    (fuel : ℕ) (reader : BitReader)
    → IsReader reader
    → size reader < fuel
    → Ends (TripleRead reader) (read_dynamic_tables fuel reader)
unfolding read_dynamic_tables
read_dynamic_tables-Ends fuel reader0 h enough =
    let P = TripleRead {A = Huffman} {B = Huffman} reader0 in
    Ends-bind (Read 5 reader0) P (bits 5 reader0) _ (bits-Ends 5 reader0 h (omega arith))
      (λ (lit_count, reader1) later1.
        Ends-bind (Read 5 reader1) P (bits 5 reader1) _ (bits-Ends 5 reader1 later1.0 (omega arith))
          (λ (dist_count, reader2) later2.
            Ends-bind (Read 4 reader2) P (bits 4 reader2) _
              (bits-Ends 4 reader2 later2.0 (omega arith))
              (λ (cl_count, reader3) later3.
                Ends-bind (ListRead reader3) P
                  (read_cl_lengths (take (cl_count + 4) cl_order) (replicate 19 0) reader3) _
                  (read_cl_lengths-Ends (take (cl_count + 4) cl_order) (replicate 19 0) reader3
                    later3.0)
                  (λ (cl_lengths, reader4) later4.
                    Ends-bind Any P (build cl_lengths) _ (build-Ends cl_lengths) (λ cl u.
                      Ends-bind (ListRead reader4) P
                        (read_lengths fuel cl 0 (replicate (lit_count + 257 + (dist_count + 1)) 0)
                          reader4)
                        _
                        (read_lengths-Ends fuel cl 0
                          (replicate (lit_count + 257 + (dist_count + 1)) 0) reader4 later4.0
                          (omega (arith, later1.1, later2.1, later3.1, later4.1)))
                        (λ (lengths, reader5) later5.
                          Ends-bind Any P (index_of lengths 256) _ (Ends-index_any lengths 256)
                            (λ end_length v.
                              Ends-fail_if P (end_length == 0) ArchiveError.no_end_code _ refl
                                (λ ends.
                                  Ends-bind Any P (build (take (lit_count + 257) lengths)) _
                                    (build-Ends (take (lit_count + 257) lengths))
                                    (λ lit w.
                                      Ends-bind Any P (build (drop (lit_count + 257) lengths)) _
                                        (build-Ends (drop (lit_count + 257) lengths))
                                        (λ dist x. (
                                          later5.0,
                                          omega (
                                            arith, later1.1, later2.1, later3.1, later4.1, later5.1,
                                          ),
                                        )))))))))))
