-- ===== src/Archive/Guard.antt =====
-- The decoder of backend/src/archive.rs ends on every input and stays within the bomb guard.
use dbx_plugin_files.Prelude.{
  ℕ, zero, suc, ◌+◌, ◌-◌, ◌≤◌, ◌<◌, ◌≡◌, refl, ◌==◌, List, [], ◌∷◌, ◌++◌, arith, length, ltb, leb,
  length-append,
}
use dbx_plugin_files.Archive.Paths.{ArchiveError}
use dbx_plugin_files.Archive.Reader.{BitReader, bits, align_to_byte, copy_bytes}
use dbx_plugin_files.Archive.Reading.{size, IsReader}
use dbx_plugin_files.Archive.Huffman.{Huffman, index_of, decode}
use dbx_plugin_files.Archive.Inflate.{
  length_base, length_extra, dist_base, dist_extra, copy_match, read_match, decode_block,
  stored_block,
}
use dbx_plugin_files.Archive.Ends.{
  Ends, Ends-bind, Ends-weaken, Ends-if, Ends-fail_if, Ends-index_of, Ends-index_any, Fits,
  bits-Ends, align_to_byte-Later, copy_bytes-Ends,
}
use dbx_plugin_files.Archive.Tables.{Any, Read, decode-Ends}

copy_match-Ends :
    (count at : ℕ) (out : List ℕ)
    → Ends (λ (out' : List ℕ). length out' ≡ length out + count) (copy_match count at out)
unfolding copy_match
copy_match-Ends zero at out = omega arith
copy_match-Ends (suc count) at out =
    Ends-bind Any _ (index_of out at) _ (Ends-index_any out at) (λ byte u.
      Ends-weaken _ _ (copy_match count (at + 1) (out ++ (byte ∷ [])))
        (λ out' h. omega (arith, h, length-append out (byte ∷ [])))
        (copy_match-Ends count (at + 1) (out ++ (byte ∷ []))))

read_match-Ends :
    (dist : Huffman) (max_out symbol : ℕ) (out : List ℕ) (reader : BitReader)
    → IsReader reader
    → Ends (Fits max_out reader) (read_match dist max_out symbol out reader)
unfolding read_match
read_match-Ends dist max_out symbol out reader0 h =
    Ends-bind Any (Fits max_out reader0) (index_of length_base (symbol - 257)) _
      (Ends-index_any length_base (symbol - 257))
      (λ base u.
        Ends-bind (λ n. n ≤ 32) (Fits max_out reader0) (index_of length_extra (symbol - 257)) _
          (Ends-index_of (λ n. n ≤ 32) length_extra (symbol - 257) (omega arith))
          (λ extra small.
            Ends-bind (Read extra reader0) (Fits max_out reader0) (bits extra reader0) _
              (bits-Ends extra reader0 h small)
              (λ (more, reader1) later1.
                Ends-bind (Read 1 reader1) (Fits max_out reader0) (decode dist reader1) _
                  (decode-Ends dist reader1 later1.0)
                  (λ (dist_symbol, reader2) later2.
                    Ends-fail_if (Fits max_out reader0) (leb 30 dist_symbol)
                      ArchiveError.bad_distance _ refl
                      (λ known.
                        Ends-bind Any (Fits max_out reader0) (index_of dist_base dist_symbol) _
                          (Ends-index_any dist_base dist_symbol)
                          (λ far v.
                            Ends-bind (λ n. n ≤ 32) (Fits max_out reader0)
                              (index_of dist_extra dist_symbol) _
                              (Ends-index_of (λ n. n ≤ 32) dist_extra dist_symbol (omega arith))
                              (λ far_extra narrow.
                                Ends-bind (Read far_extra reader2) (Fits max_out reader0)
                                  (bits far_extra reader2) _
                                  (bits-Ends far_extra reader2 later2.0 narrow)
                                  (λ (farther, reader3) later3.
                                    Ends-fail_if (Fits max_out reader0)
                                      (ltb (length out) (far + farther)) ArchiveError.bad_distance _
                                      refl
                                      (λ near.
                                        Ends-fail_if (Fits max_out reader0)
                                          (ltb max_out (length out + (base + more)))
                                          ArchiveError.over_budget _ refl
                                          (λ fits.
                                            Ends-bind
                                              (λ (out' : List ℕ).
                                                length out' ≡ length out + (base + more))
                                              (Fits max_out reader0)
                                              (copy_match (base + more)
                                                (length out - (far + farther)) out)
                                              _
                                              (copy_match-Ends (base + more)
                                                (length out - (far + farther)) out)
                                              (λ out' grown. (
                                                ground (arith, grown),
                                                (
                                                  later3.0,
                                                  omega (arith, later1.1, later2.1, later3.1),
                                                ),
                                              ))))))))))))

pub decode_block-Ends :
    (fuel : ℕ) (lit dist : Huffman) (max_out : ℕ) (out : List ℕ) (reader : BitReader)
    → IsReader reader
    → length out ≤ max_out
    → size reader < fuel
    → Ends (Fits max_out reader) (decode_block fuel lit dist max_out out reader)
unfolding decode_block
decode_block-Ends zero lit dist max_out out reader h fits enough = absurd (omega arith)
decode_block-Ends (suc fuel) lit dist max_out out reader h fits enough =
    let P = Fits max_out reader in
    Ends-bind (Read 1 reader) P (decode lit reader) _ (decode-Ends lit reader h)
      (λ (symbol, reader') later.
        Ends-if P (ltb symbol 256) _ _
          (λ literal.
            Ends-if P (leb max_out (length out)) _ _ (λ over. refl)
              (λ room.
                Ends-weaken (Fits max_out reader') P
                  (decode_block fuel lit dist max_out (out ++ (symbol ∷ [])) reader')
                  (λ x k. (k.0, (k.1.0, omega (arith, k.1.1, later.1))))
                  (decode_block-Ends fuel lit dist max_out (out ++ (symbol ∷ [])) reader' later.0
                    (ground (arith, length-append out (symbol ∷ []))) (omega (arith, later.1)))))
          (λ other.
            Ends-if P (symbol == 256) _ _ (λ end. (fits, (later.0, omega (arith, later.1))))
              (λ match.
                Ends-if P (leb symbol 285) _ _
                  (λ known.
                    Ends-bind (Fits max_out reader') P (read_match dist max_out symbol out reader')
                      _ (read_match-Ends dist max_out symbol out reader' later.0)
                      (λ (out', reader'') k.
                        Ends-weaken (Fits max_out reader'') P
                          (decode_block fuel lit dist max_out out' reader'')
                          (λ x l. (l.0, (l.1.0, omega (arith, l.1.1, k.1.1, later.1))))
                          (decode_block-Ends fuel lit dist max_out out' reader'' k.1.0 k.0
                            (omega (arith, k.1.1, later.1)))))
                  (λ unknown. refl))))

pub stored_block-Ends :
    (max_out : ℕ) (out : List ℕ) (reader : BitReader)
    → IsReader reader
    → Ends (Fits max_out reader) (stored_block max_out out reader)
unfolding stored_block
stored_block-Ends max_out out reader h =
    let P = Fits max_out reader in
    let aligned = align_to_byte-Later reader h in
    Ends-bind (Read 16 (align_to_byte reader)) P (bits 16 (align_to_byte reader)) _
      (bits-Ends 16 (align_to_byte reader) aligned.0 (omega arith))
      (λ (len, reader1) later1.
        Ends-bind (Read 16 reader1) P (bits 16 reader1) _
          (bits-Ends 16 reader1 later1.0 (omega arith))
          (λ (nlen, reader2) later2.
            Ends-if P (len == 0xffff - nlen) _ _
              (λ same.
                Ends-weaken (Fits max_out reader2) P (copy_bytes len max_out out reader2)
                  (λ x k. (k.0, (k.1.0, omega (arith, k.1.1, later1.1, later2.1, aligned.1))))
                  (copy_bytes-Ends len max_out out reader2 later2.0))
              (λ differs. refl)))
