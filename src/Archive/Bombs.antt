-- ===== src/Archive/Bombs.antt =====
-- `inflate` of backend/src/archive.rs ends on every input and stays within the bomb guard.
use dbx_plugin_files.Prelude.{
  ℕ, zero, suc, ◌*◌, ◌≤◌, ◌<◌, ◌≡◌, ◌≢◌, ◌⊎◌, refl, ◌==◌, List, [], arith, All, length, ok, err,
}
use dbx_plugin_files.Archive.Paths.{ArchiveError}
use dbx_plugin_files.Archive.Reader.{BitReader, new, bits}
use dbx_plugin_files.Archive.Reading.{size, IsReader, IsByte}
use dbx_plugin_files.Archive.Huffman.{build}
use dbx_plugin_files.Archive.Inflate.{
  fixed_lengths, fixed_tables, decode_block, read_dynamic_tables, read_block, inflate_from, inflate,
}
use dbx_plugin_files.Archive.Ends.{
  Ends, Ends-bind, Ends-weaken, Ends-if, Fits, bits-Ends, Ends-cases,
}
use dbx_plugin_files.Archive.Tables.{Any, Read, build-Ends}
use dbx_plugin_files.Archive.Dynamic.{TripleRead, read_dynamic_tables-Ends}
use dbx_plugin_files.Archive.Guard.{stored_block-Ends, decode_block-Ends}

fixed_tables-Ends : Ends Any fixed_tables
unfolding fixed_tables
fixed_tables-Ends =
    Ends-bind Any Any (build fixed_lengths) _ (build-Ends fixed_lengths)
      (λ lit u. Ends-bind Any Any (build _) _ (build-Ends _) (λ dist v. tt))

read_block-Ends :
    (fuel btype max_out : ℕ) (out : List ℕ) (reader : BitReader)
    → IsReader reader
    → length out ≤ max_out
    → size reader < fuel
    → Ends (Fits max_out reader) (read_block fuel btype max_out out reader)
unfolding read_block
read_block-Ends fuel btype max_out out reader h fits enough =
    let P = Fits max_out reader in
    Ends-if P (btype == 0) _ _ (λ stored. stored_block-Ends max_out out reader h)
      (λ coded.
        Ends-if P (btype == 1) _ _
          (λ fixed.
            Ends-bind Any P fixed_tables _ fixed_tables-Ends
              (λ (lit, dist) u. decode_block-Ends fuel lit dist max_out out reader h fits enough))
          (λ not1.
            Ends-if P (btype == 2) _ _
              (λ dynamic.
                Ends-bind (TripleRead reader) P (read_dynamic_tables fuel reader) _
                  (read_dynamic_tables-Ends fuel reader h enough)
                  (λ (lit, dist, reader') later.
                    Ends-weaken (Fits max_out reader') P
                      (decode_block fuel lit dist max_out out reader')
                      (λ x k. (k.0, (k.1.0, omega (arith, k.1.1, later.1))))
                      (decode_block-Ends fuel lit dist max_out out reader' later.0 fits
                        (omega (arith, later.1)))))
              (λ reserved. refl)))

inflate_from-Ends :
    (fuel rounds max_out : ℕ) (out : List ℕ) (reader : BitReader)
    → IsReader reader
    → length out ≤ max_out
    → size reader < fuel
    → size reader < rounds
    → Ends (λ (out' : List ℕ). length out' ≤ max_out) (inflate_from fuel rounds max_out out reader)
unfolding inflate_from
inflate_from-Ends zero rounds max_out out reader h fits enough each = absurd (omega arith)
inflate_from-Ends (suc fuel) rounds max_out out reader h fits enough each =
    let P = λ (out' : List ℕ). length out' ≤ max_out in
    Ends-bind (Read 1 reader) P (bits 1 reader) _ (bits-Ends 1 reader h (omega arith))
      (λ (bfinal, reader1) later1.
        Ends-bind (Read 2 reader1) P (bits 2 reader1) _ (bits-Ends 2 reader1 later1.0 (omega arith))
          (λ (btype, reader2) later2.
            Ends-bind (Fits max_out reader2) P (read_block rounds btype max_out out reader2) _
              (read_block-Ends rounds btype max_out out reader2 later2.0 fits
                (omega (arith, later1.1, later2.1)))
              (λ (out', reader3) k.
                Ends-if P (bfinal == 1) _ _ (λ last. k.0)
                  (λ more.
                    inflate_from-Ends fuel rounds max_out out' reader3 k.1.0 k.0
                      (omega (arith, later1.1, later2.1, k.1.1))
                      (omega (arith, later1.1, later2.1, k.1.1))))))

pub new-IsReader : (src : List ℕ) → All IsByte src → IsReader (new src)
unfolding new
new-IsReader src octets = record {
  fits = omega arith;
  short = omega arith;
  inside = omega arith;
  backed = omega arith;
  octets = octets;
}

pub inflate-Ends :
    (src : List ℕ) (max_out : ℕ)
    → All IsByte src
    → Ends (λ (out : List ℕ). length out ≤ max_out) (inflate src max_out)
unfolding inflate
inflate-Ends src max_out octets =
    inflate_from-Ends (suc (8 * length src)) (suc (8 * length src)) max_out [] (new src)
      (new-IsReader src octets) (omega arith) (unfold new in omega arith)
      (unfold new in omega arith)

-- The decoder is total and guarded: on every byte string it ends within its fuel, and what it decodes
-- is no longer than the guard allows, whatever blocks and tables the input has.
pub inflate-guarded :
    (src : List ℕ) (max_out : ℕ)
    → All IsByte src
    → ((fault : ArchiveError) × (inflate src max_out ≡ err fault) × (fault ≢ ArchiveError.diverged))
      ⊎ ((out : List ℕ) × (inflate src max_out ≡ ok out) × (length out ≤ max_out))
inflate-guarded src max_out octets =
    Ends-cases (λ (out : List ℕ). length out ≤ max_out) (inflate src max_out)
      (inflate-Ends src max_out octets)
