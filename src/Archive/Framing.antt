-- ===== src/Archive/Framing.antt =====
-- The gzip frame of backend/src/archive.rs: header and trailer around the blocks.
use dbx_plugin_files.Prelude.{
  ℕ, ◌+◌, ◌-◌, ◌%◌, ◌^◌, ◌≤◌, ◌<◌, ◌≡◌, refl, ◌∙◌, true, false, List, [], ◌∷◌, ◌++◌, arith, All,
  length, take, drop, ltb, leb, take-append, drop-append, length-append, ok, err, ◌>>=◌, ==_refl,
}
use dbx_plugin_files.Archive.Paths.{ArchiveError}
use dbx_plugin_files.Archive.Reading.{IsByte}
use dbx_plugin_files.Archive.Inflate.{inflate}
use dbx_plugin_files.Archive.Chunks.{drop-add}
use dbx_plugin_files.Archive.RoundTrip.{inflate-deflate_stored_blocks, some_blocks}
use dbx_plugin_files.Archive.Unfinished.{inflate_unfinished, some_unfinished}
use dbx_plugin_files.Archive.Gzip.{
  deflate_stored_blocks, gzip_stored_wrap, gunzip, verified, crc32, crc32_update, complement,
  gzip_trailer, gzip_header, le32, from_le32,
}

from_le32-le32 : (value : ℕ) → value < 2 ^ 32 → from_le32 (le32 value) ≡ value
from_le32-le32 value h = omega arith

-- The trailer of a text passes the reader's checks.
verified-gzip_trailer :
    (raw : List ℕ)
    → verified (gzip_trailer (complement (crc32_update 0xffffffff raw)) (length raw)) raw ≡ ok raw
unfolding verified gzip_trailer crc32
verified-gzip_trailer raw =
    let crc = complement (crc32_update 0xffffffff raw) in
    let total = length raw % 2 ^ 32 in
    rw
      (
        from_le32-le32 crc (omega arith),
        from_le32-le32 total (omega arith),
        ==_refl crc,
        ==_refl total,
      )
      refl

module _ (blocks trailer : List ℕ) (some_blocks : 0 < length blocks)
    (eight : length trailer ≡ 8) where
  framed_length : length (gzip_header ++ (blocks ++ trailer)) ≡ length blocks + 18
  framed_length = omega (arith, length-append blocks trailer)

  framed_trailer :
      drop (length (gzip_header ++ (blocks ++ trailer)) - 8) (gzip_header ++ (blocks ++ trailer))
      ≡ trailer
  framed_trailer =
      let e : length (gzip_header ++ (blocks ++ trailer)) - 8 ≡ 10 + length blocks =
        omega (arith, framed_length) in
      rw e (
        drop-add 10 (length blocks) (gzip_header ++ (blocks ++ trailer))
        ∙ drop-append blocks trailer)

  framed_blocks :
      take (length (gzip_header ++ (blocks ++ trailer)) - 8 - 10) (blocks ++ trailer) ≡ blocks
  framed_blocks =
      let e : length (gzip_header ++ (blocks ++ trailer)) - 8 - 10 ≡ length blocks =
        omega (arith, framed_length) in
      rw e (take-append blocks trailer)

  -- Between the writer's header and a trailer, the reader decodes the blocks.
  gunzip_framed :
      (max_out : ℕ)
      → gunzip (gzip_header ++ (blocks ++ trailer)) max_out
        ≡ (inflate blocks max_out >>= verified trailer)
  unfolding gunzip
  gunzip_framed max_out =
      let long : ltb (length (gzip_header ++ (blocks ++ trailer))) 18 ≡ false =
        ground (arith, framed_length) in
      let room : leb (length (gzip_header ++ (blocks ++ trailer))) 18 ≡ false =
        ground (arith, framed_length) in
      rw (gunzip, long, room, framed_blocks, framed_trailer) refl

wrapped :
    (raw : List ℕ)
    → gzip_stored_wrap raw
      ≡ gzip_header
        ++ (deflate_stored_blocks raw true
            ++ gzip_trailer (complement (crc32_update 0xffffffff raw)) (length raw))
unfolding gzip_stored_wrap
wrapped raw = refl

trailer_length : (crc total : ℕ) → length (gzip_trailer crc total) ≡ 8
unfolding gzip_trailer
trailer_length crc total = refl

-- Any bytes but none at all, wrapped as gzip, are read back unchanged under every guard that they fit.
pub gunzip-gzip_stored_wrap :
    (byte : ℕ) (rest : List ℕ) (max_out : ℕ)
    → All IsByte (byte ∷ rest)
    → length (byte ∷ rest) ≤ max_out
    → gunzip (gzip_stored_wrap (byte ∷ rest)) max_out ≡ ok (byte ∷ rest)
gunzip-gzip_stored_wrap byte rest max_out octets fits =
    let raw = byte ∷ rest in
    let crc = complement (crc32_update 0xffffffff raw) in
    rw
      (
        wrapped raw,
        gunzip_framed (deflate_stored_blocks raw true) (gzip_trailer crc (length raw))
            (some_blocks byte rest) (trailer_length crc (length raw)) max_out,
        inflate-deflate_stored_blocks byte rest max_out octets fits,
      )
      (verified-gzip_trailer raw)

-- A gzip stream whose blocks were written as they came and finished with the block for no bytes, as the
-- writer's doc advises, is never read back: the reader reports a stream that ends early, whatever the
-- bytes, none included, and whatever the checksum in the trailer, if the bytes fit the guard.
pub gunzip_unfinished :
    (raw : List ℕ) (crc max_out : ℕ)
    → All IsByte raw
    → length raw ≤ max_out
    → gunzip
        (gzip_header
          ++ ((deflate_stored_blocks raw false ++ deflate_stored_blocks [] true)
              ++ gzip_trailer crc (length raw)))
        max_out
      ≡ err ArchiveError.end_of_stream
gunzip_unfinished raw crc max_out octets fits =
    let blocks = deflate_stored_blocks raw false ++ deflate_stored_blocks [] true in
    rw
      (
        gunzip_framed blocks (gzip_trailer crc (length raw)) (some_unfinished raw)
            (trailer_length crc (length raw)) max_out,
        inflate_unfinished raw max_out octets fits,
      )
      refl
