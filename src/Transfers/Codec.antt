-- ===== src/Transfers/Codec.antt =====
-- The frames of backend/src/transfers.rs decode to what was encoded, and only to that.
use dbx_plugin_files.Prelude.{
  ℕ, zero, suc, ◌+◌, ◌*◌, ◌/◌, ◌%◌, ◌^◌, ◌≤◌, ◌<◌, ◌≡◌, refl, ap, subst, ◌∙◌, List, [], ◌∷◌, ◌++◌,
  arith, length, take, drop, ltb, ok, length-append, take-append, drop-append, false,
}
use dbx_plugin_files.Transfers.Frames.{
  transfer_chunk_size, to_be_bytes, from_be_bytes, parse_upload_frame, frame,
}

length-to_be_bytes : (k n : ℕ) → length (to_be_bytes k n) ≡ k
unfolding to_be_bytes
length-to_be_bytes zero n = refl
length-to_be_bytes (suc k) n = omega (
  arith,
  length-append (to_be_bytes k (n / 256)) ((n % 256) ∷ []),
  length-to_be_bytes k (n / 256),
)

from_be_bytes-append :
    (acc byte : ℕ) (bytes : List ℕ)
    → from_be_bytes acc (bytes ++ (byte ∷ [])) ≡ from_be_bytes acc bytes * 256 + byte
unfolding from_be_bytes
from_be_bytes-append acc byte [] = refl
from_be_bytes-append acc byte (first ∷ bytes) = from_be_bytes-append (acc * 256 + first) byte bytes

from_be_bytes-to_be_bytes : (k n : ℕ) → n < 256 ^ k → from_be_bytes 0 (to_be_bytes k n) ≡ n
unfolding to_be_bytes from_be_bytes
from_be_bytes-to_be_bytes zero n h = omega (arith, h)
from_be_bytes-to_be_bytes (suc k) n h =
    from_be_bytes-append 0 (n % 256) (to_be_bytes k (n / 256))
    ∙ (let high = from_be_bytes-to_be_bytes k (n / 256) (omega (arith, h)) in omega (arith, high))

parse_prefixed :
    (prefix payload : List ℕ)
    → length prefix ≡ 8
    → length payload ≤ transfer_chunk_size
    → parse_upload_frame (prefix ++ payload) ≡ ok (from_be_bytes 0 prefix, payload)
unfolding parse_upload_frame
parse_prefixed prefix payload eight fits =
    let long : ltb (length (prefix ++ payload)) 8 ≡ false =
      ground (arith, length-append prefix payload) in
    let rest : drop 8 (prefix ++ payload) ≡ payload =
      subst (λ k. drop k (prefix ++ payload) ≡ payload) eight (drop-append prefix payload) in
    let front : take 8 (prefix ++ payload) ≡ prefix =
      subst (λ k. take k (prefix ++ payload) ≡ prefix) eight (take-append prefix payload) in
    let small : ltb transfer_chunk_size (length payload) ≡ false = ground arith in
    rw (parse_upload_frame, long, rest, small, front) refl

-- A frame decodes to the offset and the payload that it was encoded from.
pub parse_upload_frame-frame :
    (offset : ℕ) (payload : List ℕ)
    → offset < 2 ^ 64
    → length payload ≤ 256 * 1024
    → parse_upload_frame (frame offset payload) ≡ ok (offset, payload)
unfolding frame
parse_upload_frame-frame offset payload small fits =
    parse_prefixed (to_be_bytes 8 offset) payload (length-to_be_bytes 8 offset) fits
    ∙ ap (λ n. ok (n, payload)) (from_be_bytes-to_be_bytes 8 offset small)
