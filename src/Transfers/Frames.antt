-- ===== src/Transfers/Frames.antt =====
-- The binary frames of backend/src/transfers.rs: an offset in 8 bytes and a bounded payload.
use dbx_plugin_files.Prelude.{
  ℕ, zero, suc, ◌+◌, ◌*◌, ◌/◌, ◌%◌, List, [], ◌∷◌, ◌++◌, length, take, drop, ltb, if◌then◌else◌,
  Result, ok, err,
}

-- `TRANSFER_CHUNK_SIZE`: 256 KiB.
abbrev pub transfer_chunk_size : ℕ
transfer_chunk_size = 256 * 1024

pub data FrameError : Type 0 where
  missing_offset : FrameError
  -- With the payload's length.
  oversized : ℕ → FrameError

-- `to_be_bytes` of a number in so many bytes, and `from_be_bytes`.
unfoldable pub to_be_bytes : ℕ → ℕ → List ℕ
to_be_bytes zero n = []
to_be_bytes (suc k) n = to_be_bytes k (n / 256) ++ ((n % 256) ∷ [])

unfoldable pub from_be_bytes : ℕ → List ℕ → ℕ
from_be_bytes acc [] = acc
from_be_bytes acc (byte ∷ bytes) = from_be_bytes (acc * 256 + byte) bytes

unfoldable pub parse_upload_frame : List ℕ → Result FrameError (ℕ × List ℕ)
unfolding from_be_bytes
parse_upload_frame bytes =
    if ltb (length bytes) 8
    then err FrameError.missing_offset
    else let payload = drop 8 bytes in
      if ltb transfer_chunk_size (length payload)
      then err (FrameError.oversized (length payload))
      else ok (from_be_bytes 0 (take 8 bytes), payload)

unfoldable pub frame : ℕ → List ℕ → List ℕ
unfolding to_be_bytes
frame offset payload = to_be_bytes 8 offset ++ payload
