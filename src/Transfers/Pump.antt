-- ===== src/Transfers/Pump.antt =====
-- `download_pump` of backend/src/rclone/bytes_channel.rs: network chunks cut into bounded slices.
use dbx_plugin_files.Prelude.{
  ℕ, zero, suc, ◌+◌, List, [], ◌∷◌, ◌++◌, length, take, drop, leb, if◌then◌else◌, Result, ok, err,
  ◌>>=◌,
}
use dbx_plugin_files.Transfers.Frames.{transfer_chunk_size}

-- `on_chunk` is a step on the receiver's state; an `err` of the stream is a failed read.
module _ {Sink Fault : Type 0} (on_chunk : Sink → List ℕ → Result Fault Sink) where
  -- The inner loop; the first argument is the rounds left, at most one for each byte.
  unfoldable pub drain_full : ℕ → Sink → List ℕ → Result Fault (Sink × List ℕ)
  drain_full zero sink buffer = ok (sink, buffer)
  drain_full (suc rounds) sink buffer =
      if leb transfer_chunk_size (length buffer)
      then (on_chunk sink (take transfer_chunk_size buffer) >>= λ next.
          drain_full rounds next (drop transfer_chunk_size buffer))
      else ok (sink, buffer)

  -- The outer loop over the chunks of the response, with the count of bytes so far.
  unfoldable pub pump : List (Result Fault (List ℕ)) → Sink → List ℕ → ℕ → Result Fault (Sink × ℕ)
  pump [] sink [] total = ok (sink, total)
  pump [] sink (byte ∷ buffer) total = on_chunk sink (byte ∷ buffer) >>= λ next. ok (next, total)
  pump (err fault ∷ stream) sink buffer total = err fault
  pump (ok chunk ∷ stream) sink buffer total =
      drain_full (length (buffer ++ chunk)) sink (buffer ++ chunk) >>= λ left.
      pump stream left.0 left.1 (total + length chunk)

  unfoldable pub download_pump : List (Result Fault (List ℕ)) → Sink → Result Fault (Sink × ℕ)
  download_pump stream sink = pump stream sink [] 0
