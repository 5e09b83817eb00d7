-- ===== src/Transfers/Streaming.antt =====
-- The download pump of backend/src/rclone/bytes_channel.rs hands on the response cut at the chunk
-- size, however the network cut it.
use dbx_plugin_files.Prelude.{
  ℕ, zero, suc, ◌+◌, ◌≤◌, ◌<◌, ◌≡◌, refl, sym, ap, ◌∙◌, inl, inr, true, false, List, [], ◌∷◌, ◌++◌,
  map, arith, length, take, drop, leb, length-append, length-drop, append-nil, append_assoc, Result,
  ok, err, Result-cases, ◌>>=◌, Bool-cases, leb→le,
}
use dbx_plugin_files.Transfers.Frames.{transfer_chunk_size}
use dbx_plugin_files.Transfers.Pump.{drain_full, pump, download_pump}
use dbx_plugin_files.Transfers.Delivery.{concat}
use dbx_plugin_files.Transfers.Slices.{slices, cut, slices_full, slices_short}

module _ {Sink Fault : Type 0} (on_chunk : Sink → List ℕ → Result Fault Sink) where
  -- The receiver's steps on one slice after the other.
  unfoldable pub feed : Sink → List (List ℕ) → Result Fault Sink
  feed sink [] = ok sink
  feed sink (piece ∷ pieces) = on_chunk sink piece >>= λ next. feed next pieces

  feed-drain_full :
      (rounds : ℕ) (sink : Sink) (buffer rest : List ℕ)
      → feed sink (slices (buffer ++ rest))
        ≡ (drain_full on_chunk rounds sink buffer >>= λ left. feed left.0 (slices (left.1 ++ rest)))
  unfolding drain_full feed
  feed-drain_full zero sink buffer rest = refl
  feed-drain_full (suc rounds) sink buffer rest =
      elim (Bool-cases (leb transfer_chunk_size (length buffer))) [
        | inr short ↦ rw short refl
        | inl full ↦
            let piece = take transfer_chunk_size buffer in
            let left = drop transfer_chunk_size buffer in
            rw (full, slices_full buffer rest (leb→le transfer_chunk_size (length buffer) full))
              (elim (Result-cases (on_chunk sink piece)) [
                | inl (fault, refused) ↦ rw (feed, refused) refl
                | inr (next, taken) ↦ rw (feed, taken) (feed-drain_full rounds next left rest)
              ])
      ]

  drained :
      (rounds : ℕ) (sink : Sink) (buffer : List ℕ)
      → leb transfer_chunk_size (length buffer) ≡ false
      → drain_full on_chunk (suc rounds) sink buffer ≡ ok (sink, buffer)
  unfolding drain_full
  drained rounds sink buffer short = rw short refl

  drain_step :
      (rounds : ℕ) (sink : Sink) (buffer : List ℕ) (answer : Result Fault Sink)
      → leb transfer_chunk_size (length buffer) ≡ true
      → on_chunk sink (take transfer_chunk_size buffer) ≡ answer
      → drain_full on_chunk (suc rounds) sink buffer
        ≡ (answer >>= λ next. drain_full on_chunk rounds next (drop transfer_chunk_size buffer))
  unfolding drain_full
  drain_step rounds sink buffer answer full e = rw (full, e) refl

  abbrev paired : Sink → List ℕ → Result Fault (Sink × List ℕ)
  paired sink buffer = ok (sink, buffer)

  drained_zero :
      (sink : Sink) (buffer : List ℕ) → ok (sink, buffer) ≡ drain_full on_chunk zero sink buffer
  unfolding drain_full
  drained_zero sink buffer = refl

  same_left :
      (sink next : Sink) (buffer left : List ℕ)
      → length buffer < transfer_chunk_size
      → paired sink buffer ≡ paired next left
      → length left < transfer_chunk_size
  same_left sink next buffer left h e =
      let same : buffer ≡ left = cc in omega (arith, h, ap length same)

  -- The inner loop ends with less than a full buffer.
  drain_full-short :
      (rounds : ℕ) (sink next : Sink) (buffer left : List ℕ)
      → length buffer ≤ rounds
      → drain_full on_chunk rounds sink buffer ≡ ok (next, left)
      → length left < transfer_chunk_size
  drain_full-short zero sink next buffer left h e =
      same_left sink next buffer left (omega (arith, h)) (drained_zero sink buffer ∙ e)
  drain_full-short (suc rounds) sink next buffer left h e =
      elim (Bool-cases (leb transfer_chunk_size (length buffer))) [
        | inr short ↦
            same_left sink next buffer left (ground arith)
              (sym (drained rounds sink buffer short) ∙ e)
        | inl full ↦ (elim (Result-cases (on_chunk sink (take transfer_chunk_size buffer))) [
          | inl (fault, refused) ↦
              let never = sym (drain_step rounds sink buffer (err fault) full refused) ∙ e in
              absurd (cc)
          | inr (after, taken) ↦
              drain_full-short rounds after next (drop transfer_chunk_size buffer) left
                (omega (
                  arith,
                  h,
                  leb→le transfer_chunk_size (length buffer) full,
                  length-drop transfer_chunk_size buffer,
                ))
                (sym (drain_step rounds sink buffer (ok after) full taken) ∙ e)
        ])
      ]

  feed_nothing : (sink : Sink) → feed sink (slices []) ≡ ok sink
  unfolding feed slices cut
  feed_nothing sink = refl

  bind_ok : {A : Type 0} (m : Result Fault A) → (m >>= λ a. ok a) ≡ m
  bind_ok (ok a) = refl
  bind_ok (err fault) = refl

  feed_short :
      (sink : Sink) (byte : ℕ) (bytes : List ℕ)
      → length (byte ∷ bytes) ≤ transfer_chunk_size
      → feed sink (slices (byte ∷ bytes)) ≡ on_chunk sink (byte ∷ bytes)
  unfolding feed
  feed_short sink byte bytes h =
      rw (slices_short byte bytes h) (bind_ok (on_chunk sink (byte ∷ bytes)))

  pump-feed :
      (chunks : List (List ℕ)) (sink : Sink) (buffer : List ℕ) (total : ℕ)
      → length buffer < transfer_chunk_size
      → pump on_chunk (map ok chunks) sink buffer total ≡ (
          feed sink (slices (buffer ++ concat chunks)) >>= λ last.
          ok (last, total + length (concat chunks)))
  unfolding pump
  pump-feed [] sink [] total h = rw (feed_nothing sink) (ap (λ n. ok (sink, n)) (omega arith))
  pump-feed [] sink (byte ∷ buffer) total h =
      rw (append-nil buffer, feed_short sink byte buffer (omega (arith, h)))
        (ap (λ n. on_chunk sink (byte ∷ buffer) >>= λ next. ok (next, n)) (omega arith))
  pump-feed (chunk ∷ chunks) sink buffer total h =
      let held = buffer ++ chunk in
      rw
        (
          sym (append_assoc buffer chunk (concat chunks)),
          feed-drain_full (length held) sink held (concat chunks),
        )
        (elim (Result-cases (drain_full on_chunk (length held) sink held)) [
          | inl (fault, refused) ↦ rw refused refl
          | inr ((next, left), taken) ↦
              rw (taken, length-append chunk (concat chunks))
                (pump-feed chunks next left (total + length chunk)
                    (drain_full-short (length held) sink next held left (omega arith) taken)
                  ∙ ap (λ n. feed next (slices (left ++ concat chunks)) >>= λ last. ok (last, n))
                      (omega arith))
        ])

  -- Whatever the network's chunks, the receiver is given the bytes of the response cut at the chunk
  -- size, one slice after the other until one is refused, and the answer counts all of them.
  pub download_pump-feed :
      (chunks : List (List ℕ)) (sink : Sink)
      → download_pump on_chunk (map ok chunks) sink
        ≡ (feed sink (slices (concat chunks)) >>= λ last. ok (last, length (concat chunks)))
  unfolding download_pump
  download_pump-feed chunks sink =
      pump-feed chunks sink [] 0 (omega arith)
      ∙ ap (λ n. feed sink (slices (concat chunks)) >>= λ last. ok (last, n)) (omega arith)
