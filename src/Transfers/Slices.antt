-- ===== src/Transfers/Slices.antt =====
-- Bytes cut at the chunk size of backend/src/rclone/bytes_channel.rs.
use dbx_plugin_files.Prelude.{
  ℕ, zero, suc, ◌≤◌, ◌≡◌, refl, ap, ◌∙◌, List, [], ◌∷◌, ◌++◌, arith, length, take, drop,
  length-drop, All, length-take, take-append-drop,
}
use dbx_plugin_files.Transfers.Frames.{transfer_chunk_size}
use dbx_plugin_files.Transfers.Sequence.{take_all, drop_all}
use dbx_plugin_files.Transfers.Delivery.{concat}

-- The bytes cut into pieces of the chunk size, the last one shorter.
unfoldable pub cut : ℕ → List ℕ → List (List ℕ)
cut zero bytes = []
cut (suc rounds) [] = []
cut (suc rounds) (byte ∷ bytes) =
    take transfer_chunk_size (byte ∷ bytes) ∷ cut rounds (drop transfer_chunk_size (byte ∷ bytes))

unfoldable pub slices : List ℕ → List (List ℕ)
unfolding cut
slices bytes = cut (length bytes) bytes

cut_enough :
    (rounds more : ℕ) (bytes : List ℕ)
    → length bytes ≤ rounds
    → length bytes ≤ more
    → cut rounds bytes ≡ cut more bytes
unfolding cut
cut_enough zero zero bytes h k = refl
cut_enough zero (suc more) [] h k = refl
cut_enough (suc rounds) zero [] h k = refl
cut_enough (suc rounds) (suc more) [] h k = refl
cut_enough zero (suc more) (byte ∷ bytes) h k = absurd (omega (arith, h))
cut_enough (suc rounds) zero (byte ∷ bytes) h k = absurd (omega (arith, k))
cut_enough (suc rounds) (suc more) (byte ∷ bytes) h k =
    let rest = drop transfer_chunk_size (byte ∷ bytes) in
    let shorter = length-drop transfer_chunk_size (byte ∷ bytes) in
    ap (λ pieces. take transfer_chunk_size (byte ∷ bytes) ∷ pieces)
      (cut_enough rounds more rest (omega (arith, h, shorter)) (omega (arith, k, shorter)))

slices_cons :
    (byte : ℕ) (bytes : List ℕ)
    → slices (byte ∷ bytes)
      ≡ take transfer_chunk_size (byte ∷ bytes) ∷ slices (drop transfer_chunk_size (byte ∷ bytes))
unfolding slices cut
slices_cons byte bytes =
    let rest = drop transfer_chunk_size (byte ∷ bytes) in
    let shorter = length-drop transfer_chunk_size (byte ∷ bytes) in
    ap (λ pieces. take transfer_chunk_size (byte ∷ bytes) ∷ pieces)
      (cut_enough (length bytes) (length rest) rest (omega (arith, shorter)) (omega arith))

take-append_long : (n : ℕ) (xs ys : List ℕ) → n ≤ length xs → take n (xs ++ ys) ≡ take n xs
take-append_long zero xs ys h = refl
take-append_long (suc n) [] ys h = absurd (omega (arith, h))
take-append_long (suc n) (x ∷ xs) ys h = ap (◌∷◌ x) (take-append_long n xs ys (omega (arith, h)))

drop-append_long : (n : ℕ) (xs ys : List ℕ) → n ≤ length xs → drop n (xs ++ ys) ≡ drop n xs ++ ys
drop-append_long zero xs ys h = refl
drop-append_long (suc n) [] ys h = absurd (omega (arith, h))
drop-append_long (suc n) (x ∷ xs) ys h = drop-append_long n xs ys (omega (arith, h))

-- A full buffer gives its first slice whatever follows it.
pub slices_full :
    (buffer rest : List ℕ)
    → transfer_chunk_size ≤ length buffer
    → slices (buffer ++ rest)
      ≡ take transfer_chunk_size buffer ∷ slices (drop transfer_chunk_size buffer ++ rest)
slices_full [] rest h = absurd (omega (arith, h))
slices_full (byte ∷ bytes) rest h =
    slices_cons byte (bytes ++ rest)
    ∙ ap (λ piece. piece ∷ slices (drop transfer_chunk_size ((byte ∷ bytes) ++ rest)))
        (take-append_long transfer_chunk_size (byte ∷ bytes) rest h)
    ∙ ap (λ left. take transfer_chunk_size (byte ∷ bytes) ∷ slices left)
        (drop-append_long transfer_chunk_size (byte ∷ bytes) rest h)

pub slices_short :
    (byte : ℕ) (bytes : List ℕ)
    → length (byte ∷ bytes) ≤ transfer_chunk_size
    → slices (byte ∷ bytes) ≡ (byte ∷ bytes) ∷ []
unfolding slices cut
slices_short byte bytes h =
    let whole = take_all transfer_chunk_size (byte ∷ bytes) h in
    let nothing = drop_all transfer_chunk_size (byte ∷ bytes) h in
    slices_cons byte bytes
    ∙ ap (λ piece. piece ∷ slices (drop transfer_chunk_size (byte ∷ bytes))) whole
    ∙ ap (λ left. (byte ∷ bytes) ∷ slices left) nothing

abbrev pub IsPiece : List ℕ → Type 0
IsPiece piece = (1 ≤ length piece) × (length piece ≤ transfer_chunk_size)

cut-covers :
    (rounds : ℕ) (bytes : List ℕ)
    → length bytes ≤ rounds
    → (concat (cut rounds bytes) ≡ bytes) × All IsPiece (cut rounds bytes)
unfolding cut
cut-covers zero [] h = (refl, tt)
cut-covers zero (byte ∷ bytes) h = absurd (omega (arith, h))
cut-covers (suc rounds) [] h = (refl, tt)
cut-covers (suc rounds) (byte ∷ bytes) h =
    let all_bytes = byte ∷ bytes in
    let rest = drop transfer_chunk_size all_bytes in
    let shorter = length-drop transfer_chunk_size all_bytes in
    let size = length-take transfer_chunk_size all_bytes in
    let (whole, pieces) = cut-covers rounds rest (omega (arith, h, shorter)) in
    (
      ap (λ more. take transfer_chunk_size all_bytes ++ more) whole
          ∙ take-append-drop transfer_chunk_size all_bytes,
      ((omega (arith, size), omega (arith, size)), pieces),
    )

-- The slices of some bytes are the bytes again, and each has between one byte and the chunk size.
pub slices-covers : (bytes : List ℕ) → (concat (slices bytes) ≡ bytes) × All IsPiece (slices bytes)
unfolding slices
slices-covers bytes = cut-covers (length bytes) bytes (omega arith)
