-- ===== src/Transfers/Sequence.antt =====
-- Appending frames to a staged upload of backend/src/rclone/bytes_channel.rs keeps the file equal to
-- the frames that were accepted.
use dbx_plugin_files.Prelude.{
  ℕ, zero, suc, ◌+◌, ◌^◌, ◌≤◌, ◌<◌, ◌≡◌, refl, ap, ◌⊎◌, inl, inr, true, false, ◌&&◌, List, [], ◌∷◌,
  ◌++◌, none, arith, length, take, drop, ltb, ◌==◌, length-append, append-nil, ok, err, Bool-cases,
  ==_iff, ==_refl,
}
use dbx_plugin_files.Prelude.Text.{Text}
use dbx_plugin_files.Transfers.Staging.{
  UploadStaging, StagingError, start, append, written, write_at, saturating_add,
}

-- The file is open, holds exactly the bytes received, and they fit in the declared size and in u64.
pub record IsStaged (staging : UploadStaging) : Type 0 where
  pub open_file : staging.is_open ≡ true
  pub whole : length staging.content ≡ staging.received
  pub fits : (staging.expected ≡ 0) ⊎ (staging.received ≤ staging.expected)
  pub narrow : staging.received < 2 ^ 64

pub take_all : (n : ℕ) (bytes : List ℕ) → length bytes ≤ n → take n bytes ≡ bytes
take_all zero [] h = refl
take_all (suc n) [] h = refl
take_all zero (byte ∷ bytes) h = absurd (omega (arith, h))
take_all (suc n) (byte ∷ bytes) h = ap (◌∷◌ byte) (take_all n bytes (omega (arith, h)))

pub drop_all : (n : ℕ) (bytes : List ℕ) → length bytes ≤ n → drop n bytes ≡ []
drop_all zero [] h = refl
drop_all (suc n) [] h = refl
drop_all zero (byte ∷ bytes) h = absurd (omega (arith, h))
drop_all (suc n) (byte ∷ bytes) h = drop_all n bytes (omega (arith, h))

write_at_end :
    (bytes content : List ℕ) (offset : ℕ)
    → length content ≡ offset
    → write_at offset bytes content ≡ content ++ bytes
unfolding write_at
write_at_end bytes content offset h =
    let front : take offset content ≡ content = take_all offset content (omega (arith, h)) in
    let behind : drop (offset + length bytes) content ≡ [] =
      drop_all (offset + length bytes) content (omega (arith, h)) in
    rw (front, behind, append-nil bytes) refl

-- The state behind an accepted frame.
abbrev pub extended : List ℕ → UploadStaging → UploadStaging
extended bytes staging = record staging {
  content = staging.content ++ bytes;
  received = staging.received + length bytes;
}

-- The next frame in order is accepted while it fits in the declared size.
pub append_accepts :
    (bytes : List ℕ) (staging : UploadStaging)
    → IsStaged staging
    → staging.received + length bytes < 2 ^ 64
    → (staging.expected ≡ 0) ⊎ (staging.received + length bytes ≤ staging.expected)
    → append none staging.received bytes staging
      ≡ (ok (staging.received + length bytes), extended bytes staging)
unfolding append written
append_accepts [] staging h narrow fits =
    let total : saturating_add staging.received 0 ≡ staging.received + 0 = omega (arith, narrow) in
    let same : (staging.received == staging.received) ≡ true = ==_refl staging.received in
    let guard : (ltb 0 staging.expected && ltb staging.expected (staging.received + 0)) ≡ false =
      ground arith in
    rw (append, total, same, guard, append-nil staging.content) refl
append_accepts (byte ∷ bytes) staging h narrow fits =
    let n = length (byte ∷ bytes) in
    let total : saturating_add staging.received n ≡ staging.received + n = omega (arith, narrow) in
    let same : (staging.received == staging.received) ≡ true = ==_refl staging.received in
    let guard : (ltb 0 staging.expected && ltb staging.expected (staging.received + n)) ≡ false =
      ground arith in
    let some_bytes : (n == 0) ≡ false = ground arith in
    rw
      (
        append,
        total,
        same,
        guard,
        some_bytes,
        written,
        h.open_file,
        write_at_end (byte ∷ bytes) staging.content staging.received h.whole,
      )
      refl

-- Any other frame is refused and changes nothing.
pub append_refuses :
    (offset : ℕ) (bytes : List ℕ) (staging : UploadStaging)
    → IsStaged staging
    → staging.received + length bytes < 2 ^ 64
    → (offset ≡ staging.received
        × ((staging.expected ≡ 0) ⊎ (staging.received + length bytes ≤ staging.expected)))
      ⊎ ((fault : StagingError) × (append none offset bytes staging ≡ (err fault, staging)))
unfolding append
append_refuses offset bytes staging h narrow =
    let n = length bytes in
    let total : saturating_add staging.received n ≡ staging.received + n = omega (arith, narrow) in
    elim (Bool-cases (offset == staging.received)) [
      | inr apart ↦ inr (StagingError.out_of_order offset staging.received, rw (append, apart) refl)
      | inl same ↦
          (elim (Bool-cases
            (ltb 0 staging.expected && ltb staging.expected (saturating_add staging.received n))) [
              | inr fits ↦ inl (ground (arith, ==_iff offset staging.received))
              | inl over ↦ inr (
                StagingError.exceeds_size (saturating_add staging.received n) staging.expected,
                rw (append, same, over) refl,
              )
            ])
    ]

pub extended-IsStaged :
    (bytes : List ℕ) (staging : UploadStaging)
    → IsStaged staging
    → staging.received + length bytes < 2 ^ 64
    → (staging.expected ≡ 0) ⊎ (staging.received + length bytes ≤ staging.expected)
    → IsStaged (extended bytes staging)
extended-IsStaged bytes staging h narrow fits = record {
  open_file = h.open_file;
  whole = omega (arith, length-append staging.content bytes, h.whole);
  fits = fits;
  narrow = narrow;
}

pub start-IsStaged : (task_id : Text) (expected : ℕ) → IsStaged (start task_id expected)
unfolding start
start-IsStaged task_id expected = record {
  open_file = refl;
  whole = refl;
  fits = inr (omega arith);
  narrow = omega arith;
}
