-- ===== src/Transfers/Delivery.antt =====
-- What an upload of backend/src/rclone/bytes_channel.rs delivers: the accepted frames, in order.
use dbx_plugin_files.Prelude.{
  ℕ, ◌+◌, ◌^◌, ◌≤◌, ◌<◌, ◌≡◌, refl, sym, ap, subst, ◌∙◌, ◌⊎◌, inl, inr, Bool, true, List, [], ◌∷◌,
  ◌++◌, none, arith, length, length-append, append-nil, append_assoc, Result, ok, err, ==_iff,
}
use dbx_plugin_files.Prelude.Text.{Text}
use dbx_plugin_files.Transfers.Staging.{UploadStaging, StagingError, start, append, finish}
use dbx_plugin_files.Transfers.Sequence.{
  start-IsStaged, IsStaged, extended, append_accepts, append_refuses, extended-IsStaged,
}

-- The bytes of an accepted frame.
unfoldable pub kept_bytes : Result StagingError ℕ → List ℕ → List ℕ
kept_bytes (ok total) bytes = bytes
kept_bytes (err fault) bytes = []

-- Frames with any offsets, appended one after the other to a disk that takes every write: the bytes of the accepted ones, and the state.
unfoldable pub append_all : List (ℕ × List ℕ) → UploadStaging → List ℕ × UploadStaging
append_all [] staging = ([], staging)
append_all ((offset, bytes) ∷ frames) staging =
    let (answer, next) = append none offset bytes staging in
    let (more, last) = append_all frames next in (kept_bytes answer bytes ++ more, last)

-- The number of bytes in the frames, accepted or not.
abbrev pub frames_size : List (ℕ × List ℕ) → ℕ
frames_size [] = 0
frames_size (frame ∷ frames) = length frame.1 + frames_size frames

append_all_nil : (staging : UploadStaging) → append_all [] staging ≡ ([], staging)
unfolding append_all
append_all_nil staging = refl

append_all_next :
    (offset : ℕ) (bytes : List ℕ) (frames : List (ℕ × List ℕ)) (staging next : UploadStaging)
    (answer : Result StagingError ℕ)
    → append none offset bytes staging ≡ (answer, next)
    → append_all ((offset, bytes) ∷ frames) staging
      ≡ (kept_bytes answer bytes ++ (append_all frames next).0, (append_all frames next).1)
unfolding append_all
append_all_next offset bytes frames staging next answer h = rw h refl

-- Whatever the offsets, the file is what it was and the accepted bytes.
append_all-content :
    (frames : List (ℕ × List ℕ)) (staging : UploadStaging)
    → IsStaged staging
    → staging.received + frames_size frames < 2 ^ 64
    → IsStaged (append_all frames staging).1
      × (((append_all frames staging).1.content ≡ staging.content ++ (append_all frames staging).0)
          × ((append_all frames staging).1.expected ≡ staging.expected))
unfolding kept_bytes
append_all-content [] staging h narrow =
    rw (append_all_nil staging) (h, (sym (append-nil staging.content), refl))
append_all-content ((offset, bytes) ∷ frames) staging h narrow =
    elim (append_refuses offset bytes staging h (omega (arith, narrow))) [
      | inr (fault, refused) ↦
          rw (append_all_next offset bytes frames staging staging (err fault) refused)
            (append_all-content frames staging h (omega (arith, narrow)))
      | inl (same, fits) ↦
          let next = extended bytes staging in
          let accepted = append_accepts bytes staging h (omega (arith, narrow)) fits in
          let here : append none offset bytes staging
              ≡ (ok (staging.received + length bytes), next) =
            ap (λ k. append none k bytes staging) same ∙ accepted in
          let (staged, (content, size)) =
            append_all-content frames next
              (extended-IsStaged bytes staging h (omega (arith, narrow)) fits)
              (omega (arith, narrow)) in
          rw
            (append_all_next offset bytes frames staging next (ok (staging.received + length bytes))
              here)
            (
              staged,
              (content ∙ append_assoc staging.content bytes (append_all frames next).0, size),
            )
    ]

finish_ok :
    (flushes : Bool) (upload : List ℕ → Bool) (staging : UploadStaging) (total : ℕ)
    → finish flushes upload staging ≡ ok total
    → (upload staging.content ≡ true)
      × ((total ≡ staging.received)
          × ((staging.expected ≡ 0) ⊎ (staging.received ≡ staging.expected)))
unfolding finish
finish_ok flushes upload staging total h =
    (ground arith, (ground arith, ground (arith, ==_iff staging.received staging.expected)))

-- Where no write to the disk fails, an upload that finishes was given, whole and in order, the bytes of
-- the accepted frames, and as many as were declared, if any number was; whatever offsets the frames had,
-- if they hold less than 2^64 bytes.
pub finish-append_all :
    (task_id : Text) (expected : ℕ) (frames : List (ℕ × List ℕ)) (flushes : Bool)
    (upload : List ℕ → Bool) (total : ℕ)
    → frames_size frames < 2 ^ 64
    → finish flushes upload (append_all frames (start task_id expected)).1 ≡ ok total
    → (upload (append_all frames (start task_id expected)).0 ≡ true)
      × ((total ≡ length (append_all frames (start task_id expected)).0)
          × ((expected ≡ 0) ⊎ (total ≡ expected)))
unfolding start
finish-append_all task_id expected frames flushes upload total narrow h =
    let (staged, (content, size)) =
      append_all-content frames (start task_id expected) (start-IsStaged task_id expected)
        (omega (arith, narrow)) in
    let last = (append_all frames (start task_id expected)).1 in
    let (sent, (counted, declared)) = finish_ok flushes upload last total h in
    (
      ap upload (sym content) ∙ sent,
      (
        counted ∙ sym staged.whole ∙ ap length content,
        rw counted (subst (λ n. (n ≡ 0) ⊎ (last.received ≡ n)) size declared),
      ),
    )

-- The chunks of a file, each at its own offset.
unfoldable pub in_order : ℕ → List (List ℕ) → List (ℕ × List ℕ)
in_order offset [] = []
in_order offset (chunk ∷ chunks) = (offset, chunk) ∷ in_order (offset + length chunk) chunks

abbrev pub concat : List (List ℕ) → List ℕ
concat [] = []
concat (chunk ∷ chunks) = chunk ++ concat chunks

in_order-accepted :
    (chunks : List (List ℕ)) (staging : UploadStaging)
    → IsStaged staging
    → staging.received + length (concat chunks) < 2 ^ 64
    → (staging.expected ≡ 0) ⊎ (staging.received + length (concat chunks) ≤ staging.expected)
    → (append_all (in_order staging.received chunks) staging).0 ≡ concat chunks
unfolding append_all in_order kept_bytes
in_order-accepted [] staging h narrow fits = refl
in_order-accepted (chunk ∷ chunks) staging h narrow fits =
    let size = length-append chunk (concat chunks) in
    let here = append_accepts chunk staging h (omega (arith, narrow, size)) (ground arith) in
    let next = extended chunk staging in
    ap (λ r. r.0)
      (append_all_next staging.received chunk (in_order (staging.received + length chunk) chunks)
        staging next (ok (staging.received + length chunk)) here)
    ∙ ap (λ more. chunk ++ more)
        (in_order-accepted chunks next
          (extended-IsStaged chunk staging h (omega (arith, narrow, size)) (ground arith))
          (omega (arith, narrow, size)) (ground arith))

in_order-size :
    (chunks : List (List ℕ)) (offset : ℕ)
    → frames_size (in_order offset chunks) ≡ length (concat chunks)
unfolding in_order
in_order-size [] offset = refl
in_order-size (chunk ∷ chunks) offset =
    omega (arith, in_order-size chunks (offset + length chunk), length-append chunk (concat chunks))

finish_accepts :
    (upload : List ℕ → Bool) (staging : UploadStaging)
    → (staging.expected ≡ 0) ⊎ (staging.received ≡ staging.expected)
    → upload staging.content ≡ true
    → finish true upload staging ≡ ok staging.received
unfolding finish
finish_accepts upload staging declared sent =
    ground (arith, ==_iff staging.received staging.expected)

-- The chunks of a file, sent in order for an unknown size or for the file's own, are uploaded as
-- the file's bytes, and the upload finishes with their number when the remote takes them.
pub finish-in_order :
    (task_id : Text) (expected : ℕ) (chunks : List (List ℕ)) (upload : List ℕ → Bool)
    → length (concat chunks) < 2 ^ 64
    → (expected ≡ 0) ⊎ (length (concat chunks) ≡ expected)
    → upload (concat chunks) ≡ true
    → finish true upload (append_all (in_order 0 chunks) (start task_id expected)).1
      ≡ ok (length (concat chunks))
unfolding start
finish-in_order task_id expected chunks upload narrow declared sent =
    let first = start task_id expected in
    let last = (append_all (in_order 0 chunks) first).1 in
    let (staged, (content, size)) =
      append_all-content (in_order 0 chunks) first (start-IsStaged task_id expected)
        (omega (arith, narrow, in_order-size chunks 0)) in
    let kept =
      in_order-accepted chunks first (start-IsStaged task_id expected) (omega (arith, narrow))
        (ground arith) in
    let bytes : last.content ≡ concat chunks = content ∙ kept in
    let counted : last.received ≡ length (concat chunks) = sym staged.whole ∙ ap length bytes in
    finish_accepts upload last (rw (size, counted) declared) (ap upload bytes ∙ sent)
    ∙ ap ok counted
