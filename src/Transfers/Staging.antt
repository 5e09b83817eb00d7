-- ===== src/Transfers/Staging.antt =====
-- `UploadStaging` of backend/src/rclone/bytes_channel.rs: frames appended to a local file in order.
use dbx_plugin_files.Prelude.{
  ℕ, ◌+◌, ◌^◌, ◌-◌, min, Bool, true, not, ◌&&◌, ◌||◌, List, [], ◌∷◌, ◌++◌, map, Option, none, some,
  length, take, drop, ltb, leb, ◌==◌, if◌then◌else◌, Result, ok, err,
}
use dbx_plugin_files.Prelude.Text.{Text, codes, is_ascii_alphabetic}

pub record UploadStaging : Type 0 where
  pub task_id : Text
  -- Whether the handle `file` is open, and the bytes of the file at `path`.
  pub is_open : Bool
  pub content : List ℕ
  pub received : ℕ
  -- 0 stands for an unknown size.
  pub expected : ℕ

pub data StagingError : Type 0 where
  out_of_order : ℕ → ℕ → StagingError
  exceeds_size : ℕ → ℕ → StagingError
  closed write_failed flush_failed : StagingError
  size_mismatch : ℕ → ℕ → StagingError
  upload_failed : StagingError

-- `start` with an open file.
unfoldable pub start : Text → ℕ → UploadStaging
start task_id expected = record {
  task_id = task_id;
  is_open = true;
  content = [];
  received = 0;
  expected = expected;
}

-- `u64::saturating_add`.
abbrev pub saturating_add : ℕ → ℕ → ℕ
saturating_add a b = min (a + b) (2 ^ 64 - 1)

-- `seek` and `write_all` on the file's bytes.
unfoldable pub write_at : ℕ → List ℕ → List ℕ → List ℕ
write_at offset bytes content =
    take offset content ++ (bytes ++ drop (offset + length bytes) content)

-- What the disk did with a write: none where it worked, and the bytes left behind where it failed.
unfoldable pub written :
    Option (List ℕ) → ℕ → ℕ → List ℕ → UploadStaging → Result StagingError ℕ × UploadStaging
unfolding write_at
written fault offset new_total bytes staging =
    if not staging.is_open then (err StagingError.closed, staging) else elim fault [
      | some left ↦ (err StagingError.write_failed, record staging { content = left })
      | none ↦ (
        ok new_total,
        record staging { content = write_at offset bytes staging.content; received = new_total },
      )
    ]

unfoldable pub append :
    Option (List ℕ) → ℕ → List ℕ → UploadStaging → Result StagingError ℕ × UploadStaging
append fault offset bytes staging =
    let new_total = saturating_add staging.received (length bytes) in
    if not (offset == staging.received)
    then (err (StagingError.out_of_order offset staging.received), staging)
    else if ltb 0 staging.expected && ltb staging.expected new_total
    then (err (StagingError.exceeds_size new_total staging.expected), staging)
    else if length bytes == 0
    then (ok new_total, record staging { received = new_total })
    else written fault offset new_total bytes staging

-- `upload` is `upload_staged_exact` on the file's bytes, whether it succeeds; `flushes` is `sync_all`.
unfoldable pub finish : Bool → (List ℕ → Bool) → UploadStaging → Result StagingError ℕ
finish flushes upload staging =
    if ltb 0 staging.expected && not (staging.received == staging.expected)
    then err (StagingError.size_mismatch staging.expected staging.received)
    else if staging.is_open && not flushes
    then err StagingError.flush_failed
    else if upload staging.content
    then ok staging.received
    else err StagingError.upload_failed

-- `[A-Za-z0-9._-]`.
unfoldable pub is_task_char : ℕ → Bool
unfolding is_ascii_alphabetic
is_task_char c =
    is_ascii_alphabetic c || (leb b'0' c && leb c b'9') || c == b'.' || c == b'_' || c == b'-'

unfoldable pub sanitize_task_id : Text → Text
unfolding is_task_char
sanitize_task_id task_id = elim (map (λ c. if is_task_char c then c else b'_') (take 80 task_id)) [
  | [] ↦ codes "task"
  | c ∷ cleaned ↦ c ∷ cleaned
]
