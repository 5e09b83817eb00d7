-- ===== src/Archive/Devices.antt =====
-- Entries of unusual types in the extraction plan of backend/src/archive.rs.
use dbx_plugin_files.Prelude.{
  ℕ, ◌≡◌, ◌≤◌, ◌<◌, ◌^◌, ◌+◌, false, true, ◌⊎◌, List, [], ◌∷◌, ok, arith,
}
use dbx_plugin_files.Prelude.Text.{Text}
use dbx_plugin_files.Archive.Blocks.{Block}
use dbx_plugin_files.Archive.Tar.{made_entry, ends_with_slash}
use dbx_plugin_files.Archive.Listing.{plan_from}

-- A device or a pipe is planned as a file: an entry of the types 3, 4 or 6 whose name does not end in a
-- slash is planned under its path with no contents, whatever size it declares.
pub devices_planned :
    (max_bytes size : ℕ) (bytes : List ℕ) (block : Block) (name path : Text)
    → max_bytes + 1 < 2 ^ 64
    → size ≤ max_bytes
    → (block.flag ≡ b'3') ⊎ ((block.flag ≡ b'4') ⊎ (block.flag ≡ b'6'))
    → ends_with_slash name ≡ false
    → plan_from max_bytes 0 (made_entry true bytes block name path size ∷ [])
      ≡ ok (record { target = path; contents = []; planned = size } ∷ [])
unfolding plan_from made_entry
devices_planned max_bytes size bytes block name path below fits kind file = ground arith
