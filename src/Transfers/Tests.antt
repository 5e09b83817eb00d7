-- ===== src/Transfers/Tests.antt =====
-- Tests of the model of backend/src/transfers.rs and backend/src/rclone/bytes_channel.rs, on the
-- inputs of their own tests, and the theorems at concrete inputs.
use dbx_plugin_files.Prelude.{
  ℕ, ◌≡◌, refl, ◌⊎◌, List, [], ◌∷◌, ◌++◌, map, arith, length, true, Bool, Result, ok, err, ◌>>=◌,
}
use dbx_plugin_files.Prelude.Text.{Text, codes}
use dbx_plugin_files.Transfers.Frames.{FrameError, parse_upload_frame, frame}
use dbx_plugin_files.Transfers.Codec.{parse_upload_frame-frame}
use dbx_plugin_files.Transfers.Staging.{start, append, written, write_at, finish, sanitize_task_id}
use dbx_plugin_files.Transfers.Delivery.{append_all, kept_bytes, concat, finish-append_all}
use dbx_plugin_files.Transfers.Slices.{slices, cut}
use dbx_plugin_files.Transfers.Streaming.{feed, download_pump-feed}
use dbx_plugin_files.Transfers.Pump.{download_pump}

frame_layout : frame 258 (codes "hi") ≡ 0 ∷ 0 ∷ 0 ∷ 0 ∷ 0 ∷ 0 ∷ 1 ∷ 2 ∷ codes "hi"
unfolding frame
frame_layout = refl

short_frame : parse_upload_frame (0 ∷ 0 ∷ []) ≡ err FrameError.missing_offset
unfolding parse_upload_frame
short_frame = refl

task_name : sanitize_task_id (codes "a/b c.1") ≡ codes "a_b_c.1"
unfolding sanitize_task_id
task_name = refl

task_name_empty : sanitize_task_id [] ≡ codes "task"
unfolding sanitize_task_id
task_name_empty = refl

-- Frames behind a gap and behind a rewind.
abbrev mixed_frames : List (ℕ × List ℕ)
mixed_frames = (0, 1 ∷ 2 ∷ []) ∷ (5, 9 ∷ []) ∷ (2, 3 ∷ []) ∷ (0, 8 ∷ []) ∷ []

abbrev takes_all : List ℕ → Bool
takes_all bytes = true

mixed_kept : (append_all mixed_frames (start (codes "t") 3)).0 ≡ 1 ∷ 2 ∷ 3 ∷ []
unfolding append_all kept_bytes append written write_at start
mixed_kept = refl

parse_upload_frame-frame_example :
    parse_upload_frame (frame 7 (codes "hello files")) ≡ ok (7, codes "hello files")
parse_upload_frame-frame_example =
    parse_upload_frame-frame 7 (codes "hello files") (omega arith) (omega arith)

finish-append_all_example :
    (takes_all (append_all mixed_frames (start (codes "t") 3)).0 ≡ true)
    × ((3 ≡ length (append_all mixed_frames (start (codes "t") 3)).0)
        × (◌≡◌ {A = ℕ} 3 0 ⊎ ◌≡◌ {A = ℕ} 3 3))
unfolding append_all append written write_at start finish
finish-append_all_example =
    finish-append_all (codes "t") 3 mixed_frames true takes_all 3 (omega arith) refl

abbrev gather : List (List ℕ) → List ℕ → Result Text (List (List ℕ))
gather pieces piece = ok (pieces ++ (piece ∷ []))

download_pump-feed_example :
    download_pump gather (map ok (codes "ab" ∷ codes "c" ∷ [])) []
    ≡ (feed gather [] (slices (codes "abc")) >>= λ last. ok (last, length (codes "abc")))
download_pump-feed_example = download_pump-feed gather (codes "ab" ∷ codes "c" ∷ []) []

sliced_text : concat (slices (codes "abc")) ≡ codes "abc"
unfolding slices cut
sliced_text = refl
