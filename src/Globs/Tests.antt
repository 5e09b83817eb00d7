-- ===== src/Globs/Tests.antt =====
-- Tests of the model of `glob_match` in backend/src/mcp/tools.rs, and the theorem at a concrete input.
use dbx_plugin_files.Prelude.{◌≡◌, ◌↔◌, refl, true, false}
use dbx_plugin_files.Prelude.Text.{
  codes, text_eq, contains, split_on, trim_start_matches, cons_head,
}
use dbx_plugin_files.Globs.Matching.{
  any_suffix, match_one, segment_match, match_segment, match_segments, last_part, glob_match,
}
use dbx_plugin_files.Globs.Meaning.{Means, glob_match_iff}

base_name : glob_match (codes "*.tx?") (codes "/a/b.txt") ≡ true
unfolding glob_match contains split_on cons_head last_part segment_match any_suffix match_one
base_name = refl

across_segments : glob_match (codes "/a/**/*.txt") (codes "a/x/y/b.txt") ≡ true
unfolding glob_match contains split_on cons_head trim_start_matches match_segments match_segment
    segment_match any_suffix match_one text_eq
across_segments = refl

one_segment : glob_match (codes "a/*.txt") (codes "a/x/b.txt") ≡ false
unfolding glob_match contains split_on cons_head trim_start_matches match_segments match_segment
    segment_match any_suffix match_one text_eq
one_segment = refl

glob_match_iff_example :
    (glob_match (codes "a/**/*.txt") (codes "a/x/b.txt") ≡ true)
    ↔ Means (codes "a/**/*.txt") (codes "a/x/b.txt")
glob_match_iff_example = glob_match_iff (codes "a/**/*.txt") (codes "a/x/b.txt")
