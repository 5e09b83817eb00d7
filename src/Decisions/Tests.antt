-- ===== src/Decisions/Tests.antt =====
-- Tests of the model of backend/src/rclone/list_decision.rs, on the inputs of its own tests, and the
-- theorems at concrete inputs.
use dbx_plugin_files.Prelude.{◌≡◌, refl, true, false}
use dbx_plugin_files.Prelude.Text.{trim_start_matches, codes, text_eq}
use dbx_plugin_files.Prelude.Assoc.{find, without}
use dbx_plugin_files.Decisions.Cache.{
  Key, empty_cache, parent_of, forget, touch, evict_oldest, evict_while, invalidate,
  invalidate_around, record_count, escalate_hint,
}
use dbx_plugin_files.Decisions.Coherence.{IsCoherent}
use dbx_plugin_files.Decisions.Bounded.{escalate_hint-record_count}

parent_root : parent_of (codes "/") ≡ codes "/"
unfolding parent_of trim_start_matches
parent_root = refl

parent_top : parent_of (codes "/a") ≡ codes "/"
unfolding parent_of trim_start_matches
parent_top = refl

parent_deep : parent_of (codes "/a/b/c") ≡ codes "/a/b"
unfolding parent_of trim_start_matches
parent_deep = refl

parent_slashed : parent_of (codes "/a/b/") ≡ codes "/a"
unfolding parent_of trim_start_matches
parent_slashed = refl

parent_relative : parent_of (codes "relative") ≡ codes "/"
unfolding parent_of trim_start_matches
parent_relative = refl

abbrev huge : Key
huge = (codes "c1", codes "/a")

empty-IsCoherent : IsCoherent empty_cache
unfolding find
empty-IsCoherent = record { keys = tt; once = tt; alike = λ key. refl; sizes = refl }

escalate_hint-record_count_example :
    (escalate_hint huge 9 (record_count huge 20000 5 empty_cache)).0 ≡ true
escalate_hint-record_count_example =
    escalate_hint-record_count huge 20000 5 9 empty_cache empty-IsCoherent

-- A write to a file in a directory forgets the directory.
write_forgets :
    (escalate_hint huge 9
      (invalidate_around (codes "c1") (codes "/a/x") (record_count huge 20000 5 empty_cache))).0
    ≡ false
unfolding trim_start_matches escalate_hint invalidate_around invalidate record_count evict_while
    evict_oldest touch forget find without parent_of text_eq
write_forgets = refl
