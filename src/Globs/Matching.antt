-- ===== src/Globs/Matching.antt =====
-- `glob_match` of backend/src/mcp/tools.rs with its two searches.
use dbx_plugin_files.Prelude.{ℕ, Bool, true, false, ◌&&◌, ◌||◌, List, [], ◌∷◌, ◌==◌, if◌then◌else◌}
use dbx_plugin_files.Prelude.Text.{Text, codes, text_eq, contains, split_on, trim_start_matches}

-- `(0..=t.len()).any(|skip| f(&t[skip..]))`.
unfoldable pub any_suffix : {A : Type 0} → (List A → Bool) → List A → Bool
any_suffix f [] = f []
any_suffix f (x ∷ xs) = f (x ∷ xs) || any_suffix f xs

-- One pattern character that is no `*`, against a text.
unfoldable pub match_one : ℕ → (Text → Bool) → Text → Bool
match_one c rest [] = false
match_one c rest (d ∷ text) = if c == b'?' then rest text else c == d && rest text

-- `segment_match` and its `inner`.
unfoldable pub segment_match : Text → Text → Bool
unfolding any_suffix match_one
segment_match [] [] = true
segment_match [] (d ∷ text) = false
segment_match (c ∷ pattern) text =
    if c == b'*'
    then any_suffix (segment_match pattern) text
    else match_one c (segment_match pattern) text

-- One pattern segment that is no `**`, against the segments of a path.
unfoldable pub match_segment : Text → (List Text → Bool) → List Text → Bool
match_segment first rest [] = false
match_segment first rest (head ∷ tail) = segment_match first head && rest tail

unfoldable pub match_segments : List Text → List Text → Bool
unfolding any_suffix match_segment
match_segments [] [] = true
match_segments [] (head ∷ tail) = false
match_segments (first ∷ pattern) text =
    if text_eq first (codes "**")
    then any_suffix (match_segments pattern) text
    else match_segment first (match_segments pattern) text

-- `text.rsplit('/').next()`.
unfoldable pub last_part : List Text → Text
last_part [] = []
last_part (part ∷ []) = part
last_part (part ∷ next ∷ parts) = last_part (next ∷ parts)

unfoldable pub glob_match : Text → Text → Bool
unfolding contains split_on trim_start_matches last_part
glob_match pattern text =
    if contains b'/' pattern
    then match_segments (split_on b'/' (trim_start_matches (λ c. c == b'/') pattern))
        (split_on b'/' (trim_start_matches (λ c. c == b'/') text))
    else segment_match pattern (last_part (split_on b'/' text))
