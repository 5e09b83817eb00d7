-- ===== src/Policy/Segments.antt =====
-- The segment walks of `sanitize` and `escapes_via_backslash` (backend/src/policy.rs).
use mathlib.Core.List.{reverse}
use dbx_plugin_files.Prelude.{
  ℕ, zero, suc, Bool, true, false, ◌&&◌, ◌||◌, List, [], ◌∷◌, Option, none, some, if◌then◌else◌,
  any, Result, ok, ok_or, fail_if, ◌>>=◌, ◌>>◌,
}
use dbx_plugin_files.Prelude.Text.{Text, text_eq, contains, replace, split_on, join, is_control}

pub data PathError : Type 0 where
  control_characters backslash_traversal escapes_root outside_root : PathError
  read_only_write read_only_delete delete_forbidden purge_of_root diverged : PathError

abbrev pub slash : ℕ
slash = b'/'

abbrev pub backslash : ℕ
backslash = 92

abbrev pub dot : ℕ
dot = b'.'

-- The patterns `"" | "."` and `".."`.
unfoldable pub is_skipped : Text → Bool
unfolding text_eq
is_skipped seg = text_eq seg [] || text_eq seg (dot ∷ [])

unfoldable pub is_parent : Text → Bool
unfolding text_eq
is_parent seg = text_eq seg (dot ∷ dot ∷ [])

-- One round of the loop over the segments. The stack has its top at the head.
unfoldable pub push_segment : List Text → Text → Option (List Text)
push_segment stack seg =
    if is_skipped seg
    then some stack
    else if is_parent seg
    then (elim stack [ [] ↦ none | top ∷ rest ↦ some rest ])
    else some (seg ∷ stack)

unfoldable pub walk_segments : List Text → List Text → Option (List Text)
walk_segments stack [] = some stack
walk_segments stack (seg ∷ segs) = elim (push_segment stack seg) [
  | none ↦ none
  | some stack' ↦ walk_segments stack' segs
]

-- `format!("/{}", segments.join("/"))`, or `/` when there is none.
unfoldable pub render : List Text → Text
unfolding join
render [] = slash ∷ []
render (seg ∷ segs) = slash ∷ join slash (seg ∷ segs)

-- One round of the depth count of the probe; `none` is `return true`.
unfoldable pub count_segment : ℕ → Text → Option ℕ
count_segment depth seg =
    if is_skipped seg
    then some depth
    else if is_parent seg
    then (elim depth [ zero ↦ none | suc d ↦ some d ])
    else some (suc depth)

unfoldable pub depth_escapes : ℕ → List Text → Bool
depth_escapes depth [] = false
depth_escapes depth (seg ∷ segs) = elim (count_segment depth seg) [
  | none ↦ true
  | some depth' ↦ depth_escapes depth' segs
]

unfoldable pub escapes_via_backslash : Text → Bool
escapes_via_backslash path = depth_escapes 0 (split_on slash (replace backslash slash path))

unfoldable pub sanitize : Text → Result PathError Text
unfolding is_skipped is_parent push_segment walk_segments render count_segment depth_escapes
    escapes_via_backslash is_control split_on replace contains
sanitize path = do
  fail_if (any is_control path) PathError.control_characters
  fail_if (contains backslash path && escapes_via_backslash path) PathError.backslash_traversal
  stack ← ok_or (walk_segments [] (split_on slash path)) PathError.escapes_root
  ok (render (reverse stack))

-- `sanitize_path`, the form that the operations layer calls.
unfoldable pub sanitize_path : Text → Result PathError Text
sanitize_path path = sanitize path
