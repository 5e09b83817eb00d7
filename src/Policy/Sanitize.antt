-- ===== src/Policy/Sanitize.antt =====
-- What `sanitize` of backend/src/policy.rs guarantees of the paths that it lets through.
use mathlib.Core.List.{reverse, reverse_aux, reverse-reverse}
use dbx_plugin_files.Prelude.{
  ℕ, Bool, true, false, ◌&&◌, List, [], ◌∷◌, Option, none, some, any, ok, ◌≡◌, ◌↔◌, refl, ap, ◌∙◌,
  All, All-append, length, arith, Bool-cases, Option-cases, inl, inr,
}
use dbx_plugin_files.Prelude.Text.{Text, contains, replace, split_on, join, is_control, Lacks}
use dbx_plugin_files.Prelude.Split.{
  All-reverse, any→All, All→any, split_on-Lacks, split_on-All, split_on-join, split_on-sep,
}
use dbx_plugin_files.Policy.Segments.{
  slash, backslash, is_skipped, is_parent, push_segment, walk_segments, render, count_segment,
  depth_escapes, escapes_via_backslash, sanitize,
}

-- A path segment that survives: no separator, no control character, not empty, `.` or `..`.
pub record IsSegment (seg : Text) : Type 0 where
  pub kept : is_skipped seg ≡ false
  pub down : is_parent seg ≡ false
  pub whole : Lacks slash seg
  pub printable : All (λ c. is_control c ≡ false) seg

-- `/` alone, or `/` and segments with single slashes between.
abbrev pub IsCanonical : Text → Type 0
IsCanonical path = (segs : List Text) × All IsSegment segs × (path ≡ render segs)

abbrev IsPart : Text → Type 0
IsPart seg = Lacks slash seg × All (λ c. is_control c ≡ false) seg

push_segment-IsSegment :
    (stack : List Text) (seg : Text) {stack' : List Text}
    → All IsSegment stack
    → IsPart seg
    → push_segment stack seg ≡ some stack'
    → All IsSegment stack'
unfolding push_segment
push_segment-IsSegment [] seg h p e = elim (Bool-cases (is_skipped seg)) [
  | inl skip ↦ ground arith
  | inr keep ↦ ground arith
]
push_segment-IsSegment (top ∷ stack) seg h p e = ground arith

walk_segments-IsSegment :
    (stack segs : List Text) {stack' : List Text}
    → All IsSegment stack
    → All IsPart segs
    → walk_segments stack segs ≡ some stack'
    → All IsSegment stack'
unfolding walk_segments
walk_segments-IsSegment stack [] h p e = ground arith
walk_segments-IsSegment stack (seg ∷ segs) h p e = elim (Option-cases (push_segment stack seg)) [
  | inl failed ↦ absurd (ground arith)
  | inr (next, pushed) ↦
      walk_segments-IsSegment next segs (push_segment-IsSegment stack seg h p.0 pushed) p.1
        (rw (← e, pushed, walk_segments) refl)
]

-- The intermediate values of a successful call.
pub sanitize-eq-ok :
    (path : Text) {clean : Text}
    → sanitize path ≡ ok clean
    → (any is_control path ≡ false)
      × ((contains backslash path && escapes_via_backslash path) ≡ false)
      × ((stack : List Text) × (walk_segments [] (split_on slash path) ≡ some stack)
          × (clean ≡ render (reverse stack)))
unfolding sanitize
sanitize-eq-ok path e = elim (Option-cases (walk_segments [] (split_on slash path))) [
  | inl failed ↦ absurd (ground arith)
  | inr (stack, walked) ↦ (ground arith, ground arith, (stack, walked, ground arith))
]

parts_of_path : (path : Text) → any is_control path ≡ false → All IsPart (split_on slash path)
parts_of_path path h =
    zip_parts (split_on slash path) (split_on-Lacks slash path)
      (split_on-All slash _ path (any→All is_control path h))
  where
    zip_parts :
        (parts : List Text)
        → All (Lacks slash) parts
        → All (All (λ c. is_control c ≡ false)) parts
        → All IsPart parts
    zip_parts [] h k = tt
    zip_parts (part ∷ parts) h k = ((h.0, k.0), zip_parts parts h.1 k.1)

-- Every path that `sanitize` lets through is canonical: absolute, with no empty, `.` or `..`
-- segment and no control character.
pub sanitize-IsCanonical :
    (path : Text) {clean : Text} → sanitize path ≡ ok clean → IsCanonical clean
sanitize-IsCanonical path e =
    let (printable, probed, (stack, walked, same)) = sanitize-eq-ok path e in
    (
      reverse stack,
      All-reverse IsSegment stack
          (walk_segments-IsSegment [] _ tt (parts_of_path path printable) walked),
      same,
    )

push_segment_kept :
    (stack : List Text) (seg : Text) → IsSegment seg → push_segment stack seg ≡ some (seg ∷ stack)
unfolding push_segment
push_segment_kept [] seg h = ground arith
push_segment_kept (top ∷ stack) seg h = ground arith

-- A walk over kept segments pushes them all.
walk_segments_kept :
    (stack segs : List Text)
    → All IsSegment segs
    → walk_segments stack segs ≡ some (reverse_aux segs stack)
unfolding walk_segments
walk_segments_kept stack [] h = refl
walk_segments_kept stack (seg ∷ segs) h =
    rw (push_segment_kept stack seg h.0, walk_segments) (walk_segments_kept (seg ∷ stack) segs h.1)

wholes : (segs : List Text) → All IsSegment segs → All (Lacks slash) segs
wholes [] h = tt
wholes (seg ∷ segs) h = (h.0.whole, wholes segs h.1)

split_on-render :
    (seg : Text) (segs : List Text)
    → All IsSegment (seg ∷ segs)
    → split_on slash (render (seg ∷ segs)) ≡ [] ∷ seg ∷ segs
unfolding render
split_on-render seg segs h =
    split_on-sep slash [] (join slash (seg ∷ segs)) tt
    ∙ ap (λ (parts : List Text). [] ∷ parts)
        (split_on-join slash seg segs h.0.whole (wholes segs h.1))

walk_segments_skip : (segs : List Text) → walk_segments [] ([] ∷ segs) ≡ walk_segments [] segs
unfolding walk_segments push_segment is_skipped
walk_segments_skip segs = refl

walk-render_root : walk_segments [] (split_on slash (render [])) ≡ some []
unfolding walk_segments push_segment is_skipped render split_on
walk-render_root = refl

-- Walking a canonical path again gives its segments back.
walk-render :
    (segs : List Text)
    → All IsSegment segs
    → walk_segments [] (split_on slash (render segs)) ≡ some (reverse segs)
walk-render [] h = walk-render_root
walk-render (seg ∷ segs) h =
    rw (split_on-render seg segs h, walk_segments_skip) (walk_segments_kept [] (seg ∷ segs) h)

module _ {κ} (P : ℕ → Type κ) where
  All-join :
      (part : Text) (parts : List Text)
      → P slash
      → All P part
      → All (All P) parts
      → All P (join slash (part ∷ parts))
  unfolding join
  All-join part [] p h hs = h
  All-join part (next ∷ parts) p h hs = All-append P part _ h (p, All-join next parts p hs.0 hs.1)

printables : (segs : List Text) → All IsSegment segs → All (All (λ c. is_control c ≡ false)) segs
printables [] h = tt
printables (seg ∷ segs) h = (h.0.printable, printables segs h.1)

-- A canonical path holds no control character.
canonical_printable : (segs : List Text) → All IsSegment segs → any is_control (render segs) ≡ false
unfolding render is_control
canonical_printable [] h = refl
canonical_printable (seg ∷ segs) h =
    All→any is_control (slash ∷ join slash (seg ∷ segs))
      (refl, All-join (λ c. is_control c ≡ false) seg segs refl h.0.printable (printables segs h.1))

-- A canonical path without a backslash comes back from `sanitize` as it is.
pub sanitize_canonical :
    (path : Text) → IsCanonical path → contains backslash path ≡ false → sanitize path ≡ ok path
unfolding sanitize render
sanitize_canonical path (segs, h, same) bare = rw (
  same,
  sanitize,
  canonical_printable segs h,
  rw same at bare,
  walk-render segs h,
  reverse-reverse,
)

-- The depth count of the probe follows the height of the segment stack.
count_segment-length :
    (stack : List Text) (seg : Text)
    → count_segment (length stack) seg
      ≡ (elim (push_segment stack seg) [ none ↦ none | some stack' ↦ some (length stack') ])
unfolding count_segment push_segment
count_segment-length [] seg = ground arith
count_segment-length (top ∷ stack) seg = ground arith

abbrev is_none {ℓ} : {A : Type ℓ} → Option A → Bool
is_none none = true
is_none (some a) = false

depth_escapes-walk :
    (stack segs : List Text)
    → depth_escapes (length stack) segs ≡ is_none (walk_segments stack segs)
unfolding depth_escapes walk_segments
depth_escapes-walk stack [] = refl
depth_escapes-walk stack (seg ∷ segs) = elim (Option-cases (push_segment stack seg)) [
  | inl failed ↦ ground (arith, count_segment-length stack seg)
  | inr (next, pushed) ↦
      ground (arith, count_segment-length stack seg, depth_escapes-walk next segs)
]

-- The probe fires exactly when the segment walk, with every backslash read as a separator, would
-- climb above the root.
pub escapes_via_backslash-walk :
    (path : Text)
    → (escapes_via_backslash path ≡ true)
      ↔ (walk_segments [] (split_on slash (replace backslash slash path)) ≡ none)
unfolding escapes_via_backslash
escapes_via_backslash-walk path =
    let same = depth_escapes-walk [] (split_on slash (replace backslash slash path)) in
    (λ h. ground arith, λ h. ground arith)
