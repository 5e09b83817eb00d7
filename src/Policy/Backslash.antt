-- ===== src/Policy/Backslash.antt =====
-- The backslash reading of `sanitize` (backend/src/policy.rs): the probe looks at the input, and
-- the walk that follows can uncover a traversal that the input did not show.
use mathlib.Core.List.{map-append}
use dbx_plugin_files.Prelude.{
  false, List, [], ◌∷◌, ◌++◌, some, any, ok, err, ◌≡◌, refl, ap, append_assoc, All-append, arith,
}
use dbx_plugin_files.Prelude.Text.{Text, contains, replace, split_on, join, is_control, Lacks}
use dbx_plugin_files.Prelude.Split.{All→any, split_on-join}
use dbx_plugin_files.Policy.Segments.{
  PathError, slash, backslash, dot, is_skipped, is_parent, push_segment, walk_segments, render,
  count_segment, depth_escapes, escapes_via_backslash, sanitize,
}
use dbx_plugin_files.Policy.Sanitize.{IsSegment}

-- A segment that holds no backslash either.
pub record IsPlain (name : Text) : Type 0 where
  pub segment : IsSegment name
  pub open segment use *
  pub bare : Lacks backslash name

replace_bare : (s : Text) → Lacks backslash s → replace backslash slash s ≡ s
unfolding replace
replace_bare [] h = refl
replace_bare (c ∷ s) h = ground (arith, replace_bare s h.1)

replace-append :
    (s t : Text)
    → replace backslash slash (s ++ t) ≡ replace backslash slash s ++ replace backslash slash t
unfolding replace
replace-append s t = map-append _ s t

-- A text with a backslash in it is an ordinary segment.
push_backslash :
    (a b : Text) → push_segment [] (a ++ (backslash ∷ b)) ≡ some ((a ++ (backslash ∷ b)) ∷ [])
unfolding push_segment is_skipped is_parent
push_backslash [] b = refl
push_backslash (x ∷ []) b = ground arith
push_backslash (x ∷ y ∷ []) b = ground arith
push_backslash (x ∷ y ∷ z ∷ a) b = ground arith

-- `a\b/../..\c`
abbrev pub hidden_traversal : Text → Text → Text → Text
hidden_traversal a b c =
    join slash ((a ++ (backslash ∷ b)) ∷ (dot ∷ dot ∷ []) ∷ (dot ∷ dot ∷ backslash ∷ c) ∷ [])

-- `/..\c`
abbrev pub traversal : Text → Text
traversal c = slash ∷ dot ∷ dot ∷ backslash ∷ c

module _ (a b c : Text) (ha : IsPlain a) (hb : IsPlain b) (hc : IsPlain c) where
  split_hidden :
      split_on slash (hidden_traversal a b c)
      ≡ (a ++ (backslash ∷ b)) ∷ (dot ∷ dot ∷ []) ∷ (dot ∷ dot ∷ backslash ∷ c) ∷ []
  split_hidden =
      split_on-join slash _ _ (All-append _ a _ ha.whole (refl, hb.whole))
        ((refl, (refl, tt)), ((refl, (refl, (refl, hc.whole))), tt))

  -- The tail of the input, and what it reads as with backslashes for separators.
  climbs : Text
  climbs = slash ∷ dot ∷ dot ∷ slash ∷ dot ∷ dot ∷ backslash ∷ c

  climbs_replaced :
      replace backslash slash climbs ≡ slash ∷ dot ∷ dot ∷ slash ∷ dot ∷ dot ∷ slash ∷ c
  unfolding climbs replace
  climbs_replaced =
      ap (λ (s : Text). slash ∷ dot ∷ dot ∷ slash ∷ dot ∷ dot ∷ slash ∷ s) (replace_bare c hc.bare)

  second_replaced :
      replace backslash slash (backslash ∷ (b ++ climbs))
      ≡ slash ∷ (replace backslash slash (b ++ climbs))
  unfolding replace
  second_replaced = refl

  hidden_shape : hidden_traversal a b c ≡ a ++ (backslash ∷ (b ++ climbs))
  unfolding join climbs
  hidden_shape = append_assoc a (backslash ∷ b) climbs

  hidden_replaced :
      replace backslash slash (hidden_traversal a b c)
      ≡ join slash (a ∷ b ∷ (dot ∷ dot ∷ []) ∷ (dot ∷ dot ∷ []) ∷ c ∷ [])
  hidden_replaced =
      rw
        (
          hidden_shape,
          replace-append,
          replace_bare a ha.bare,
          second_replaced,
          replace-append,
          replace_bare b hb.bare,
          climbs_replaced,
        )
        (unfold join in refl)

  replaced_parts : List Text
  replaced_parts = b ∷ (dot ∷ dot ∷ []) ∷ (dot ∷ dot ∷ []) ∷ c ∷ []

  split_replaced :
      split_on slash (replace backslash slash (hidden_traversal a b c)) ≡ a ∷ replaced_parts
  unfolding replaced_parts
  split_replaced = rw hidden_replaced (
      split_on-join slash a replaced_parts ha.whole
        (hb.whole, ((refl, (refl, tt)), ((refl, (refl, tt)), (hc.whole, tt)))))

  probe_misses : escapes_via_backslash (hidden_traversal a b c) ≡ false
  unfolding escapes_via_backslash depth_escapes count_segment is_parent is_skipped replaced_parts
  probe_misses =
      rw split_replaced (ground (arith, ha.kept, ha.down, hb.kept, hb.down, hc.kept, hc.down))

  walk_uncovers :
      walk_segments [] (split_on slash (hidden_traversal a b c))
      ≡ some ((dot ∷ dot ∷ backslash ∷ c) ∷ [])
  unfolding walk_segments
  walk_uncovers =
      rw (split_hidden, walk_segments, push_backslash a b)
        (unfold walk_segments push_segment is_parent is_skipped in refl)

  hidden_printable : any is_control (hidden_traversal a b c) ≡ false
  unfolding join climbs is_control
  hidden_printable = All→any is_control (hidden_traversal a b c) (
      rw hidden_shape (
        All-append _ a _ ha.printable (
          refl,
          All-append _ b _ hb.printable
              (refl, (refl, (refl, (refl, (refl, (refl, (refl, hc.printable))))))),
        )))

  traversal_printable : any is_control (traversal c) ≡ false
  unfolding is_control
  traversal_printable = All→any is_control c hc.printable

  -- For all plain names `a`, `b` and `c`, `sanitize` lets `a\b/../..\c` through as `/..\c`, which
  -- it rejects itself as a traversal with backslashes for separators.
  pub hidden_traversal_passes :
      (sanitize (hidden_traversal a b c) ≡ ok (traversal c))
      × (sanitize (traversal c) ≡ err PathError.backslash_traversal)
  unfolding sanitize render contains join
  hidden_traversal_passes =
      (rw (hidden_printable, probe_misses, walk_uncovers) (ground arith), rw traversal_printable)
