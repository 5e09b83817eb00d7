-- ===== src/Policy/Confine.antt =====
-- Where the paths that `resolve` of backend/src/policy.rs accepts lie.
use dbx_plugin_files.Prelude.{
  ℕ, suc, Bool, true, false, List, [], ◌∷◌, ◌++◌, Option, none, some, Result, ok, err, ◌≡◌, ◌⊎◌,
  inl, inr, refl, ◌∙◌, arith, Bool-cases, append_assoc,
}
use dbx_plugin_files.Prelude.Text.{
  Text, text_eq, text_eq_iff, starts_with, starts_with-append, starts_with→append, trim,
  trim_start_matches, join,
}
use dbx_plugin_files.Policy.Segments.{PathError, slash, sanitize, render}
use dbx_plugin_files.Policy.Sanitize.{IsCanonical, sanitize-IsCanonical}
use dbx_plugin_files.Policy.Resolve.{
  PathPolicy, ResolvedPath, PolicyConfig, or_root, root_spelling, canonical_root, configured_root,
  from_config, from_parts, is_root, is_under_root, absolute_of, trim_slashes, resolved_at, confine,
  resolve_within,
}

or_root-IsCanonical : (path : Text) → IsCanonical (or_root (sanitize path))
or_root-IsCanonical path = go (sanitize path) refl
  where
    go : (r : Result PathError Text) → sanitize path ≡ r → IsCanonical (or_root r)
    go (ok []) e = ([], tt, unfold or_root render in refl)
    go (ok (c ∷ s)) e = unfold or_root in sanitize-IsCanonical path e
    go (err x) e = ([], tt, unfold or_root render in refl)

canonical_root-IsCanonical : (root : Text) → IsCanonical (canonical_root root)
unfolding canonical_root
canonical_root-IsCanonical root = or_root-IsCanonical (root_spelling root)

configured_root-IsCanonical : (root : Option Text) → IsCanonical (configured_root root)
unfolding configured_root
configured_root-IsCanonical none = ([], tt, unfold render in refl)
configured_root-IsCanonical (some value) = elim (Bool-cases (text_eq (trim value) [])) [
  | inl empty ↦ rw empty ([], tt, unfold render in refl)
  | inr other ↦ rw other (canonical_root-IsCanonical (trim value))
]

-- Every root that a policy is built with is canonical, whatever the configuration says.
pub from_config-IsCanonical :
    (config : PolicyConfig) (root : Text) (lock_to_root read_only allow_delete : Bool)
    → IsCanonical (from_config config).root
      × IsCanonical (from_parts root lock_to_root read_only allow_delete).root
unfolding from_config from_parts
from_config-IsCanonical config root lock_to_root read_only allow_delete =
    (configured_root-IsCanonical config.root, canonical_root-IsCanonical root)

-- The path is the root, or lies below it.
abbrev pub IsInside : Text → Text → Type 0
IsInside root path = (path ≡ root) ⊎ ((rest : Text) × (path ≡ root ++ (slash ∷ rest)))

pub is_under_root→IsInside :
    (root path : Text) → is_under_root root path ≡ true → IsInside root path
unfolding is_under_root
is_under_root→IsInside root path h = elim (Bool-cases (text_eq path root)) [
  | inl same ↦ inl ((text_eq_iff path root).0 same)
  | inr other ↦
      let (rest, e) = starts_with→append path (root ++ (slash ∷ [])) (ground arith) in
      inr (rest, e ∙ append_assoc root (slash ∷ []) rest)
]

pub is_under_root-append : (root rest : Text) → is_under_root root (root ++ (slash ∷ rest)) ≡ true
unfolding is_under_root
is_under_root-append root rest =
    let e = starts_with-append (root ++ (slash ∷ [])) rest in
    elim (Bool-cases (text_eq (root ++ (slash ∷ rest)) root)) [
      | inl same ↦ rw same
      | inr other ↦ rw other (rw append_assoc at e)
    ]

is_under_root_self : (root : Text) → is_under_root root root ≡ true
unfolding is_under_root
is_under_root_self root = rw ((text_eq_iff root root).1 refl)

render_head : (segs : List Text) → (rest : Text) × (render segs ≡ slash ∷ rest)
unfolding render
render_head [] = ([], refl)
render_head (seg ∷ segs) = (join slash (seg ∷ segs), refl)

-- A relative input lands under the root at once.
pub relative_under_root :
    (policy : PathPolicy) (path : Text) {clean : Text}
    → sanitize path ≡ ok clean
    → starts_with path (slash ∷ []) ≡ false
    → is_root policy.root ≡ false
    → is_under_root policy.root (absolute_of policy path clean) ≡ true
unfolding absolute_of
relative_under_root policy path {clean} e rel rooted =
    let (segs, kept, same) = sanitize-IsCanonical path e in
    let (rest, shape) = render_head segs in
    elim (Bool-cases (is_root clean)) [
      | inl top ↦ rw top (is_under_root_self policy.root)
      | inr sub ↦ rw (sub, rel, rooted, same, shape) (is_under_root-append policy.root rest)
    ]

-- The listing spelling is relative, since every leading slash is gone.
pub trim_slashes_relative : (s : Text) → starts_with (trim_slashes s) (slash ∷ []) ≡ false
unfolding trim_slashes trim_start_matches starts_with
trim_slashes_relative [] = refl
trim_slashes_relative (c ∷ s) = ground (arith, trim_slashes_relative s)

-- What `confine` answers on its own, and when it takes the recursive call.
pub confine_inside :
    (policy : PathPolicy) (path absolute : Text) (retry : Result PathError ResolvedPath)
    → (policy.lock_to_root ≡ true
        → is_root policy.root ≡ false
        → is_under_root policy.root absolute ≡ true)
    → confine policy path absolute retry ≡ ok (resolved_at policy absolute)
unfolding confine
confine_inside policy path absolute retry h = ground arith

-- A relative input resolves at the first round.
pub resolve_relative :
    (fuel : ℕ) (policy : PathPolicy) (path : Text) {clean : Text}
    → sanitize path ≡ ok clean
    → starts_with path (slash ∷ []) ≡ false
    → resolve_within (suc fuel) policy path
      ≡ ok (resolved_at policy (absolute_of policy path clean))
unfolding resolve_within
resolve_relative fuel policy path e rel =
    rw e (
      confine_inside policy path _ _
        (λ locked rooted. relative_under_root policy path e rel rooted))
