-- ===== src/Policy/Whitelist.antt =====
-- The path whitelist: the contract of `resolve` (backend/src/policy.rs) on every branch.
use dbx_plugin_files.Prelude.{
  ℕ, suc, true, false, not, ◌&&◌, List, [], ◌∷◌, ◌++◌, some, Result, ok, err, ◌≡◌, ◌≢◌, ◌⊎◌, inl,
  inr, refl, ap, ◌∙◌, All-append, arith, Bool-cases, Result-cases, append_assoc,
}
use dbx_plugin_files.Prelude.Text.{
  Text, text_eq, text_eq_iff, starts_with, strip_prefix, strip_prefix-append, join,
}
use dbx_plugin_files.Policy.Segments.{PathError, slash, sanitize, render}
use dbx_plugin_files.Policy.Sanitize.{IsSegment, IsCanonical, sanitize-IsCanonical}
use dbx_plugin_files.Policy.Resolve.{
  PathPolicy, ResolvedPath, is_root, is_under_root, absolute_of, trim_slashes, relative_of,
  resolved_at, confine, resolve_within, resolve,
}
use dbx_plugin_files.Policy.Confine.{
  IsInside, is_under_root→IsInside, relative_under_root, trim_slashes_relative, confine_inside,
  resolve_relative,
}

join-append :
    (p q : Text) (ps qs : List Text)
    → join slash (p ∷ ps) ++ (slash ∷ join slash (q ∷ qs)) ≡ join slash (p ∷ (ps ++ (q ∷ qs)))
unfolding join
join-append p q [] qs = refl
join-append p q (p' ∷ ps) qs =
    append_assoc p _ _ ∙ ap (λ (t : Text). p ++ (slash ∷ t)) (join-append p' q ps qs)

root_of_nil :
    (path : Text) (segs : List Text) → path ≡ render segs → is_root path ≡ false → segs ≢ []
unfolding render text_eq
root_of_nil path segs e h none_left = ground arith

render-append : (xs ys : List Text) → xs ≢ [] → ys ≢ [] → render xs ++ render ys ≡ render (xs ++ ys)
unfolding render
render-append [] ys h k = absurd (h refl)
render-append (x ∷ xs) [] h k = absurd (k refl)
render-append (x ∷ xs) (y ∷ ys) h k = ap (λ (t : Text). slash ∷ t) (join-append x y xs ys)

-- All three readings of a canonical input are canonical.
absolute_of-IsCanonical :
    (policy : PathPolicy) (path clean : Text)
    → IsCanonical policy.root
    → IsCanonical clean
    → IsCanonical (absolute_of policy path clean)
unfolding absolute_of
absolute_of-IsCanonical policy path clean (xs, hx, ex) (ys, hy, ey) =
    elim (Bool-cases (is_root clean)) [
      | inl top ↦ rw top (xs, hx, ex)
      | inr sub ↦
          elim (Bool-cases (not (starts_with path (slash ∷ [])) && not (is_root policy.root))) [
            | inl joined ↦
                rw (sub, joined)
                  (
                    xs ++ ys,
                    All-append IsSegment xs ys hx hy,
                    rw (ex, ey)
                        (render-append xs ys (root_of_nil policy.root xs ex (ground arith))
                          (root_of_nil clean ys ey sub)),
                  )
            | inr literal ↦ rw (sub, literal) (ys, hy, ey)
          ]
    ]

sanitize_errors :
    (path : Text) {e : PathError}
    → sanitize path ≡ err e
    → (e ≢ PathError.diverged) × (e ≢ PathError.outside_root)
unfolding sanitize
sanitize_errors path h = (λ e. ground arith, λ e. ground arith)

-- The two parts of a resolved path fit together.
abbrev pub Recomposes : PathPolicy → ResolvedPath → Type 0
Recomposes policy found =
    ((found.absolute ≡ policy.root) × (found.relative ≡ []))
    ⊎ (found.absolute ≡ policy.root ++ (slash ∷ found.relative))

resolved_at-Recomposes :
    (policy : PathPolicy) (absolute : Text)
    → is_root policy.root ≡ false
    → IsInside policy.root absolute
    → Recomposes policy (resolved_at policy absolute)
unfolding resolved_at relative_of
resolved_at-Recomposes policy absolute rooted (inl same) =
    inl (same, ground (arith, text_eq_iff absolute policy.root))
resolved_at-Recomposes policy absolute rooted (inr (rest, below)) =
    elim (Bool-cases (text_eq absolute policy.root)) [
      | inl same ↦ inl ((text_eq_iff absolute policy.root).0 same, ground arith)
      | inr other ↦
          let stripped : strip_prefix absolute (policy.root ++ (slash ∷ [])) ≡ some rest =
            rw (below, ← append_assoc policy.root (slash ∷ []) rest)
              (strip_prefix-append (policy.root ++ (slash ∷ [])) rest) in
          inr (ground arith)
    ]

-- The sanitizer refuses the path, or what it made of the path, read once more from the root.
abbrev pub IsRefused : Text → PathError → Type 0
IsRefused path e =
    (sanitize path ≡ err e)
    ⊎ ((clean : Text) × (sanitize path ≡ ok clean) × (sanitize (trim_slashes clean) ≡ err e))

-- The contract of `resolve`: a resolved path is canonical and, on a locked connection, is the
-- root or lies below it, with its relative part spelled from there; a refusal is the sanitizer's.
abbrev pub IsWhitelisted : PathPolicy → Text → Result PathError ResolvedPath → Type 0
IsWhitelisted policy path (ok found) =
    IsCanonical found.absolute
    × (policy.lock_to_root ≡ true → is_root policy.root ≡ false → Recomposes policy found)
IsWhitelisted policy path (err e) =
    IsRefused path e × (e ≢ PathError.diverged) × (e ≢ PathError.outside_root)

sanitize-IsRefused :
    (path : Text) {e : PathError}
    → sanitize path ≡ err e
    → IsRefused path e × (e ≢ PathError.diverged) × (e ≢ PathError.outside_root)
sanitize-IsRefused path h =
    let (searched, locked_out) = sanitize_errors path h in (inl h, searched, locked_out)

resolved_at-IsWhitelisted :
    (policy : PathPolicy) (path absolute : Text)
    → IsCanonical absolute
    → (policy.lock_to_root ≡ true
        → is_root policy.root ≡ false
        → is_under_root policy.root absolute ≡ true)
    → IsWhitelisted policy path (ok (resolved_at policy absolute))
resolved_at-IsWhitelisted policy path absolute canonical h = (
  unfold resolved_at in canonical,
  λ locked rooted.
      resolved_at-Recomposes policy absolute rooted
        (is_under_root→IsInside policy.root absolute (h locked rooted)),
)

relative-IsWhitelisted :
    (fuel : ℕ) (policy : PathPolicy) (path : Text)
    → IsCanonical policy.root
    → starts_with path (slash ∷ []) ≡ false
    → IsWhitelisted policy path (resolve_within (suc fuel) policy path)
unfolding resolve_within
relative-IsWhitelisted fuel policy path root rel = go (sanitize path) refl
  where
    go :
        (r : Result PathError Text)
        → sanitize path ≡ r
        → IsWhitelisted policy path (resolve_within (suc fuel) policy path)
    go (ok clean) e = rw (resolve_relative fuel policy path e rel) (
        resolved_at-IsWhitelisted policy path _
          (absolute_of-IsCanonical policy path clean root (sanitize-IsCanonical path e))
          (λ locked rooted. relative_under_root policy path e rel rooted))
    go (err x) e = rw (e, resolve_within) (sanitize-IsRefused path e)

confine_outside :
    (policy : PathPolicy) (path absolute : Text) (retry : Result PathError ResolvedPath)
    → starts_with path (slash ∷ []) ≡ true
    → policy.lock_to_root ≡ true
    → is_root policy.root ≡ false
    → is_under_root policy.root absolute ≡ false
    → confine policy path absolute retry ≡ retry
unfolding confine
confine_outside policy path absolute retry literal locked rooted out = ground arith

-- A relative path is refused only as the sanitizer refuses it.
relative_refused :
    (fuel : ℕ) (policy : PathPolicy) (path : Text) (e : PathError)
    → starts_with path (slash ∷ []) ≡ false
    → resolve_within (suc fuel) policy path ≡ err e
    → sanitize path ≡ err e
unfolding resolve_within
relative_refused fuel policy path e rel refused = elim (Result-cases (sanitize path)) [
  | inl (x, bad) ↦ ground arith
  | inr (clean, good) ↦ let found = resolve_relative fuel policy path good rel in absurd (cc)
]

-- What is found of the sanitized spelling is found of the path: the sanitizer refuses a second time.
retry-IsWhitelisted :
    (policy : PathPolicy) (path clean : Text) (r : Result PathError ResolvedPath)
    → sanitize path ≡ ok clean
    → ((e : PathError) → r ≡ err e → sanitize (trim_slashes clean) ≡ err e)
    → IsWhitelisted policy (trim_slashes clean) r
    → IsWhitelisted policy path r
retry-IsWhitelisted policy path clean (ok found) cleaned direct h = h
retry-IsWhitelisted policy path clean (err e) cleaned direct h =
    (inr (clean, cleaned, direct e refl), h.1, h.2)

-- A slash-prefixed input is read as it stands, or once more from the root.
confine-IsWhitelisted :
    (policy : PathPolicy) (path absolute : Text) (retry : Result PathError ResolvedPath)
    → starts_with path (slash ∷ []) ≡ true
    → IsCanonical absolute
    → IsWhitelisted policy path retry
    → IsWhitelisted policy path (confine policy path absolute retry)
confine-IsWhitelisted policy path absolute retry literal canonical again =
    elim (Bool-cases (is_under_root policy.root absolute)) [
      | inl under ↦ within (λ locked rooted. under)
      | inr out ↦ elim (Bool-cases policy.lock_to_root) [
        | inr free ↦ within (λ locked rooted. absurd (ground arith))
        | inl locked ↦ elim (Bool-cases (is_root policy.root)) [
          | inl bare ↦ within (λ locked rooted. absurd (ground arith))
          | inr rooted ↦
              rw (confine_outside policy path absolute retry literal locked rooted out) again
        ]
      ]
    ]
  where
    within :
        (policy.lock_to_root ≡ true
          → is_root policy.root ≡ false
          → is_under_root policy.root absolute ≡ true)
        → IsWhitelisted policy path (confine policy path absolute retry)
    within h =
        rw (confine_inside policy path absolute retry h)
          (resolved_at-IsWhitelisted policy path absolute canonical h)

absolute-IsWhitelisted :
    (policy : PathPolicy) (path : Text)
    → IsCanonical policy.root
    → starts_with path (slash ∷ []) ≡ true
    → IsWhitelisted policy path (resolve_within 2 policy path)
unfolding resolve_within
absolute-IsWhitelisted policy path root literal = go (sanitize path) refl
  where
    go :
        (r : Result PathError Text)
        → sanitize path ≡ r
        → IsWhitelisted policy path (resolve_within 2 policy path)
    go (ok clean) e = rw e (
        confine-IsWhitelisted policy path (absolute_of policy path clean)
          (resolve_within 1 policy (trim_slashes clean)) literal
          (absolute_of-IsCanonical policy path clean root (sanitize-IsCanonical path e))
          (retry-IsWhitelisted policy path clean _ e
            (λ x. relative_refused 0 policy (trim_slashes clean) x (trim_slashes_relative clean))
            (relative-IsWhitelisted 0 policy (trim_slashes clean) root
              (trim_slashes_relative clean))))
    go (err x) e = rw (e, resolve_within) (sanitize-IsRefused path e)

-- On a policy with a canonical root, every call of `resolve` meets the contract: a resolved path is
-- canonical and, on a locked connection with a root other than `/`, it is the root with an empty
-- relative part, or the root, a slash and the relative part; a refusal is the very error with which
-- the sanitizer refuses the path, or the sanitized path without its leading slashes, and neither the
-- lock's own error nor the want of fuel.
pub resolve-IsWhitelisted :
    (policy : PathPolicy) (path : Text)
    → IsCanonical policy.root
    → IsWhitelisted policy path (resolve policy path)
unfolding resolve
resolve-IsWhitelisted policy path root = elim (Bool-cases (starts_with path (slash ∷ []))) [
  | inr rel ↦ relative-IsWhitelisted 1 policy path root rel
  | inl literal ↦ absolute-IsWhitelisted policy path root literal
]
