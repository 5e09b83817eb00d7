-- ===== src/Archive/Confined.antt =====
-- What the zip-slip guard of backend/src/archive.rs lets through.
use dbx_plugin_files.Prelude.{
  ◌≡◌, inl, inr, false, ◌==◌, List, [], ◌∷◌, arith, All, Bool-cases, Result-cases, Result, ok, err,
  bind-ok, ◌>>=◌,
}
use dbx_plugin_files.Prelude.Text.{Text, text_eq, contains, split_on, join, trim, Lacks}
use dbx_plugin_files.Prelude.Split.{split_on-Lacks, split_on-All, any→All}
use dbx_plugin_files.Policy.Segments.{slash, backslash, is_skipped, is_parent}
use dbx_plugin_files.Archive.Paths.{ArchiveError, keep_components, normalized, sanitize_entry_path}

-- A plain component: neither empty nor a step to the same or the parent directory, and undivided.
pub record IsComponent (part : Text) : Type 0 where
  pub kept : is_skipped part ≡ false
  pub down : is_parent part ≡ false
  pub whole : Lacks slash part
  pub plain : Lacks backslash part

-- A relative path: components with a slash between, one at least.
abbrev pub IsConfined : Text → Type 0
IsConfined path =
    (part : Text) × (parts : List Text) × All IsComponent (part ∷ parts)
    × (path ≡ join slash (part ∷ parts))

abbrev KeptIsComponent : Result ArchiveError (List Text) → Type 0
KeptIsComponent (ok kept) = All IsComponent kept
KeptIsComponent (err fault) = Unit

keep_components-IsComponent :
    (parts : List Text)
    → All (Lacks slash) parts
    → All (Lacks backslash) parts
    → KeptIsComponent (keep_components parts)
unfolding keep_components
keep_components-IsComponent [] s b = tt
keep_components-IsComponent (part ∷ parts) s b =
    let ih = keep_components-IsComponent parts s.1 b.1 in
    elim (Bool-cases (is_skipped part)) [
      | inl skip ↦ rw skip ih
      | inr keep ↦ (elim (Bool-cases (is_parent part)) [
        | inl up ↦ rw (keep, up) tt
        | inr down ↦ (elim (Result-cases (keep_components parts)) [
          | inl (fault, bad) ↦ rw (keep, down, bad) tt
          | inr (kept, good) ↦
              let rest : All IsComponent kept = rw good at ih in
              rw (keep, down, good)
                (record { kept = keep; down = down; whole = s.0; plain = b.0 }, rest)
        ])
      ])
    ]

normalized-IsConfined :
    (kept : List Text) (path : Text)
    → All IsComponent kept
    → normalized kept ≡ ok path
    → IsConfined path
unfolding normalized text_eq join
normalized-IsConfined [] path parts h = absurd (ground arith)
normalized-IsConfined (part ∷ kept) path parts h =
    elim (Bool-cases (text_eq (join slash (part ∷ kept)) [])) [
      | inl empty ↦ absurd (ground arith)
      | inr full ↦ (part, kept, parts, ground arith)
    ]

-- What is left of the guard behind its tests on the whole name.
walked-IsConfined :
    (name path : Text)
    → contains backslash name ≡ false
    → (keep_components (split_on slash name) >>= normalized) ≡ ok path
    → IsConfined path
unfolding contains
walked-IsConfined name path plain h =
    let (kept, (walked, made)) =
      bind-ok (keep_components (split_on slash name)) normalized path h in
    let parts =
      keep_components-IsComponent (split_on slash name) (split_on-Lacks slash name)
        (split_on-All slash (λ c. (c == backslash) ≡ false) name (any→All _ name plain)) in
    let rest : All IsComponent kept = rw walked at parts in
    normalized-IsConfined kept path rest made

-- A path that the guard lets through has no leading slash, and is made of one component at least, none
-- of which is empty, `.`, `..` or holds a slash or a backslash. A component can still be a drive's name.
pub sanitize_entry_path-IsConfined :
    (name path : Text) → sanitize_entry_path name ≡ ok path → IsConfined path
unfolding sanitize_entry_path
sanitize_entry_path-IsConfined raw path h =
    let name = trim raw in walked-IsConfined name path (ground arith) (ground arith)
