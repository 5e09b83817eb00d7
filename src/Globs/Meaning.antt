-- ===== src/Globs/Meaning.antt =====
-- What the patterns of backend/src/mcp/tools.rs mean, and that the searches decide it.
use dbx_plugin_files.Prelude.{
  ℕ, ◌≡◌, ◌↔◌, refl, sym, ap, subst, inl, inr, Bool, true, List, [], ◌∷◌, ◌++◌, arith, ◌==◌, ==_iff,
  if◌then◌else◌, Bool-cases,
}
use dbx_plugin_files.Prelude.Text.{Text, codes, text_eq, contains, split_on, trim_start_matches}
use dbx_plugin_files.Globs.Matching.{
  any_suffix, match_one, segment_match, match_segment, match_segments, last_part, glob_match,
}

-- A list is some first part, of any length, and a rest with the property.
abbrev pub Behind : {A : Type 0} → (List A → Type 0) → List A → Type 0
Behind {A} P xs = (front : List A) × ((rest : List A) × ((xs ≡ front ++ rest) × P rest))

-- A list is one element with a property and a rest with another.
abbrev pub OneThen : {A : Type 0} → (A → Type 0) → (List A → Type 0) → List A → Type 0
OneThen {A} Q P xs = (x : A) × ((rest : List A) × ((xs ≡ x ∷ rest) × (Q x × P rest)))

-- `*` stands for any characters, `?` for one, and any other character for itself.
abbrev pub Matches : Text → Text → Type 0
Matches [] text = text ≡ []
Matches (c ∷ pattern) text =
    if c == b'*'
    then Behind (Matches pattern) text
    else OneThen (λ d. if c == b'?' then Unit {0} else c ≡ d) (Matches pattern) text

-- `**` stands for any segments, and any other segment for one that it matches.
abbrev pub MatchesPath : List Text → List Text → Type 0
MatchesPath [] path = path ≡ []
MatchesPath (first ∷ pattern) path =
    if text_eq first (codes "**")
    then Behind (MatchesPath pattern) path
    else OneThen (Matches first) (MatchesPath pattern) path

append_nil_rest : {A : Type 0} (front rest : List A) → [] ≡ front ++ rest → rest ≡ []
append_nil_rest [] rest e = sym e
append_nil_rest (x ∷ front) rest e = absurd (cc)

any_cons :
    {A : Type 0} (f : List A → Bool) (P : List A → Type 0) (x : A) (xs : List A)
    → ((ys : List A) → (f ys ≡ true) ↔ P ys)
    → (Behind P xs → any_suffix f xs ≡ true)
    → (front rest : List A) → x ∷ xs ≡ front ++ rest
    → P rest
    → any_suffix f (x ∷ xs) ≡ true
unfolding any_suffix
any_cons f P x xs h later [] rest e p =
    let now : f (x ∷ xs) ≡ true = (h (x ∷ xs)).1 (subst P (sym e) p) in rw now refl
any_cons f P x xs h later (y ∷ front) rest e p =
    let tails : xs ≡ front ++ rest = cc in
    let found = later (front, (rest, (tails, p))) in
    elim (Bool-cases (f (x ∷ xs))) [ inl now ↦ rw now refl | inr past ↦ rw past found ]

any_suffix_iff :
    {A : Type 0} (f : List A → Bool) (P : List A → Type 0)
    → ((xs : List A) → (f xs ≡ true) ↔ P xs)
    → (xs : List A) → (any_suffix f xs ≡ true) ↔ Behind P xs
unfolding any_suffix
any_suffix_iff f P h [] = (
  λ t. ([], ([], (refl, (h []).0 t))),
  λ (front, (rest, (e, p))). (h []).1 (subst P (append_nil_rest front rest e) p),
)
any_suffix_iff f P h (x ∷ xs) = (
  λ t. elim (Bool-cases (f (x ∷ xs))) [
    | inl now ↦ ([], (x ∷ xs, (refl, (h (x ∷ xs)).0 now)))
    | inr past ↦
        let (front, (rest, (e, p))) = (any_suffix_iff f P h xs).0 (ground arith) in
        (x ∷ front, (rest, (ap (◌∷◌ x) e, p)))
  ],
  λ (front, (rest, (e, p))). any_cons f P x xs h (any_suffix_iff f P h xs).1 front rest e p,
)

match_one_iff :
    (c : ℕ) (f : Text → Bool) (P : Text → Type 0)
    → ((text : Text) → (f text ≡ true) ↔ P text)
    → (text : Text)
    → (match_one c f text ≡ true) ↔ OneThen (λ d. if c == b'?' then Unit {0} else c ≡ d) P text
unfolding match_one
match_one_iff c f P h [] = (λ t. absurd (cc), λ (x, (rest, (e, both))). absurd (cc))
match_one_iff c f P h (d ∷ text) = elim (Bool-cases (c == b'?')) [
  | inl any_one ↦ rw any_one (
    λ t. (d, (text, (refl, (tt, (h text).0 t)))),
    λ (x, (rest, (e, (u, p)))). let tails : rest ≡ text = cc in (h text).1 (subst P tails p),
  )
  | inr itself ↦ rw itself (
    λ t. (d, (text, (refl, (ground (arith, ==_iff c d), (h text).0 (ground arith))))),
    λ (x, (rest, (e, (same, p)))).
        let tails : rest ≡ text = cc in
        let heads : c ≡ d = cc in
        let found = (h text).1 (subst P tails p) in
        let equal = (==_iff c d).1 heads in rw equal found,
  )
]

pub segment_match_iff :
    (pattern text : Text) → (segment_match pattern text ≡ true) ↔ Matches pattern text
unfolding segment_match
segment_match_iff [] [] = (λ h. refl, λ h. refl)
segment_match_iff [] (d ∷ text) = (λ h. absurd (cc), λ h. absurd (cc))
segment_match_iff (c ∷ pattern) text = elim (Bool-cases (c == b'*')) [
  | inl star ↦
      rw star
        (any_suffix_iff (segment_match pattern) (Matches pattern) (segment_match_iff pattern) text)
  | inr other ↦
      rw other
        (match_one_iff c (segment_match pattern) (Matches pattern) (segment_match_iff pattern) text)
]

match_segment_iff :
    (first : Text) (f : List Text → Bool) (P : List Text → Type 0)
    → ((path : List Text) → (f path ≡ true) ↔ P path)
    → (path : List Text) → (match_segment first f path ≡ true) ↔ OneThen (Matches first) P path
unfolding match_segment
match_segment_iff first f P h [] = (λ t. absurd (cc), λ (x, (rest, (e, both))). absurd (cc))
match_segment_iff first f P h (head ∷ tail) = (
  λ t. (
    head,
    (tail, (refl, ((segment_match_iff first head).0 (ground arith), (h tail).0 (ground arith)))),
  ),
  λ (x, (rest, (e, (m, p)))).
      let tails : rest ≡ tail = cc in
      let heads : x ≡ head = cc in
      let here = (segment_match_iff first head).1 (subst (Matches first) heads m) in
      let there = (h tail).1 (subst P tails p) in rw here there,
)

match_segments_iff :
    (pattern path : List Text) → (match_segments pattern path ≡ true) ↔ MatchesPath pattern path
unfolding match_segments
match_segments_iff [] [] = (λ h. refl, λ h. refl)
match_segments_iff [] (head ∷ tail) = (λ h. absurd (cc), λ h. absurd (cc))
match_segments_iff (first ∷ pattern) path = elim (Bool-cases (text_eq first (codes "**"))) [
  | inl stars ↦ rw stars (
      any_suffix_iff (match_segments pattern) (MatchesPath pattern) (match_segments_iff pattern)
        path)
  | inr other ↦ rw other (
      match_segment_iff first (match_segments pattern) (MatchesPath pattern)
        (match_segments_iff pattern) path)
]

-- A pattern with a slash is about the path's segments, any other about the base name.
abbrev pub Means : Text → Text → Type 0
Means pattern text =
    if contains b'/' pattern
    then MatchesPath (split_on b'/' (trim_start_matches (λ c. c == b'/') pattern))
        (split_on b'/' (trim_start_matches (λ c. c == b'/') text))
    else Matches pattern (last_part (split_on b'/' text))

-- The searches answer true exactly when the text is what the pattern means: `**` any segments, `*`
-- any characters of a segment, `?` one, anything else itself.
pub glob_match_iff : (pattern text : Text) → (glob_match pattern text ≡ true) ↔ Means pattern text
unfolding glob_match
glob_match_iff pattern text = elim (Bool-cases (contains b'/' pattern)) [
  | inl path ↦ rw path (match_segments_iff _ _)
  | inr name ↦ rw name (segment_match_iff _ _)
]
