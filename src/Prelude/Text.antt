-- ===== src/Prelude/Text.antt =====
-- Rust strings as lists of code points, with the `str` methods that the sources call.
use Prim.Native.Nat.{ℕ, ◌-◌, ◌+◌, ◌*◌, ◌^◌, ◌<◌}
use Prim.Native.Char.{code}
use Prim.Native.String.{String}
use mathlib.Core.Path.{◌≡◌, refl}
use mathlib.Core.Logic.{◌↔◌, ◌≢◌, inl, inr}
use mathlib.Core.Bool.{Bool, true, false, ◌&&◌, ◌||◌}
use mathlib.Core.Option.{Option, none, some}
use mathlib.Core.List.{List, [], ◌∷◌, ◌++◌, map, reverse}
use native.Mathlib.Omega.{arith}
use dbx_plugin_files.Prelude.Tests.{◌==◌, leb, ltb, if◌then◌else◌, ==_iff, ==_refl, Bool-cases}
use dbx_plugin_files.Prelude.Lists.{any, All}

abbrev pub Text : Type 0
Text = List ℕ

-- The code points of a literal.
abbrev pub codes : String → Text
codes String.[] = []
codes (String.◌∷◌ c s) = code c ∷ codes s

-- `a == b` on strings.
unfoldable pub text_eq : Text → Text → Bool
text_eq [] [] = true
text_eq (a ∷ s) (b ∷ t) = a == b && text_eq s t
text_eq _ _ = false

-- `s.starts_with(prefix)`.
unfoldable pub starts_with : Text → Text → Bool
starts_with s [] = true
starts_with [] (b ∷ t) = false
starts_with (a ∷ s) (b ∷ t) = a == b && starts_with s t

-- `s.strip_prefix(prefix)`.
unfoldable pub strip_prefix : Text → Text → Option Text
strip_prefix s [] = some s
strip_prefix [] (b ∷ t) = none
strip_prefix (a ∷ s) (b ∷ t) = let rest = strip_prefix s t in if a == b then rest else none

-- `s.contains(c)`.
unfoldable pub contains : ℕ → Text → Bool
contains c = any (λ d. d == c)

-- `s.replace(from, to)` at single characters.
unfoldable pub replace : ℕ → ℕ → Text → Text
replace from to = map (λ c. if c == from then to else c)

unfoldable pub cons_head : ℕ → List Text → List Text
cons_head c [] = (c ∷ []) ∷ []
cons_head c (part ∷ parts) = (c ∷ part) ∷ parts

-- `s.split(sep)`: one part more than there are separators.
unfoldable pub split_on : ℕ → Text → List Text
unfolding cons_head
split_on sep [] = [] ∷ []
split_on sep (c ∷ s) =
    let parts = split_on sep s in if c == sep then [] ∷ parts else cons_head c parts

-- `s.split_once(sep)`: around the first separator.
unfoldable pub split_once : ℕ → Text → Option (Text × Text)
split_once sep [] = none
split_once sep (c ∷ s) =
    let rest = split_once sep s in
    if c == sep
    then some ([], s)
    else (elim rest [ none ↦ none | some (before, after) ↦ some (c ∷ before, after) ])

-- `parts.join(sep)`.
unfoldable pub join : ℕ → List Text → Text
join sep [] = []
join sep (part ∷ []) = part
join sep (part ∷ next ∷ parts) = part ++ (sep ∷ join sep (next ∷ parts))

-- `s.trim_start_matches(p)`.
unfoldable pub trim_start_matches : (ℕ → Bool) → Text → Text
trim_start_matches p [] = []
trim_start_matches p (c ∷ s) = let rest = trim_start_matches p s in if p c then rest else c ∷ s

-- `s.trim_end_matches(p)`.
unfoldable pub trim_end_matches : (ℕ → Bool) → Text → Text
trim_end_matches p s = reverse (trim_start_matches p (reverse s))

-- `char::is_control`: the Unicode category Cc.
unfoldable pub is_control : ℕ → Bool
is_control c = leb c 31 || (leb 127 c && leb c 159)

-- `char::is_whitespace`: the Unicode property White_Space.
unfoldable pub is_whitespace : ℕ → Bool
is_whitespace c =
    (leb 9 c && leb c 13)
    || c == 32
    || c == 0x85
    || c == 0xa0
    || c == 0x1680
    || (leb 0x2000 c && leb c 0x200a)
    || c == 0x2028
    || c == 0x2029
    || c == 0x202f
    || c == 0x205f
    || c == 0x3000

-- `s.trim()`.
unfoldable pub trim : Text → Text
unfolding is_whitespace trim_end_matches trim_start_matches
trim s = trim_end_matches is_whitespace (trim_start_matches is_whitespace s)

drop_empty : List Text → List Text
drop_empty [] = []
drop_empty ([] ∷ parts) = drop_empty parts
drop_empty ((c ∷ part) ∷ parts) = (c ∷ part) ∷ drop_empty parts

-- `s.split_whitespace()`: the maximal runs without white space.
unfoldable pub split_whitespace : Text → List Text
unfolding drop_empty is_whitespace split_on
split_whitespace s = drop_empty (split_on 32 (map (λ c. if is_whitespace c then 32 else c) s))

digit_step : ℕ → ℕ → ℕ → Option ℕ
digit_step limit acc c =
    if leb b'0' c && leb c b'9'
    then (let v = acc * 10 + (c - 48) in if ltb v limit then some v else none)
    else none

digits_value : ℕ → ℕ → Text → Option ℕ
digits_value limit acc [] = some acc
digits_value limit acc (c ∷ s) = elim (digit_step limit acc c) [
  | none ↦ none
  | some v ↦ digits_value limit v s
]

-- `s.parse::<u32>()`: decimal digits behind an optional `+`, below 2^32.
unfoldable pub parse_u32 : Text → Option ℕ
unfolding digit_step digits_value
parse_u32 [] = none
parse_u32 (c ∷ []) = digits_value (2 ^ 32) 0 (c ∷ [])
parse_u32 (c ∷ d ∷ s) =
    if c == b'+' then digits_value (2 ^ 32) 0 (d ∷ s) else digits_value (2 ^ 32) 0 (c ∷ d ∷ s)

-- `s.parse::<u64>()`: the same below 2^64.
unfoldable pub parse_u64 : Text → Option ℕ
unfolding digit_step digits_value
parse_u64 [] = none
parse_u64 (c ∷ []) = digits_value (2 ^ 64) 0 (c ∷ [])
parse_u64 (c ∷ d ∷ s) =
    if c == b'+' then digits_value (2 ^ 64) 0 (d ∷ s) else digits_value (2 ^ 64) 0 (c ∷ d ∷ s)

-- `u8::is_ascii_alphabetic`.
unfoldable pub is_ascii_alphabetic : ℕ → Bool
is_ascii_alphabetic c = (leb b'a' c && leb c b'z') || (leb b'A' c && leb c b'Z')

-- The text holds no `c`.
abbrev pub Lacks : ℕ → Text → Type 0
Lacks c = All (λ d. (d == c) ≡ false)

pub text_eq_refl : (s : Text) → text_eq s s ≡ true
unfolding text_eq
text_eq_refl [] = refl
text_eq_refl (a ∷ s) = ground (arith, text_eq_refl s, ==_refl a)

pub text_eq→eq : (s t : Text) → text_eq s t ≡ true → s ≡ t
unfolding text_eq
text_eq→eq [] [] h = refl
text_eq→eq [] (b ∷ t) h = cc
text_eq→eq (a ∷ s) [] h = cc
text_eq→eq (a ∷ s) (b ∷ t) h = ground (arith, text_eq→eq s t, ==_iff a b)

pub text_eq_iff : (s t : Text) → (text_eq s t ≡ true) ↔ (s ≡ t)
text_eq_iff s t = (text_eq→eq s t, λ e. ground (arith, text_eq_refl s))

pub text_eq_of_ne : (s t : Text) → s ≢ t → text_eq s t ≡ false
text_eq_of_ne s t h = elim (Bool-cases (text_eq s t)) [
  | inl same ↦ absurd (h (text_eq→eq s t same))
  | inr other ↦ other
]

pub starts_with-append : (p s : Text) → starts_with (p ++ s) p ≡ true
unfolding starts_with
starts_with-append [] s = refl
starts_with-append (a ∷ p) s = ground (arith, starts_with-append p s, ==_refl a)

pub strip_prefix-append : (p s : Text) → strip_prefix (p ++ s) p ≡ some s
unfolding strip_prefix
strip_prefix-append [] s = refl
strip_prefix-append (a ∷ p) s = ground (arith, strip_prefix-append p s, ==_refl a)

pub strip_prefix→append : (s p r : Text) → strip_prefix s p ≡ some r → s ≡ p ++ r
unfolding strip_prefix
strip_prefix→append s [] r h = cc
strip_prefix→append [] (b ∷ p) r h = cc
strip_prefix→append (a ∷ s) (b ∷ p) r h = ground (arith, strip_prefix→append s p r, ==_iff a b)

-- A text with the prefix is the prefix and a rest.
pub starts_with→append : (s p : Text) → starts_with s p ≡ true → (r : Text) × (s ≡ p ++ r)
unfolding starts_with
starts_with→append s [] h = (s, refl)
starts_with→append [] (b ∷ p) h = absurd (cc)
starts_with→append (a ∷ s) (b ∷ p) h = elim (Bool-cases (a == b)) [
  | inl same ↦ let (r, e) = starts_with→append s p (ground arith) in (r, ground (arith, ==_iff a b))
  | inr other ↦ absurd (ground arith)
]

pub append-ne-nil : (s t : Text) (c : ℕ) → s ++ (c ∷ t) ≢ []
append-ne-nil [] t c h = cc
append-ne-nil (a ∷ s) t c h = cc

digits_value-lt :
    (limit acc : ℕ) (s : Text) (v : ℕ) → acc < limit → digits_value limit acc s ≡ some v → v < limit
unfolding digits_value digit_step
digits_value-lt limit acc [] v h e = ground arith
digits_value-lt limit acc (c ∷ s) v h e =
    ground (arith, digits_value-lt limit (acc * 10 + (c - 48)) s v)

pub parse_u32-lt : (s : Text) (v : ℕ) → parse_u32 s ≡ some v → v < 2 ^ 32
unfolding parse_u32
parse_u32-lt (c ∷ []) v e = digits_value-lt (2 ^ 32) 0 (c ∷ []) v (omega arith) e
parse_u32-lt (c ∷ d ∷ s) v e =
    ground (arith, digits_value-lt (2 ^ 32) 0 (d ∷ s) v, digits_value-lt (2 ^ 32) 0 (c ∷ d ∷ s) v)
parse_u32-lt [] v e = absurd (cc)

pub parse_u64-lt : (s : Text) (v : ℕ) → parse_u64 s ≡ some v → v < 2 ^ 64
unfolding parse_u64
parse_u64-lt (c ∷ []) v e = digits_value-lt (2 ^ 64) 0 (c ∷ []) v (omega arith) e
parse_u64-lt (c ∷ d ∷ s) v e =
    ground (arith, digits_value-lt (2 ^ 64) 0 (d ∷ s) v, digits_value-lt (2 ^ 64) 0 (c ∷ d ∷ s) v)
parse_u64-lt [] v e = absurd (cc)
