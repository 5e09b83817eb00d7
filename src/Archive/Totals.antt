-- ===== src/Archive/Totals.antt =====
-- The length that a PAX record of backend/src/archive.rs states.
use dbx_plugin_files.Prelude.{
  ℕ, zero, suc, ◌+◌, ◌/◌, ◌%◌, ◌≤◌, ◌<◌, ◌≡◌, ◌≢◌, ◌⊎◌, inl, inr, refl, List, [], ◌∷◌, ◌++◌, length,
  ltb, ◌==◌, arith, Bool-cases, Result, ok, length-append,
}
use dbx_plugin_files.Prelude.Text.{codes}
use dbx_plugin_files.Archive.Paths.{ArchiveError}
use dbx_plugin_files.Archive.Writer.{
  decimal, to_string, record_total_from, record_total, pax_record,
}

decimal_grows : (rounds a b : ℕ) → a ≤ b → length (decimal rounds a) ≤ length (decimal rounds b)
unfolding decimal
decimal_grows zero a b h = omega arith
decimal_grows (suc rounds) a b h =
    let ih = decimal_grows rounds (a / 10) (b / 10) (omega arith) in
    ground (
      arith,
      length-append (decimal rounds (a / 10)) ((48 + a % 10) ∷ []),
      length-append (decimal rounds (b / 10)) ((48 + b % 10) ∷ []),
    )

decimal_bound : (rounds a : ℕ) → length (decimal rounds a) ≤ rounds
unfolding decimal
decimal_bound zero a = omega arith
decimal_bound (suc rounds) a =
    let ih = decimal_bound rounds (a / 10) in
    ground (arith, length-append (decimal rounds (a / 10)) ((48 + a % 10) ∷ []))

decimal_some : (rounds a : ℕ) → 0 < length (decimal (suc rounds) a)
unfolding decimal
decimal_some rounds a = ground (arith, length-append (decimal rounds (a / 10)) ((48 + a % 10) ∷ []))

to_string_grows : (a b : ℕ) → a ≤ b → length (to_string a) ≤ length (to_string b)
unfolding to_string
to_string_grows a b h = decimal_grows 20 a b h

to_string_bound : (a : ℕ) → length (to_string a) ≤ 20
unfolding to_string
to_string_bound a = decimal_bound 20 a

to_string_some : (a : ℕ) → 0 < length (to_string a)
unfolding to_string
to_string_some a = decimal_some 19 a

abbrev Total : ℕ → Result ArchiveError ℕ → Type 0
Total len r = (total : ℕ) × (r ≡ ok total) × (total ≡ length (to_string total) + len + 7)

-- A round that does not end either grows the number of digits, or is the last but one.
still_left :
    (fuel len total d d' : ℕ)
    → d ≤ 20
    → d ≤ d'
    → (22 ≤ suc fuel + d) ⊎ ((0 < suc fuel) × (total ≡ d + len + 7))
    → total ≢ d + len + 7
    → (22 ≤ fuel + d') ⊎ ((0 < fuel) × (d + 1 + 5 + len + 1 ≡ d' + len + 7))
still_left fuel len total d d' bound longer (inr (some_left, last)) differs = absurd (differs last)
still_left fuel len total d d' bound longer (inl long) differs = elim (Bool-cases (ltb d d')) [
  | inl grows ↦ inl (ground arith)
  | inr same ↦ inr (ground arith, ground arith)
]

record_total_from-Total :
    (fuel len total : ℕ)
    → total ≤ length (to_string total) + len + 7
    → (22 ≤ fuel + length (to_string total))
      ⊎ ((0 < fuel) × (total ≡ length (to_string total) + len + 7))
    → Total len (record_total_from fuel len total)
unfolding record_total_from
record_total_from-Total zero len total below (inl long) =
    absurd (omega (arith, to_string_bound total))
record_total_from-Total zero len total below (inr (none_left, last)) = absurd (omega arith)
record_total_from-Total (suc fuel) len total below enough =
    let next = length (to_string total) + 1 + 5 + len + 1 in
    let longer = to_string_grows total next (omega arith) in
    let bound = to_string_bound total in
    elim (Bool-cases (next == total)) [
      | inl same ↦ (total, rw same refl, ground arith)
      | inr differs ↦
          let (found, answer, states) = record_total_from-Total fuel len next (omega arith) (
            still_left fuel len total (length (to_string total)) (length (to_string next)) bound
              longer enough (ground arith)) in
          (found, rw differs answer, states)
    ]

-- The record that carries a long path has exactly the length that it states in front, for every path:
-- the loop for that length ends.
pub pax_record-Total :
    (path : List ℕ)
    → (line : List ℕ) × (pax_record path ≡ ok line)
      × (line ≡ to_string (length line) ++ (codes " path=" ++ (path ++ (10 ∷ []))))
unfolding pax_record record_total
pax_record-Total path =
    let len = length path in
    let (total, answer, states) =
      record_total_from-Total 22 len (len + 8) (omega (arith, to_string_some (len + 8)))
        (inl (omega arith)) in
    let line = to_string total ++ (codes " path=" ++ (path ++ (10 ∷ []))) in
    let size : length line ≡ total = omega (
      arith,
      states,
      length-append (to_string total) (codes " path=" ++ (path ++ (10 ∷ []))),
      length-append (codes " path=") (path ++ (10 ∷ [])),
      length-append path (10 ∷ []),
    ) in
    (line, rw answer refl, rw size refl)
