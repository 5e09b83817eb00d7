-- ===== src/Cron/Meaning.antt =====
-- What a cron field selects, said without the parser of backend/src/scheduler/cron.rs: by the texts of
-- its comma-separated parts, as the doc of `parse_field` has it.
use dbx_plugin_files.Prelude.{
  ℕ, ◌+◌, ◌-◌, ◌%◌, ◌^◌, ◌≤◌, ◌<◌, Bool, true, false, ◌&&◌, ◌||◌, ◌==◌, not, leb, ltb, List, [],
  ◌∷◌, none, some, ok, if◌then◌else◌, ◌≡◌, ◌≢◌, refl, arith, All, any, Option-cases, Result-cases,
  Bool-cases, inl, inr, ◌⊎◌,
}
use dbx_plugin_files.Prelude.Text.{Text, text_eq, split_on, split_once, trim, parse_u32}
use dbx_plugin_files.Cron.Bits.{has_bit, has_bit-zero}
use dbx_plugin_files.Cron.Fields.{
  CronField, Span, star, parse_value, parse_step, parse_range, parse_part, fill_span, parse_parts,
  parse_field,
}
use dbx_plugin_files.Cron.Masks.{covers, fill_span-covers}
use dbx_plugin_files.Cron.Selection.{parse_range_bounds, parse_part-IsSpan}

-- The values of `lo..=hi` at every `n`th.
abbrev pub every : ℕ → ℕ → ℕ → ℕ → Bool
every n lo hi k = leb lo k && leb k hi && (k - lo) % n == 0

-- `*` is the full range and `a-b` the values from a to b; a lone value is itself, or from itself on to
-- the end where a step stands behind it.
abbrev pub range_means : Text → Bool → ℕ → ℕ → ℕ → ℕ → Bool
range_means range stepped n lowest highest k =
    if text_eq range star then every n lowest highest k else elim (split_once b'-' range) [
      | some (a, b) ↦ elim (parse_u32 (trim a)) [
        | none ↦ false
        | some lo ↦ elim (parse_u32 (trim b)) [ none ↦ false | some hi ↦ every n lo hi k ]
      ]
      | none ↦ elim (parse_u32 (trim range)) [
        | none ↦ false
        | some a ↦ if stepped then every n a highest k else a == k
      ]
    ]

abbrev pub part_means : ℕ → ℕ → ℕ → Text → Bool
part_means lowest highest k part = elim (split_once b'/' (trim part)) [
  | some (range, step) ↦ elim (parse_u32 (trim step)) [
    | none ↦ false
    | some n ↦ range_means range true n lowest highest k
  ]
  | none ↦ range_means (trim part) false 1 lowest highest k
]

-- A step of less than 2^31, and not a 1 behind a lone value.
abbrev pub plain_step : Text → ℕ → Bool
plain_step range n =
    ltb n (2 ^ 31)
    && (text_eq range star
        || (elim (split_once b'-' range) [ some ends ↦ true | none ↦ not (n == 1) ]))

abbrev pub step_is_plain : Text → Bool
step_is_plain part = elim (split_once b'/' (trim part)) [
  | some (range, step) ↦ elim (parse_u32 (trim step)) [ none ↦ true | some n ↦ plain_step range n ]
  | none ↦ true
]

one_value : (a k : ℕ) → every 1 a a k ≡ (a == k)
one_value a k = ground arith

parse_range-means :
    (range : Text) (stepped : Bool) (n lowest highest k : ℕ) (what : CronField) {span : Span}
    → (stepped ≡ false → n ≡ 1)
    → (stepped ≡ true → split_once b'-' range ≡ none → text_eq range star ≡ false → n ≢ 1)
    → parse_range range n lowest highest what ≡ ok span
    → covers span k ≡ range_means range stepped n lowest highest k
unfolding parse_range parse_value
parse_range-means range stepped n lowest highest k what {span} bare plain e =
    elim (Bool-cases (text_eq range star)) [
      | inl full ↦ ground arith
      | inr part ↦ elim (Option-cases (split_once b'-' range)) [
        | inr (ends, dashed) ↦ ground arith
        | inl lone ↦ (elim (Bool-cases stepped) [
          | inr off ↦ let one : n ≡ 1 = bare off in ground arith
          | inl on ↦ let several : n ≢ 1 = plain on lone part in ground arith
        ])
      ]
    ]

parse_part-means :
    (part : Text) (lowest highest k : ℕ) (what : CronField) {span : Span}
    → lowest ≤ highest
    → step_is_plain part ≡ true
    → parse_part part lowest highest what ≡ ok span
    → (covers span k ≡ part_means lowest highest k part) × ((span.step ≡ 1) ⊎ (span.step < 2 ^ 31))
unfolding parse_part parse_step
parse_part-means part lowest highest k what {span} ordered plain e =
    elim (Option-cases (split_once b'/' (trim part))) [
      | inl whole ↦
          let ranged : parse_range (trim part) 1 lowest highest what ≡ ok span = ground arith in
          (
            rw (part_means, whole)
                (parse_range-means (trim part) false 1 lowest highest k what (λ bare. refl)
                  (λ on. absurd (cc)) ranged),
            inl (parse_range_bounds (trim part) 1 lowest highest what ordered ranged).2,
          )
      | inr ((range, step), slashed) ↦ (elim (Option-cases (parse_u32 (trim step))) [
        | inl bad ↦ absurd (ground arith)
        | inr (n, read) ↦
            let test : plain_step range n ≡ true = rw (step_is_plain, slashed, read) at plain in
            let several : split_once b'-' range ≡ none → text_eq range star ≡ false → n ≢ 1 =
              λ lone other one. ground arith in
            let ranged : parse_range range n lowest highest what ≡ ok span = ground arith in
            (
              rw (part_means, slashed, read)
                  (parse_range-means range true n lowest highest k what (λ off. absurd (cc))
                    (λ on. several) ranged),
              inr (ground (arith, parse_range_bounds range n lowest highest what ordered ranged)),
            )
      ])
    ]

-- A part that is read covers the values that its text means, and its step cannot wrap.
parse_parts-means :
    (parts : List Text) (lowest highest k : ℕ) (what : CronField) (mask mask' : ℕ)
    → lowest ≤ highest
    → highest < 2 ^ 31
    → All (λ part. step_is_plain part ≡ true) parts
    → parse_parts parts lowest highest what mask ≡ ok mask'
    → has_bit mask' k ≡ (any (part_means lowest highest k) parts || has_bit mask k)
unfolding parse_parts
parse_parts-means [] lowest highest k what mask mask' ordered short plain e = ground arith
parse_parts-means (part ∷ parts) lowest highest k what mask mask' ordered short plain e =
    elim (Result-cases (parse_part part lowest highest what)) [
      | inl (x, refused) ↦ absurd (ground arith)
      | inr (span, parsed) ↦ (elim (Option-cases (fill_span span mask)) [
        | inl stuck ↦ absurd (ground arith)
        | inr (mid, filled) ↦
            let valid = parse_part-IsSpan part lowest highest what ordered parsed in
            let (meant, step) =
              parse_part-means part lowest highest k what ordered plain.0 parsed in
            let room : span.hi + span.step < 2 ^ 32 = omega (arith, valid.below, step) in
            let set = fill_span-covers span mask k valid.positive room filled in
            let rest =
              parse_parts-means parts lowest highest k what mid mask' ordered short plain.1
                (ground arith) in
            ground arith
      ])
    ]

-- A parsed field's mask holds exactly the values that the text of one of its comma-separated parts
-- means: `*` the whole range, `a-b` the values from a to b, a lone value itself or, with a step, the
-- values from it to the end, each at every step; if the field's largest value is below 2^31, no step
-- reaches 2^31, and none behind a lone value is written as 1.
pub parse_field-means :
    (field : Text) (lowest highest k : ℕ) (what : CronField) (mask : ℕ)
    → lowest ≤ highest
    → highest < 2 ^ 31
    → All (λ part. step_is_plain part ≡ true) (split_on b',' field)
    → parse_field field lowest highest what ≡ ok mask
    → has_bit mask k ≡ any (part_means lowest highest k) (split_on b',' field)
unfolding parse_field
parse_field-means field lowest highest k what mask ordered short plain e = ground (
  arith,
  has_bit-zero k,
  parse_parts-means (split_on b',' field) lowest highest k what 0 mask ordered short plain,
)

-- A lone value and the step 1 behind it.
abbrev pub IsLone : Text → ℕ → Type 0
IsLone part value =
    (range : Text) × (step : Text) × (split_once b'/' (trim part) ≡ some (range, step))
    × (parse_u32 (trim step) ≡ some 1)
    × (split_once b'-' range ≡ none)
    × (text_eq range star ≡ false)
    × (parse_u32 (trim range) ≡ some value)

parse_part_lone :
    (part : Text) (lowest highest k value : ℕ) (what : CronField) {span : Span}
    → IsLone part value
    → parse_part part lowest highest what ≡ ok span
    → (covers span k ≡ (value == k)) × (span.hi ≤ highest) × (span.step ≡ 1)
unfolding parse_part parse_step parse_range parse_value
parse_part_lone part lowest highest k value what {span}
      (range, step, slashed, one, lone, other, read) e =
    (ground arith, ground arith, ground arith)

-- A field of one part that is a lone value with the step written as 1, if it is accepted and the
-- field's largest value is below 2^31, selects that value alone, not the values from it to the end.
pub lone_step_one :
    (field : Text) (lowest highest k value : ℕ) (what : CronField) (mask : ℕ)
    → highest < 2 ^ 31
    → split_on b',' field ≡ field ∷ []
    → IsLone field value
    → parse_field field lowest highest what ≡ ok mask
    → has_bit mask k ≡ (value == k)
unfolding parse_field parse_parts
lone_step_one field lowest highest k value what mask short whole alone e =
    elim (Result-cases (parse_part field lowest highest what)) [
      | inl (x, refused) ↦ absurd (ground arith)
      | inr (span, parsed) ↦ (elim (Option-cases (fill_span span 0)) [
        | inl stuck ↦ absurd (ground arith)
        | inr (mid, filled) ↦
            let (meant, below, one) =
              parse_part_lone field lowest highest k value what alone parsed in
            let set = fill_span-covers span 0 k (omega arith) (omega arith) filled in
            ground (arith, has_bit-zero k)
      ])
    ]
