-- ===== src/Cron/Masks.antt =====
-- The bit masks that `parse_field` of backend/src/scheduler/cron.rs builds.
use native.Mathlib.Nat.{mod-eq-sub-mod, mod-eq_of_lt}
use dbx_plugin_files.Prelude.{
  ℕ, zero, suc, ◌+◌, ◌%◌, ◌^◌, ◌-◌, ◌≤◌, ◌<◌, Bool, true, ◌||◌, ◌&&◌, ◌==◌, leb, ltb, some, ◌≡◌,
  ◌⊎◌, arith, Bool-cases, leb→le, inl, inr, ap, ◌∙◌,
}
use dbx_plugin_files.Cron.Bits.{has_bit, set_bit, has_bit-set_bit}
use dbx_plugin_files.Cron.Fields.{Span, fill, fill_span}

-- `k` is one of `lo, lo + step, …` up to `hi`.
abbrev pub covers : Span → ℕ → Bool
covers span k = leb span.lo k && leb k span.hi && (k - span.lo) % span.step == 0

covers_step :
    (value hi step k : ℕ)
    → 0 < step
    → value ≤ hi
    → covers (record { lo = value; hi = hi; step = step }) k
      ≡ (value == k || covers (record { lo = value + step; hi = hi; step = step }) k)
covers_step value hi step k pos h = elim (Bool-cases (leb (value + step) k)) [
  | inl later ↦
      let far : (k - value) % step ≡ (k - (value + step)) % step =
        mod-eq-sub-mod {n = k - value} {m = step} (ground arith)
        ∙ ap (λ (d : ℕ). d % step) (omega arith) in
      ground arith
  | inr sooner ↦ elim (Bool-cases (ltb value k)) [
    | inl between ↦
        let near : (k - value) % step ≡ k - value = mod-eq_of_lt (ground arith) in ground arith
    | inr before ↦
        let none_left : k - value ≡ 0 = ground arith in
        let zero_mod : 0 % step ≡ 0 = mod-eq_of_lt (omega arith) in rw none_left (ground arith)
  ]
]

fill-covers :
    (fuel value hi step mask k : ℕ) {mask' : ℕ}
    → 0 < step
    → hi + step < 2 ^ 32
    → fill fuel value hi step mask ≡ some mask'
    → has_bit mask' k ≡ (covers (record { lo = value; hi = hi; step = step }) k || has_bit mask k)
unfolding fill
fill-covers zero value hi step mask k pos room e = absurd (cc)
fill-covers (suc fuel) value hi step mask k {mask'} pos room e = elim (Bool-cases (leb value hi)) [
  | inl within ↦
      let same : (value + step) % 2 ^ 32 ≡ value + step = mod-eq_of_lt (ground arith) in
      let rest : fill fuel (value + step) hi step (set_bit mask value) ≡ some mask' =
        rw (← same) (ground arith) in
      ground (
        arith,
        fill-covers fuel (value + step) hi step (set_bit mask value) k pos room rest,
        has_bit-set_bit mask value k,
        covers_step value hi step k pos (ground arith),
      )
  | inr past ↦ ground arith
]

fill_up :
    (fuel value hi step mask : ℕ)
    → 0 < step
    → step ≤ hi
    → hi < 2 ^ 16
    → value < 2 ^ 17
    → hi + 1 - value < fuel
    → (mask' : ℕ) × (fill fuel value hi step mask ≡ some mask')
unfolding fill
fill_up zero value hi step mask pos small short low enough = absurd (omega arith)
fill_up (suc fuel) value hi step mask pos small short low enough =
    elim (Bool-cases (leb value hi)) [
      | inl within ↦ rw within (
          fill_up fuel ((value + step) % 2 ^ 32) hi step (set_bit mask value) pos small short
            (ground arith) (ground arith))
      | inr past ↦ (mask, rw past)
    ]

fill_down :
    (fuel value hi step mask : ℕ)
    → hi < step
    → step < 2 ^ 32
    → value < 2 ^ 32
    → value ≤ hi
    → hi < 2 ^ 16
    → value + 1 < fuel
    → (mask' : ℕ) × (fill fuel value hi step mask ≡ some mask')
unfolding fill
fill_down zero value hi step mask big wide low within short enough = absurd (omega arith)
fill_down (suc zero) value hi step mask big wide low within short enough = absurd (omega arith)
fill_down (suc (suc fuel)) value hi step mask big wide low within short enough =
    elim (Bool-cases (leb ((value + step) % 2 ^ 32) hi)) [
      | inl again ↦
          let e : leb value hi ≡ true = ground arith in
          let wrapped : (value + step) % 2 ^ 32 ≤ hi = leb→le _ _ again in
          rw e (
            fill_down (suc fuel) ((value + step) % 2 ^ 32) hi step (set_bit mask value) big wide
              (omega arith) wrapped short (omega arith))
      | inr past ↦ (set_bit mask value, ground arith)
    ]

-- The loop ends for every step of a `u32`, the wrapping ones included.
pub fill_span_total :
    (span : Span) (mask : ℕ)
    → 0 < span.step
    → span.step < 2 ^ 32
    → span.lo ≤ span.hi
    → span.hi < 2 ^ 16
    → (mask' : ℕ) × (fill_span span mask ≡ some mask')
unfolding fill_span
fill_span_total span mask pos wide ordered short = elim (Bool-cases (leb span.step span.hi)) [
  | inl small ↦
      fill_up (span.hi + 2) span.lo span.hi span.step mask pos (leb→le _ _ small) short
        (omega arith) (omega arith)
  | inr big ↦
      fill_down (span.hi + 2) span.lo span.hi span.step mask (ground arith) wide (omega arith)
        ordered short (omega arith)
]

-- Without a wrap the loop sets exactly the values of the span.
pub fill_span-covers :
    (span : Span) (mask k : ℕ) {mask' : ℕ}
    → 0 < span.step
    → span.hi + span.step < 2 ^ 32
    → fill_span span mask ≡ some mask'
    → has_bit mask' k ≡ (covers span k || has_bit mask k)
unfolding fill_span
fill_span-covers span mask k pos room e =
    fill-covers (span.hi + 2) span.lo span.hi span.step mask k pos room e

fill_keeps :
    (fuel value hi step mask k : ℕ) {mask' : ℕ}
    → fill fuel value hi step mask ≡ some mask'
    → has_bit mask k ≡ true
    → has_bit mask' k ≡ true
unfolding fill
fill_keeps zero value hi step mask k e old = absurd (cc)
fill_keeps (suc fuel) value hi step mask k {mask'} e old = elim (Bool-cases (leb value hi)) [
  | inl within ↦
      fill_keeps fuel ((value + step) % 2 ^ 32) hi step (set_bit mask value) k (ground arith)
        (ground (arith, has_bit-set_bit mask value k))
  | inr past ↦ ground arith
]

fill_bounded :
    (fuel value hi step mask k : ℕ) {mask' : ℕ}
    → fill fuel value hi step mask ≡ some mask'
    → has_bit mask' k ≡ true
    → (has_bit mask k ≡ true) ⊎ (k ≤ hi)
unfolding fill
fill_bounded zero value hi step mask k e new = absurd (cc)
fill_bounded (suc fuel) value hi step mask k {mask'} e new = elim (Bool-cases (leb value hi)) [
  | inl within ↦ ground (
    arith,
    fill_bounded fuel ((value + step) % 2 ^ 32) hi step (set_bit mask value) k {mask' = mask'},
    has_bit-set_bit mask value k,
  )
  | inr past ↦ ground arith
]

-- A step of 2^32 - 1 wraps: each round sets the bit below, down to bit 0.
fill_wraps :
    (fuel value hi mask k : ℕ) {mask' : ℕ}
    → value ≤ hi
    → hi < 2 ^ 16
    → k ≤ value
    → fill fuel value hi (2 ^ 32 - 1) mask ≡ some mask'
    → has_bit mask' k ≡ true
unfolding fill
fill_wraps zero value hi mask k within short below e = absurd (cc)
fill_wraps (suc fuel) value hi mask k {mask'} within short below e =
    let rest : fill fuel ((value + (2 ^ 32 - 1)) % 2 ^ 32) hi (2 ^ 32 - 1) (set_bit mask value)
        ≡ some mask' =
      ground arith in
    elim (Bool-cases (value == k)) [
      | inl here ↦
          fill_keeps fuel _ hi (2 ^ 32 - 1) (set_bit mask value) k rest
            (ground (arith, has_bit-set_bit mask value k))
      | inr lower ↦
          let strict : k < value = ground arith in
          fill_wraps fuel ((value + (2 ^ 32 - 1)) % 2 ^ 32) hi (set_bit mask value) k (omega arith)
            short (omega arith) rest
    ]

-- A step of 2^32 - 1 sets every bit from 0 up to the start of the span, those below the field's
-- smallest value included.
pub fill_span_wraps :
    (span : Span) (mask k : ℕ) {mask' : ℕ}
    → span.step ≡ 2 ^ 32 - 1
    → span.lo ≤ span.hi
    → span.hi < 2 ^ 16
    → k ≤ span.lo
    → fill_span span mask ≡ some mask'
    → has_bit mask' k ≡ true
unfolding fill_span
fill_span_wraps span mask k {mask'} huge ordered short below e =
    fill_wraps (span.hi + 2) span.lo span.hi mask k ordered short below (rw huge at e)
