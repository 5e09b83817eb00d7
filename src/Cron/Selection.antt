-- ===== src/Cron/Selection.antt =====
-- What `parse_field` and `parse` of backend/src/scheduler/cron.rs answer.
use dbx_plugin_files.Prelude.{
  ℕ, ◌^◌, ◌≤◌, ◌<◌, false, ◌||◌, ◌==◌, List, [], ◌∷◌, Result, ok, err, bind-ne-err, if◌then◌else◌,
  ◌≡◌, ◌≢◌, refl, arith,
}
use dbx_plugin_files.Prelude.Text.{Text, split_on, split_whitespace, trim, parse_u32-lt}
use dbx_plugin_files.Cron.Bits.{has_bit, clear_bit, has_bit-set_bit, has_bit-clear_bit}
use dbx_plugin_files.Cron.Fields.{
  CronField, CronError, CronExpr, Span, parse_value, parse_step, parse_range, parse_part,
  parse_parts, parse_field, fold_sunday, parse_fields, parse,
}
use dbx_plugin_files.Cron.Masks.{fill_span_total}

-- What a parsed part guarantees of its span.
pub record IsSpan (lowest highest : ℕ) (span : Span) : Type 0 where
  pub above : lowest ≤ span.lo
  pub ordered : span.lo ≤ span.hi
  pub below : span.hi ≤ highest
  pub positive : 0 < span.step
  pub word : span.step < 2 ^ 32

parse_value_bounds :
    (text : Text) (lowest highest : ℕ) (what : CronField) {value : ℕ}
    → parse_value text lowest highest what ≡ ok value
    → (lowest ≤ value) × (value ≤ highest)
unfolding parse_value
parse_value_bounds text lowest highest what e = ground arith

parse_step_bounds :
    (text : Text) (what : CronField) {step : ℕ}
    → parse_step text what ≡ ok step
    → (0 < step) × (step < 2 ^ 32)
unfolding parse_step
parse_step_bounds text what {step} e = ground (arith, parse_u32-lt (trim text) step)

pub parse_range_bounds :
    (text : Text) (step lowest highest : ℕ) (what : CronField) {span : Span}
    → lowest ≤ highest
    → parse_range text step lowest highest what ≡ ok span
    → (lowest ≤ span.lo) × (span.hi ≤ highest) × (span.step ≡ step)
unfolding parse_range
parse_range_bounds text step lowest highest what {span} ordered e =
    grind (arith, parse_value_bounds)

pub parse_part-IsSpan :
    (part : Text) (lowest highest : ℕ) (what : CronField) {span : Span}
    → lowest ≤ highest
    → parse_part part lowest highest what ≡ ok span
    → IsSpan lowest highest span
unfolding parse_part
parse_part-IsSpan part lowest highest what {span} ordered e =
    grind (arith, parse_step_bounds, parse_range_bounds)

parse_value-ne-diverged :
    (text : Text) (lowest highest : ℕ) (what any : CronField)
    → parse_value text lowest highest what ≢ err (CronError.diverged any)
unfolding parse_value
parse_value-ne-diverged text lowest highest what any e = ground arith

parse_range-ne-diverged :
    (text : Text) (step lowest highest : ℕ) (what any : CronField)
    → parse_range text step lowest highest what ≢ err (CronError.diverged any)
unfolding parse_range
parse_range-ne-diverged text step lowest highest what any e = grind (arith, parse_value-ne-diverged)

parse_part-ne-diverged :
    (part : Text) (lowest highest : ℕ) (what any : CronField)
    → parse_part part lowest highest what ≢ err (CronError.diverged any)
unfolding parse_part parse_step
parse_part-ne-diverged part lowest highest what any e = grind (arith, parse_range-ne-diverged)

parse_parts-ne-diverged :
    (parts : List Text) (lowest highest : ℕ) (what any : CronField) (mask : ℕ)
    → lowest ≤ highest
    → highest < 2 ^ 16
    → parse_parts parts lowest highest what mask ≢ err (CronError.diverged any)
unfolding parse_parts
parse_parts-ne-diverged [] lowest highest what any mask ordered short e = absurd (cc)
parse_parts-ne-diverged (part ∷ parts) lowest highest what any mask ordered short e =
    go (λ mid. parse_parts-ne-diverged parts lowest highest what any mid ordered short)
      (parse_part part lowest highest what) refl
  where
    go :
        ((mid : ℕ) → parse_parts parts lowest highest what mid ≢ err (CronError.diverged any))
        → (r : Result CronError Span) → parse_part part lowest highest what ≡ r
        → ⊥
    go rest (err x) parsed = ground (arith, parse_part-ne-diverged part lowest highest what any)
    go rest (ok span) parsed =
        let valid = parse_part-IsSpan part lowest highest what ordered parsed in
        let (mid, filled) =
          fill_span_total span mask valid.positive valid.word valid.ordered (omega arith) in
        ground (arith, rest mid)

parse_field-ne-diverged :
    (field : Text) (lowest highest : ℕ) (what any : CronField)
    → lowest ≤ highest
    → highest < 2 ^ 16
    → parse_field field lowest highest what ≢ err (CronError.diverged any)
unfolding parse_field
parse_field-ne-diverged field lowest highest what any ordered short e =
    ground
      (arith, parse_parts-ne-diverged (split_on b',' field) lowest highest what any 0 ordered short)

parse_fields-ne-diverged :
    (fields : List Text) (any : CronField) → parse_fields fields ≢ err (CronError.diverged any)
unfolding parse_fields
parse_fields-ne-diverged (f0 ∷ f1 ∷ f2 ∷ f3 ∷ f4 ∷ []) any =
    bind-ne-err _ _ _ (parse_field-ne-diverged f0 0 59 _ any (omega arith) (omega arith)) λ minutes.
      bind-ne-err _ _ _ (parse_field-ne-diverged f1 0 23 _ any (omega arith) (omega arith)) λ hours.
        bind-ne-err _ _ _ (parse_field-ne-diverged f2 1 31 _ any (omega arith) (omega arith))
          λ days.
            bind-ne-err _ _ _ (parse_field-ne-diverged f3 1 12 _ any (omega arith) (omega arith))
              λ months.
                bind-ne-err _ _ _ (parse_field-ne-diverged f4 0 7 _ any (omega arith) (omega arith))
                  λ weekdays e. ground arith
parse_fields-ne-diverged fields any = λ e. ground arith

-- Parsing always ends: whatever the text, the fuel of the bit loop never runs out.
pub parse-ne-diverged : (text : Text) (any : CronField) → parse text ≢ err (CronError.diverged any)
unfolding parse
parse-ne-diverged text any e = parse_fields-ne-diverged (split_whitespace (trim text)) any e

-- Weekday 7 becomes Sunday: the mask that an expression keeps has no bit 7, bit 0 where the parsed
-- field had bit 0 or bit 7, and every other bit as parsed.
pub parse_fields_weekday :
    (f0 f1 f2 f3 f4 : Text) (expr : CronExpr) (mask k : ℕ)
    → parse_fields (f0 ∷ f1 ∷ f2 ∷ f3 ∷ f4 ∷ []) ≡ ok expr
    → parse_field f4 0 7 CronField.day_of_week ≡ ok mask
    → has_bit expr.days_of_week k ≡ (
        if k == 7
        then false
        else if k == 0
        then has_bit mask 0 || has_bit mask 7
        else has_bit mask k)
unfolding parse_fields fold_sunday
parse_fields_weekday f0 f1 f2 f3 f4 expr mask k e parsed =
    ground (arith, has_bit-set_bit (clear_bit mask 7) 0 k, has_bit-clear_bit mask 7 k)
