-- ===== src/Cron/Fields.antt =====
-- Parsing of cron fields and expressions (backend/src/scheduler/cron.rs).
use dbx_plugin_files.Prelude.{
  ℕ, zero, suc, ◌+◌, ◌%◌, ◌^◌, Bool, not, ◌&&◌, ◌==◌, leb, ltb, List, [], ◌∷◌, length, Option, none,
  some, Result, ok, err, ok_or, fail_if, ◌>>=◌, ◌>>◌, if◌then◌else◌,
}
use dbx_plugin_files.Prelude.Text.{
  Text, text_eq, split_on, split_once, split_whitespace, trim, parse_u32,
}
use dbx_plugin_files.Cron.Bits.{has_bit, set_bit, clear_bit}

-- The `what` of an error message.
pub data CronField : Type 0 where
  minute hour day_of_month month day_of_week : CronField

pub data CronError : Type 0 where
  field_count : ℕ → CronError
  empty_field not_a_number step_not_a_number step_zero matches_nothing diverged :
      CronField → CronError
  out_of_range inverted : CronField → ℕ → CronError

abbrev pub star : Text
star = b'*' ∷ []

unfoldable pub parse_value : Text → ℕ → ℕ → CronField → Result CronError ℕ
unfolding parse_u32 trim
parse_value text lowest highest what = do
  value ← ok_or (parse_u32 (trim text)) (CronError.not_a_number what)
  fail_if (not (leb lowest value && leb value highest)) (CronError.out_of_range what value)
  ok value

unfoldable pub parse_step : Text → CronField → Result CronError ℕ
unfolding parse_u32 trim
parse_step text what = do
  step ← ok_or (parse_u32 (trim text)) (CronError.step_not_a_number what)
  fail_if (step == 0) (CronError.step_zero what)
  ok step

-- The values `lo..=hi` at every `step`th.
pub record Span : Type 0 where
  pub lo : ℕ
  pub hi : ℕ
  pub step : ℕ

unfoldable pub parse_range : Text → ℕ → ℕ → ℕ → CronField → Result CronError Span
parse_range range_text step lowest highest what =
    if text_eq range_text star
    then ok (record { lo = lowest; hi = highest; step = step })
    else elim (split_once b'-' range_text) [
      | some (a, b) ↦ do
        lo ← parse_value a lowest highest what
        hi ← parse_value b lowest highest what
        ok (record { lo = lo; hi = hi; step = step })
      | none ↦ do
        value ← parse_value range_text lowest highest what
        ok (record { lo = value; hi = if step == 1 then value else highest; step = step })
    ]

-- One comma-separated part, up to the test `lo > hi`.
unfoldable pub parse_part : Text → ℕ → ℕ → CronField → Result CronError Span
unfolding parse_range
parse_part part lowest highest what = do
  span ← elim (split_once b'/' (trim part)) [
    | some (range, step_text) ↦ do
      step ← parse_step step_text what
      parse_range range step lowest highest what
    | none ↦ parse_range (trim part) 1 lowest highest what
  ]
  fail_if (ltb span.hi span.lo) (CronError.inverted what span.lo)
  ok span

-- `while value <= hi { mask |= 1 << value; value += step; }`, where `value` is a `u32` that wraps.
-- `none` means that the fuel ran out.
unfoldable pub fill : ℕ → ℕ → ℕ → ℕ → ℕ → Option ℕ
fill zero value hi step mask = none
fill (suc fuel) value hi step mask =
    let rest = fill fuel ((value + step) % 2 ^ 32) hi step (set_bit mask value) in
    if leb value hi then rest else some mask

-- Each round takes another value of `0..=hi`, so `hi + 2` rounds are enough.
unfoldable pub fill_span : Span → ℕ → Option ℕ
unfolding fill
fill_span span mask = fill (span.hi + 2) span.lo span.hi span.step mask

unfoldable pub parse_parts : List Text → ℕ → ℕ → CronField → ℕ → Result CronError ℕ
unfolding parse_part fill_span
parse_parts [] lowest highest what mask = ok mask
parse_parts (part ∷ parts) lowest highest what mask = do
  span ← parse_part part lowest highest what
  mask' ← ok_or (fill_span span mask) (CronError.diverged what)
  parse_parts parts lowest highest what mask'

unfoldable pub parse_field : Text → ℕ → ℕ → CronField → Result CronError ℕ
unfolding parse_parts
parse_field field lowest highest what = do
  fail_if (text_eq (trim field) []) (CronError.empty_field what)
  mask ← parse_parts (split_on b',' field) lowest highest what 0
  fail_if (mask == 0) (CronError.matches_nothing what)
  ok mask

pub record CronExpr : Type 0 where
  pub minutes : ℕ
  pub hours : ℕ
  pub days_of_month : ℕ
  pub months : ℕ
  pub days_of_week : ℕ
  pub dom_any : Bool
  pub dow_any : Bool

-- `(days_of_week & !(1 << 7)) | 1` where bit 7 is set.
unfoldable pub fold_sunday : ℕ → ℕ
fold_sunday mask = if has_bit mask 7 then set_bit (clear_bit mask 7) 0 else mask

unfoldable pub parse_fields : List Text → Result CronError CronExpr
unfolding fold_sunday
parse_fields (f0 ∷ f1 ∷ f2 ∷ f3 ∷ f4 ∷ []) = do
  minutes ← parse_field f0 0 59 CronField.minute
  hours ← parse_field f1 0 23 CronField.hour
  days_of_month ← parse_field f2 1 31 CronField.day_of_month
  months ← parse_field f3 1 12 CronField.month
  days_of_week ← parse_field f4 0 7 CronField.day_of_week
  ok (record {
    minutes = minutes;
    hours = hours;
    days_of_month = days_of_month;
    months = months;
    days_of_week = fold_sunday days_of_week;
    dom_any = text_eq (trim f2) star;
    dow_any = text_eq (trim f4) star;
  })
parse_fields fields = err (CronError.field_count (length fields))

unfoldable pub parse : Text → Result CronError CronExpr
unfolding parse_fields parse_field split_whitespace trim
parse text = parse_fields (split_whitespace (trim text))
