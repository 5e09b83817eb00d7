-- ===== src/Cron/Tests.antt =====
-- Tests of the model of backend/src/scheduler/cron.rs and the theorems at concrete inputs.
use dbx_plugin_files.Prelude.{
  ℕ, ◌+◌, ◌-◌, ◌*◌, ◌/◌, ◌%◌, ◌^◌, ◌<◌, true, false, ◌&&◌, leb, if◌then◌else◌, some, none, ok, ◌≡◌,
  refl, arith, ◌==◌, any,
}
use dbx_plugin_files.Prelude.Text.{
  codes, split_on, split_once, trim, parse_u32, text_eq, trim_start_matches,
}
use dbx_plugin_files.Cron.Bits.{has_bit, set_bit, clear_bit}
use dbx_plugin_files.Cron.Fields.{
  CronField, CronExpr, parse, parse_field, parse_fields, parse_part, parse_range, parse_value,
  parse_step, fill, fill_span,
}
use dbx_plugin_files.Cron.Masks.{fill_span_wraps}
use dbx_plugin_files.Cron.Meaning.{part_means, parse_field-means, lone_step_one}
use dbx_plugin_files.Cron.Next.{
  Calendar, Zone, first_of_next_month, day_rule, day_matches, minute_matches, scan_minutes,
  scan_day, walk_days, next_after_in,
}
use dbx_plugin_files.Cron.Scan.{CalendarLaws}
use dbx_plugin_files.Cron.Repeated.{put_back, next_after_in_repeats}
use dbx_plugin_files.Cron.Earliest.{IsNext, next_after_in-IsNext}

parsing : Unit {0}
unfolding parse parse_field parse_fields parse_part parse_range parse_value parse_step clear_bit
    fill_span fill split_on split_once parse_u32 trim trim_start_matches text_eq set_bit has_bit
parsing = tt

quarter_hours :
    parse (codes "*/15 3 * 1-3 7")
    ≡ ok (record {
      minutes = 1 + 2 ^ 15 + 2 ^ 30 + 2 ^ 45;
      hours = 8;
      days_of_month = 2 ^ 32 - 2;
      months = 14;
      days_of_week = 1;
      dom_any = true;
      dow_any = false;
    })
unfolding parsing
quarter_hours = refl

abbrev five_past : CronExpr
five_past = record {
  minutes = 32;
  hours = 2 ^ 24 - 1;
  days_of_month = 2 ^ 32 - 2;
  months = 2 ^ 13 - 2;
  days_of_week = 127;
  dom_any = true;
  dow_any = true;
}

-- Twelve months of thirty days.
abbrev even_months : Calendar
even_months = record {
  year = λ d. d / 360;
  month = λ d. d % 360 / 30 + 1;
  day = λ d. d % 30 + 1;
  days_from_sunday = λ d. d % 7;
  from_ymd_opt = λ y m d.
      if leb 1 m && leb m 12 && leb 1 d && leb d 30
      then some (y * 360 + (m - 1) * 30 + (d - 1))
      else none;
  succ_opt = λ d. some (d + 1);
}

even_months_laws : CalendarLaws even_months
even_months_laws = record {
  in_order = λ a b h. omega arith;
  days_in_order = λ a b h e. omega arith;
  day_positive = λ a. omega arith;
  month_range = λ a. (omega arith, omega arith);
  of_ymd = λ y m d date e. ground arith;
  succ_next = λ a b e. ground arith;
}

abbrev utc : Zone
utc = record { local = λ i. i; earliest = λ t. some (t * 60) }

walking : Unit {0}
unfolding next_after_in walk_days first_of_next_month day_matches day_rule scan_day scan_minutes
    minute_matches has_bit
walking = tt

parse_field-means_example :
    has_bit (1 + 2 ^ 5 + 2 ^ 20 + 2 ^ 40) 5
    ≡ any (part_means 0 59 5) (split_on b',' (codes "5,*/20"))
unfolding parsing
parse_field-means_example =
    parse_field-means (codes "5,*/20") 0 59 5 CronField.minute (1 + 2 ^ 5 + 2 ^ 20 + 2 ^ 40)
      (omega arith) (omega arith) (refl, (refl, tt)) refl

lone_step_one_example : has_bit (2 ^ 5) 7 ≡ (5 == 7)
unfolding parsing
lone_step_one_example =
    lone_step_one (codes "5/1") 0 59 7 5 CronField.minute (2 ^ 5) (omega arith) refl
      (codes "5", codes "1", refl, refl, refl, refl, refl) refl

abbrev sundays : CronExpr
sundays = record five_past { days_of_week = 1; dow_any = false; minutes = 1; hours = 1 }

fill_span_wraps_example : has_bit 15 1 ≡ true
unfolding fill_span fill set_bit
fill_span_wraps_example =
    fill_span_wraps (record { lo = 3; hi = 59; step = 2 ^ 32 - 1 }) 0 1 {mask' = 15} refl
      (omega arith) (omega arith) (omega arith) refl

next_after_in-IsNext_example : IsNext even_months utc five_past 1 300
unfolding walking
next_after_in-IsNext_example =
    next_after_in-IsNext even_months utc even_months_laws five_past 0 300 refl

abbrev each_minute : CronExpr
each_minute = record five_past { minutes = 2 ^ 60 - 1 }

repeated_hour : next_after_in even_months (put_back 7200) each_minute 7200 ≡ some 3660
unfolding walking
repeated_hour = refl

next_after_in_repeats_example :
    (answer : ℕ) × (next_after_in even_months (put_back 7200) each_minute 7200 ≡ some answer)
    × (answer < 7200)
unfolding walking
next_after_in_repeats_example =
    next_after_in_repeats even_months even_months_laws each_minute 7200 7200 100 (omega arith)
      (omega arith) (omega arith) (omega arith) refl refl
