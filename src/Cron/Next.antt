-- ===== src/Cron/Next.antt =====
-- `next_after` of backend/src/scheduler/cron.rs. A naive local time is a count of whole minutes:
-- its date is the day number `t / 1440`, and its clock is `t % 1440`. The calendar and the time
-- zone are those of the `chrono` crate: parameters, with their documented behaviour as laws.
use dbx_plugin_files.Prelude.{
  ℕ, zero, suc, ◌+◌, ◌*◌, ◌/◌, ◌%◌, ◌^◌, ◌-◌, Bool, true, false, ◌||◌, ◌&&◌, ◌==◌, ltb, Option,
  none, some, if◌then◌else◌,
}
use dbx_plugin_files.Cron.Bits.{has_bit}
use dbx_plugin_files.Cron.Fields.{CronExpr}

-- The queries of a `NaiveDate` that the code makes, at a day number.
pub record Calendar : Type 0 where
  pub year : ℕ → ℕ
  pub month : ℕ → ℕ
  pub day : ℕ → ℕ
  pub days_from_sunday : ℕ → ℕ
  pub from_ymd_opt : ℕ → ℕ → ℕ → Option ℕ
  pub succ_opt : ℕ → Option ℕ

-- `local` takes an instant (in seconds) to the local seconds that the zone's clocks show, and
-- `earliest` is `from_local_datetime(..).earliest()` at a local minute: `none` in a spring gap, the
-- first of two instants in an autumn overlap.
pub record Zone : Type 0 where
  pub local : ℕ → ℕ
  pub earliest : ℕ → Option ℕ

abbrev pub day_minutes : ℕ
day_minutes = 1440

abbrev pub max_day_steps : ℕ
max_day_steps = 20000

module _ (calendar : Calendar) where
  open calendar use {year, month, day, days_from_sunday, from_ymd_opt, succ_opt}

  -- The first day of the next month; its midnight is `and_hms_opt(0, 0, 0)`.
  unfoldable pub first_of_next_month : ℕ → Option ℕ
  first_of_next_month date =
      if month date == 12
      then from_ymd_opt (year date + 1) 1 1
      else from_ymd_opt (year date) (month date + 1) 1

  unfoldable pub day_rule : Bool → Bool → Bool → Bool → Bool
  day_rule true true dom dow = true
  day_rule true false dom dow = dow
  day_rule false true dom dow = dom
  day_rule false false dom dow = dom || dow

  unfoldable pub day_matches : CronExpr → ℕ → Bool
  unfolding day_rule
  day_matches expr date =
      day_rule expr.dom_any expr.dow_any (has_bit expr.days_of_month (day date))
        (has_bit expr.days_of_week (days_from_sunday date))

  unfoldable pub minute_matches : CronExpr → ℕ → Bool
  minute_matches expr t = has_bit expr.hours (t % 1440 / 60) && has_bit expr.minutes (t % 60)

  -- The scan of `scan_day` over the minutes left in the day.
  unfoldable pub scan_minutes : CronExpr → ℕ → ℕ → Option ℕ
  scan_minutes expr zero cursor = none
  scan_minutes expr (suc left) cursor =
      let rest = scan_minutes expr left (cursor + 1) in
      if minute_matches expr cursor then some cursor else rest

  unfoldable pub scan_day : CronExpr → ℕ → Option ℕ
  scan_day expr start = scan_minutes expr (1440 - start % 1440) start

  module _ (zone : Zone) where
    -- The `for` loop; the first argument is the rounds left.
    unfoldable pub walk_days : CronExpr → ℕ → ℕ → Option ℕ
    walk_days expr zero naive = none
    walk_days expr (suc rounds) naive = elim (has_bit expr.months (month (naive / 1440))) [
      | false ↦ elim (first_of_next_month (naive / 1440)) [
        | none ↦ none
        | some date ↦ walk_days expr rounds (date * 1440)
      ]
      | true ↦ elim (day_matches expr (naive / 1440)) [
        | false ↦ elim (succ_opt (naive / 1440)) [
          | none ↦ none
          | some date ↦ walk_days expr rounds (date * 1440)
        ]
        | true ↦ elim (scan_day expr naive) [
          | some found ↦ elim (zone.earliest found) [
            | some zoned ↦ some zoned
            | none ↦ walk_days expr rounds (found + 1)
          ]
          | none ↦ elim (succ_opt (naive / 1440)) [
            | none ↦ none
            | some date ↦ walk_days expr rounds (date * 1440)
          ]
        ]
      ]
    ]

    -- `truncate_to_minute` drops the seconds.
    unfoldable pub next_after_in : CronExpr → ℕ → Option ℕ
    next_after_in expr from = walk_days expr max_day_steps (zone.local from / 60 + 1)

    -- `is_representable` is whether chrono has the instant; u64 values above the i64 range fail first.
    unfoldable pub next_fire_millis : (ℕ → Bool) → CronExpr → ℕ → Option ℕ
    next_fire_millis is_representable expr now =
        if ltb now (2 ^ 63) && is_representable now
        then (elim (next_after_in expr (now / 1000)) [
          | none ↦ none
          | some next ↦ some (next * 1000)
        ])
        else none
