-- ===== src/Cron/Scan.antt =====
-- Which minutes fire, and what one round of the loops of `next_after` skips
-- (backend/src/scheduler/cron.rs).
use dbx_plugin_files.Prelude.{
  ℕ, zero, suc, ◌+◌, ◌*◌, ◌/◌, ◌%◌, ◌-◌, ◌≤◌, ◌<◌, Bool, true, false, ◌&&◌, ◌==◌, ltb, none, some,
  ◌≡◌, ◌≢◌, arith, Bool-cases, ==_iff, ltb→lt, inl, inr,
}
use dbx_plugin_files.Cron.Bits.{has_bit}
use dbx_plugin_files.Cron.Fields.{CronExpr}
use dbx_plugin_files.Cron.Next.{
  Calendar, first_of_next_month, day_matches, minute_matches, scan_minutes, scan_day,
}

-- What the chrono documentation says of dates: they are ordered by year, month and day, days count
-- from 1 and months from 1 to 12, a date made of a year, month and day has these, and the successor
-- is the next day.
pub record CalendarLaws (calendar : Calendar) : Type 0 where
  pub in_order :
      (a b : ℕ)
      → a ≤ b
      → calendar.year a * 12 + calendar.month a ≤ calendar.year b * 12 + calendar.month b
  pub days_in_order :
      (a b : ℕ)
      → a < b
      → calendar.year a * 12 + calendar.month a ≡ calendar.year b * 12 + calendar.month b
      → calendar.day a < calendar.day b
  pub day_positive : (a : ℕ) → 1 ≤ calendar.day a
  pub month_range : (a : ℕ) → (1 ≤ calendar.month a) × (calendar.month a ≤ 12)
  pub of_ymd :
      (y m d date : ℕ)
      → calendar.from_ymd_opt y m d ≡ some date
      → (calendar.year date ≡ y) × (calendar.month date ≡ m) × (calendar.day date ≡ d)
  pub succ_next : (a b : ℕ) → calendar.succ_opt a ≡ some b → b ≡ a + 1

module _ (calendar : Calendar) where
  -- The minute matches the month, the day rule, the hour and the minute fields.
  abbrev pub fires : CronExpr → ℕ → Bool
  fires expr t =
      has_bit expr.months (calendar.month (t / 1440))
      && day_matches calendar expr (t / 1440)
      && minute_matches calendar expr t

  scan_minutes-some :
      (expr : CronExpr) (left cursor t : ℕ)
      → scan_minutes calendar expr left cursor ≡ some t
      → (cursor ≤ t)
        × (t < cursor + left)
        × (minute_matches calendar expr t ≡ true)
        × ((u : ℕ) → cursor ≤ u → u < t → minute_matches calendar expr u ≡ false)
  unfolding scan_minutes
  scan_minutes-some expr zero cursor t e = absurd (cc)
  scan_minutes-some expr (suc left) cursor t e =
      elim (Bool-cases (minute_matches calendar expr cursor)) [
        | inl hit ↦
            let same : cursor ≡ t = ground arith in
            (omega arith, omega arith, rw (← same) hit, λ u low high. absurd (omega arith))
        | inr miss ↦
            let (low, high, hit, before) =
              scan_minutes-some expr left (cursor + 1) t (rw miss at e) in
            (
              omega arith,
              omega arith,
              hit,
              λ u from_cursor to_t. elim (Bool-cases (u == cursor)) [
                | inl same ↦ rw ((==_iff u cursor).0 same) miss
                | inr later ↦ before u (ground arith) to_t
              ],
            )
      ]

  scan_minutes-none :
      (expr : CronExpr) (left cursor u : ℕ)
      → scan_minutes calendar expr left cursor ≡ none
      → cursor ≤ u
      → u < cursor + left
      → minute_matches calendar expr u ≡ false
  unfolding scan_minutes
  scan_minutes-none expr zero cursor u e h k = absurd (omega arith)
  scan_minutes-none expr (suc left) cursor u e h k =
      elim (Bool-cases (minute_matches calendar expr cursor)) [
        | inl hit ↦ absurd (ground arith)
        | inr miss ↦ elim (Bool-cases (u == cursor)) [
          | inl same ↦ rw ((==_iff u cursor).0 same) miss
          | inr later ↦
              scan_minutes-none expr left (cursor + 1) u (rw miss at e) (ground arith) (omega arith)
        ]
      ]

  -- A day that does not match is quiet to its end.
  pub quiet_day :
      (expr : CronExpr) (naive u : ℕ)
      → day_matches calendar expr (naive / 1440) ≡ false
      → naive ≤ u
      → u < (naive / 1440 + 1) * 1440
      → fires expr u ≡ true
      → ⊥
  quiet_day expr naive u off low high hit =
      let same : u / 1440 ≡ naive / 1440 = omega arith in
      let off' : day_matches calendar expr (u / 1440) ≡ false = rw same off in ground arith

  -- A day whose remaining minutes do not match is quiet to its end.
  pub quiet_minutes :
      (expr : CronExpr) (naive u : ℕ)
      → scan_day calendar expr naive ≡ none
      → naive ≤ u
      → u < (naive / 1440 + 1) * 1440
      → fires expr u ≡ true
      → ⊥
  unfolding scan_day
  quiet_minutes expr naive u off low high hit =
      let off' = scan_minutes-none expr (1440 - naive % 1440) naive u off low (omega arith) in
      ground arith

  -- The scan's answer lies in the day.
  pub scan_day-some :
      (expr : CronExpr) (naive found : ℕ)
      → scan_day calendar expr naive ≡ some found
      → (naive ≤ found)
        × (found / 1440 ≡ naive / 1440)
        × (minute_matches calendar expr found ≡ true)
        × ((u : ℕ) → naive ≤ u → u < found → minute_matches calendar expr u ≡ false)
  unfolding scan_day
  scan_day-some expr naive found e =
      let (low, high, hit, before) = scan_minutes-some expr (1440 - naive % 1440) naive found e in
      (low, omega arith, hit, before)

  module _ (laws : CalendarLaws calendar) where
    next_month_key :
        (date next : ℕ)
        → first_of_next_month calendar date ≡ some next
        → (calendar.year next * 12 + calendar.month next
            ≡ calendar.year date * 12 + calendar.month date + 1)
          × (calendar.day next ≡ 1)
    unfolding first_of_next_month
    next_month_key date next e = elim (Bool-cases (calendar.month date == 12)) [
      | inl december ↦
          let (y, m, d) = laws.of_ymd (calendar.year date + 1) 1 1 next (ground arith) in
          let last : calendar.month date ≡ 12 = (==_iff _ _).0 december in (omega arith, d)
      | inr other ↦
          let (y, m, d) =
            laws.of_ymd (calendar.year date) (calendar.month date + 1) 1 next (ground arith) in
          (omega arith, d)
    ]

    -- The jump leaves the month, and skips no day of another month.
    pub first_of_next_month_later :
        (date next : ℕ)
        → first_of_next_month calendar date ≡ some next
        → (date < next) × ((x : ℕ) → date ≤ x → x < next → calendar.month x ≡ calendar.month date)
    first_of_next_month_later date next e =
        let (key, first) = next_month_key date next e in
        (
          elim (Bool-cases (ltb date next)) [
            | inl later ↦ ltb→lt _ _ later
            | inr stuck ↦ absurd (omega (arith, laws.in_order next date (ground arith)))
          ],
          λ x low high.
              elim (Bool-cases (
                calendar.year x * 12 + calendar.month x
                == calendar.year next * 12 + calendar.month next)) [
                  | inl same ↦ absurd (
                      omega (
                        arith,
                        laws.days_in_order x next high ((==_iff _ _).0 same),
                        laws.day_positive x,
                      ))
                  | inr differs ↦
                      let apart : calendar.year x * 12 + calendar.month x
                          ≢ calendar.year next * 12 + calendar.month next =
                        ground arith in
                      omega (
                        arith,
                        laws.in_order date x low,
                        laws.in_order x next (omega arith),
                        laws.month_range x,
                        laws.month_range date,
                      )
                ],
        )

    pub quiet_month :
        (expr : CronExpr) (naive date u : ℕ)
        → has_bit expr.months (calendar.month (naive / 1440)) ≡ false
        → first_of_next_month calendar (naive / 1440) ≡ some date
        → naive ≤ u
        → u < date * 1440
        → fires expr u ≡ true
        → ⊥
    quiet_month expr naive date u off jumped low high hit =
        let (later, same) = first_of_next_month_later (naive / 1440) date jumped in
        let same_month = same (u / 1440) (omega arith) (omega arith) in
        let off' : has_bit expr.months (calendar.month (u / 1440)) ≡ false = rw same_month off in
        ground arith
