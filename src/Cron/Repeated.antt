-- ===== src/Cron/Repeated.antt =====
-- What `next_after` of backend/src/scheduler/cron.rs answers in an hour that the clocks show twice.
use dbx_plugin_files.Prelude.{
  ℕ, suc, refl, Option-cases, ◌+◌, ◌-◌, ◌*◌, ◌/◌, ◌≤◌, ◌<◌, true, if◌then◌else◌, ltb, none, some,
  ◌≡◌, ◌≢◌, arith, Bool-cases, inl, inr,
}
use dbx_plugin_files.Cron.Fields.{CronExpr}
use dbx_plugin_files.Cron.Next.{Calendar, Zone, day_matches, scan_day, walk_days, next_after_in}
use dbx_plugin_files.Cron.Bits.{has_bit}
use dbx_plugin_files.Cron.Scan.{CalendarLaws, fires, quiet_minutes}
use dbx_plugin_files.Cron.Earliest.{next_after_in-IsNext}

-- A zone whose clocks are put back by an hour at the instant `back`: the hour before it comes twice,
-- and the earliest instant of a minute in it is the one before `back`.
abbrev pub put_back : ℕ → Zone
put_back back = record {
  local = λ instant. if ltb instant back then instant else instant - 3600;
  earliest = λ t. if ltb (t * 60) back then some (t * 60) else some (t * 60 + 3600);
}

put_back-ne-none : (back t : ℕ) → (put_back back).earliest t ≢ none
put_back-ne-none back t e = ground arith

-- In a zone without gaps the walk ends on its first day, if a minute of the rest of that day fires.
walk_days-answers :
    (calendar : Calendar) (zone : Zone) (expr : CronExpr) (rounds naive u : ℕ)
    → ((t : ℕ) → zone.earliest t ≢ none)
    → naive ≤ u
    → u < (naive / 1440 + 1) * 1440
    → fires calendar expr u ≡ true
    → (answer : ℕ) × (walk_days calendar zone expr (suc rounds) naive ≡ some answer)
unfolding walk_days
walk_days-answers calendar zone expr rounds naive u no_gap low high hit =
    let same : u / 1440 ≡ naive / 1440 = omega arith in
    let on_month : has_bit expr.months (calendar.month (naive / 1440)) ≡ true =
      rw (← same) (ground arith) in
    let on_day : day_matches calendar expr (naive / 1440) ≡ true = rw (← same) (ground arith) in
    elim (Option-cases (scan_day calendar expr naive)) [
      | inl nothing ↦ absurd (quiet_minutes calendar expr naive u nothing low high hit)
      | inr (found, scanned) ↦ (elim (Option-cases (zone.earliest found)) [
        | inl gap ↦ absurd (no_gap found gap)
        | inr (zoned, here) ↦ (zoned, rw (walk_days, on_month, on_day, scanned, here) refl)
      ])
    ]

-- In the second pass of the repeated hour, if some minute that the clocks show later in that hour, on
-- the same day, fires, there is an answer and it is an instant before `from`: it is in the first pass.
pub next_after_in_repeats :
    (calendar : Calendar) (laws : CalendarLaws calendar) (expr : CronExpr) (back from u : ℕ)
    → 3600 ≤ back
    → back ≤ from
    → (from - 3600) / 60 + 1 ≤ u
    → u * 60 < back
    → u / 1440 ≡ ((from - 3600) / 60 + 1) / 1440
    → fires calendar expr u ≡ true
    → (answer : ℕ) × (next_after_in calendar (put_back back) expr from ≡ some answer)
      × (answer < from)
unfolding next_after_in
next_after_in_repeats calendar laws expr back from u some_hour second later within one_day hit =
    let shown : (put_back back).local from / 60 + 1 ≡ (from - 3600) / 60 + 1 = ground arith in
    let (answer, e) =
      walk_days-answers calendar (put_back back) expr 19999 ((put_back back).local from / 60 + 1) u
        (put_back-ne-none back) (omega arith) (omega arith) hit in
    let next = next_after_in-IsNext calendar (put_back back) laws expr from answer e in
    (
      answer,
      e,
      (elim (Bool-cases (ltb u next.at)) [
        | inl early ↦
            absurd (put_back-ne-none back u (next.earliest u (ground arith) (ground arith) hit))
        | inr soon ↦ let zoned = next.zoned_at in ground arith
      ]),
    )
