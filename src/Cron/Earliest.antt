-- ===== src/Cron/Earliest.antt =====
-- `next_after` of backend/src/scheduler/cron.rs answers the earliest minute that fires.
use dbx_plugin_files.Prelude.{
  ℕ, zero, suc, ◌+◌, ◌*◌, ◌/◌, ◌≤◌, ◌<◌, true, ◌==◌, ltb, none, some, ◌≡◌, ◌⊎◌, arith, Bool-cases,
  Option-cases, ==_iff, ltb→lt, inl, inr,
}
use dbx_plugin_files.Cron.Bits.{has_bit}
use dbx_plugin_files.Cron.Fields.{CronExpr}
use dbx_plugin_files.Cron.Next.{
  Calendar, Zone, max_day_steps, first_of_next_month, day_matches, scan_day, walk_days,
  next_after_in,
}
use dbx_plugin_files.Cron.Scan.{
  CalendarLaws, fires, quiet_day, quiet_minutes, scan_day-some, quiet_month,
  first_of_next_month_later,
}

module _ (calendar : Calendar) where
  module _ (zone : Zone) where
    -- The answer `zoned` is the earliest firing minute from `naive` on that the zone has.
    pub record IsNext (expr : CronExpr) (naive zoned : ℕ) : Type 0 where
      pub at : ℕ
      pub zoned_at : zone.earliest at ≡ some zoned
      pub not_before : naive ≤ at
      pub matches : fires calendar expr at ≡ true
      pub earliest :
          (u : ℕ) → naive ≤ u → u < at → fires calendar expr u ≡ true → zone.earliest u ≡ none

    -- Minutes that do not fire may be put in front.
    IsNext-sooner :
        (expr : CronExpr) (naive later zoned : ℕ)
        → naive ≤ later
        → ((u : ℕ) → naive ≤ u → u < later → fires calendar expr u ≡ true → zone.earliest u ≡ none)
        → IsNext expr later zoned
        → IsNext expr naive zoned
    IsNext-sooner expr naive later zoned before quiet next = record {
      at = next.at;
      zoned_at = next.zoned_at;
      not_before = omega (arith, next.not_before);
      matches = next.matches;
      earliest = λ u low high hit. elim (Bool-cases (ltb u later)) [
        | inl early ↦ quiet u low (ltb→lt _ _ early) hit
        | inr late ↦ next.earliest u (ground arith) high hit
      ];
    }

    module _ (laws : CalendarLaws calendar) where
      -- On a matching day: the found minute if the zone has it, or what comes behind it.
      found-IsNext :
          (expr : CronExpr) (naive found zoned : ℕ)
          → has_bit expr.months (calendar.month (naive / 1440)) ≡ true
          → day_matches calendar expr (naive / 1440) ≡ true
          → scan_day calendar expr naive ≡ some found
          → (zone.earliest found ≡ some zoned)
            ⊎ ((zone.earliest found ≡ none) × IsNext expr (found + 1) zoned)
          → IsNext expr naive zoned
      found-IsNext expr naive found zoned on_month on_day scanned (inl here) =
          let (low, same, hit, before) = scan_day-some calendar expr naive found scanned in
          record {
            at = found;
            zoned_at = here;
            not_before = low;
            matches = rw same (ground arith);
            earliest =
                λ u from_naive to_found fire. absurd (ground (arith, before u from_naive to_found));
          }
      found-IsNext expr naive found zoned on_month on_day scanned (inr (gap, next)) =
          let (low, same, hit, before) = scan_day-some calendar expr naive found scanned in
          IsNext-sooner expr naive (found + 1) zoned (omega arith)
            (λ u from_naive to_found fire. elim (Bool-cases (u == found)) [
              | inl at_found ↦ rw ((==_iff u found).0 at_found) gap
              | inr earlier ↦ absurd (ground (arith, before u from_naive (ground arith)))
            ])
            next

      walk_days-IsNext :
          (expr : CronExpr) (rounds naive zoned : ℕ)
          → walk_days calendar zone expr rounds naive ≡ some zoned
          → IsNext expr naive zoned
      unfolding walk_days
      walk_days-IsNext expr zero naive zoned e = absurd (cc)
      walk_days-IsNext expr (suc rounds) naive zoned e =
          elim (Bool-cases (has_bit expr.months (calendar.month (naive / 1440)))) [
            | inr off_month ↦ elim (Option-cases (first_of_next_month calendar (naive / 1440))) [
              | inl edge ↦ absurd (ground arith)
              | inr (date, jumped) ↦
                  IsNext-sooner expr naive (date * 1440) zoned
                    (omega (
                      arith,
                      (first_of_next_month_later calendar laws (naive / 1440) date jumped).0,
                    ))
                    (λ u low high hit.
                      absurd
                        (quiet_month calendar laws expr naive date u off_month jumped low high hit))
                    (walk_days-IsNext expr rounds (date * 1440) zoned (ground arith))
            ]
            | inl on_month ↦ elim (Bool-cases (day_matches calendar expr (naive / 1440))) [
              | inr off_day ↦ elim (Option-cases (calendar.succ_opt (naive / 1440))) [
                | inl edge ↦ absurd (ground arith)
                | inr (date, stepped) ↦
                    let next_day = laws.succ_next (naive / 1440) date stepped in
                    IsNext-sooner expr naive (date * 1440) zoned (omega arith)
                      (λ u low high hit.
                        absurd (quiet_day calendar expr naive u off_day low (omega arith) hit))
                      (walk_days-IsNext expr rounds (date * 1440) zoned (ground arith))
              ]
              | inl on_day ↦ elim (Option-cases (scan_day calendar expr naive)) [
                | inl nothing ↦ elim (Option-cases (calendar.succ_opt (naive / 1440))) [
                  | inl edge ↦ absurd (ground arith)
                  | inr (date, stepped) ↦
                      let next_day = laws.succ_next (naive / 1440) date stepped in
                      IsNext-sooner expr naive (date * 1440) zoned (omega arith)
                        (λ u low high hit.
                          absurd
                            (quiet_minutes calendar expr naive u nothing low (omega arith) hit))
                        (walk_days-IsNext expr rounds (date * 1440) zoned (ground arith))
                ]
                | inr (found, scanned) ↦ elim (Option-cases (zone.earliest found)) [
                  | inl gap ↦
                      found-IsNext expr naive found zoned on_month on_day scanned
                        (inr (gap, walk_days-IsNext expr rounds (found + 1) zoned (ground arith)))
                  | inr (z, here) ↦
                      found-IsNext expr naive found zoned on_month on_day scanned
                        (inl (ground arith))
                ]
              ]
            ]
          ]

      -- An answer of `next_after` is the zone's earliest instant of a minute that fires, strictly
      -- behind the minute that the clock shows at `from`, and no minute between the two fires but
      -- in a gap of the zone.
      pub next_after_in-IsNext :
          (expr : CronExpr) (from zoned : ℕ)
          → next_after_in calendar zone expr from ≡ some zoned
          → IsNext expr (zone.local from / 60 + 1) zoned
      unfolding next_after_in
      next_after_in-IsNext expr from zoned e =
          walk_days-IsNext expr max_day_steps (zone.local from / 60 + 1) zoned e
