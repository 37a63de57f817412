-- ===== src/Scheduler/Cadence.antt =====
-- portal/scheduler.py, `compute_next_run`: the next run against the cadence.
use mathlib.Core.Option.{some-injective}
use mathlib.Core.Path.{subst}
use claude_pwa_portal.Base.{
  ℕ, suc, ◌+◌, ◌-◌, ◌*◌, ◌%◌, ◌≤◌, ◌<◌, String, String-Eq, ◌≡◌, refl, ap, ◌∙◌, some, arith, leb,
  ◌==◌, ℕ-Eq, Bool-cases, inl, inr,
}
use claude_pwa_portal.Scheduler.{
  DateTime, days_in_month, ordinal, day_micros, instant, weekday, add_days, at_most, at_time,
  next_daily, next_weekly, month_day, in_month, next_monthly, compute_next_run,
}
use claude_pwa_portal.Scheduler.Calendar.{
  IsDate, day_number, days_in_month_pos, add_days-IsDate, add_days-ordinal, add_days-micros,
  ordinal-new_month, ordinal-new_year,
}

-- The time of the day that a schedule names, in microseconds.
abbrev pub micros_at : ℕ → ℕ → ℕ
micros_at hour minute = (at_most 23 hour * 3600 + at_most 59 minute * 60) * 1000000

micros_at_lt : (hour minute : ℕ) → micros_at hour minute < day_micros
unfolding at_most
micros_at_lt hour minute = ground arith

at_time-IsDate :
    (hour minute : ℕ) (after : DateTime) → IsDate after → IsDate (at_time hour minute after)
unfolding at_time
at_time-IsDate hour minute after v = record {
  year_from = v.year_from;
  month_from = v.month_from;
  month_to = v.month_to;
  day_from = v.day_from;
  day_to = v.day_to;
  in_day = micros_at_lt hour minute;
}

-- A time on a later day is later.
later_day : (a b : DateTime) → IsDate a → day_number a < day_number b → instant a < instant b
unfolding instant
later_day a b v h = omega (arith, v.in_day, h)

weekday-add_days :
    (n : ℕ) (d : DateTime) → IsDate d → weekday (add_days n d) ≡ (day_number d + n + 6) % 7
unfolding weekday
weekday-add_days n d v = ap (λ k. (k + 6) % 7) (add_days-ordinal n d v)

at_most_le : (hi n : ℕ) → at_most hi n ≤ hi
unfolding at_most
at_most_le hi n = ground arith

-- The days to the next day of the week.
week_arith : (n k w : ℕ) → k ≤ 6 → w ≡ (n + 6) % 7 → (n + (k + 7 - w) % 7 + 6) % 7 ≡ k
week_arith n k w h e = omega (arith, h, e)

weekday-number : (d : DateTime) → weekday d ≡ (day_number d + 6) % 7
unfolding weekday
weekday-number d = refl

ordinal_mono : (year month a b : ℕ) → a ≤ b → ordinal year month a ≤ ordinal year month b
unfolding ordinal
ordinal_mono year month a b h = omega (arith, h)

december : (year : ℕ) → days_in_month year 12 ≡ 31
unfolding days_in_month
december year = refl

-- A day of the next month is later than every day of this one.
next_month_later :
    (d : DateTime) (day : ℕ) → IsDate d → 1 ≤ day → day_number d < ordinal d.year (suc d.month) day
next_month_later d day v h = omega (
  arith,
  ordinal_mono d.year d.month d.day (days_in_month d.year d.month) v.day_to,
  ordinal-new_month d.year d.month v.month_from,
  ordinal_mono d.year (suc d.month) 1 day h,
)

next_year_later :
    (d : DateTime) (day : ℕ)
    → IsDate d
    → 1 ≤ day
    → d.month ≡ 12
    → day_number d < ordinal (suc d.year) 1 day
next_year_later d day v h e = omega (
  arith,
  ordinal_mono d.year d.month d.day (days_in_month d.year d.month) v.day_to,
  ap (λ m. ordinal d.year m (days_in_month d.year m)) e,
  ap (ordinal d.year 12) (december d.year),
  ordinal-new_year d.year v.year_from,
  ordinal_mono (suc d.year) 1 1 day h,
)

module _ (base after : DateTime) (vb : IsDate base) (va : IsDate after)
    (same : day_number base ≡ day_number after) where
  next_daily_later :
      (instant after < instant (next_daily base after))
      × (next_daily base after).micros ≡ base.micros
  unfolding next_daily
  next_daily_later = elim (Bool-cases (leb (instant base) (instant after))) [
    | inl t ↦ rw t (
      later_day after (add_days 1 base) va (omega (arith, same, add_days-ordinal 1 base vb)),
      add_days-micros 1 base,
    )
    | inr t ↦ rw t (ground (arith, t), refl)
  ]

  week_days : ℕ → ℕ
  week_days day_of_week = (at_most 6 day_of_week + 7 - weekday base) % 7

  next_weekly_later :
      (day_of_week : ℕ)
      → (instant after < instant (next_weekly day_of_week base after))
        × ((next_weekly day_of_week base after).micros ≡ base.micros)
        × (weekday (next_weekly day_of_week base after) ≡ at_most 6 day_of_week)
  unfolding next_weekly week_days
  next_weekly_later day_of_week =
      let n = week_days day_of_week in
      let candidate = add_days n base in
      let vc = add_days-IsDate n base vb in
      elim (Bool-cases (leb (instant candidate) (instant after))) [
        | inl t ↦ rw t (
          later_day after (add_days 7 candidate) va
              (omega (arith, same, add_days-ordinal n base vb, add_days-ordinal 7 candidate vc)),
          add_days-micros 7 candidate ∙ add_days-micros n base,
          weekday-add_days 7 candidate vc
              ∙ omega (
                arith,
                add_days-ordinal n base vb,
                week_arith (day_number base) (at_most 6 day_of_week) (weekday base)
                    (at_most_le 6 day_of_week) (weekday-number base),
              ),
        )
        | inr t ↦ rw t (
          ground (arith, t),
          add_days-micros n base,
          weekday-add_days n base vb
              ∙ week_arith (day_number base) (at_most 6 day_of_week) (weekday base)
                  (at_most_le 6 day_of_week) (weekday-number base),
        )
      ]

  month_day_from : (day_of_month : ℕ) → 1 ≤ month_day day_of_month
  unfolding month_day at_most
  month_day_from day_of_month = ground arith

  in_month_day : (day_of_month year month : ℕ) → 1 ≤ (in_month day_of_month year month base).day
  unfolding in_month at_most
  in_month_day day_of_month year month =
      ground (arith, month_day_from day_of_month, days_in_month_pos year month)

  before_next_month :
      {day : ℕ} → 1 ≤ day → day_number after < ordinal base.year (suc base.month) day
  before_next_month {day} h = omega (arith, same, next_month_later base day vb h)

  before_next_year :
      {day : ℕ} → 1 ≤ day → base.month ≡ 12 → day_number after < ordinal (suc base.year) 1 day
  before_next_year {day} h e = omega (arith, same, next_year_later base day vb h e)

  -- The day is the one asked for, or the last of its month.
  OnDay : ℕ → DateTime → Type 0
  OnDay day_of_month d = d.day ≡ at_most (days_in_month d.year d.month) (month_day day_of_month)

  next_monthly_later :
      (day_of_month : ℕ)
      → (instant after < instant (next_monthly day_of_month base after))
        × ((next_monthly day_of_month base after).micros ≡ base.micros)
        × OnDay day_of_month (next_monthly day_of_month base after)
  unfolding next_monthly OnDay
  next_monthly_later day_of_month =
      elim (Bool-cases
        (leb (instant (in_month day_of_month base.year base.month base)) (instant after))) [
          | inr t ↦ rw t (ground (arith, t), refl, refl)
          | inl t ↦ elim (Bool-cases (base.month == 12)) [
            | inl e ↦
                rw (t, e)
                  (
                    later_day after (in_month day_of_month (suc base.year) 1 base) va (
                        before_next_year (in_month_day day_of_month (suc base.year) 1)
                          (ground (arith, e))),
                    refl,
                    refl,
                  )
            | inr e ↦
                rw (t, e)
                  (
                    later_day after (in_month day_of_month base.year (suc base.month) base) va
                        (before_next_month (in_month_day day_of_month base.year (suc base.month))),
                    refl,
                    refl,
                  )
          ]
        ]

-- What a cadence asks of the time of a run.
unfoldable pub Fits : String → ℕ → ℕ → ℕ → ℕ → DateTime → Type 0
Fits frequency hour minute day_of_week day_of_month d =
    (d.micros ≡ micros_at hour minute)
    × (frequency ≡ "weekly" → weekday d ≡ at_most 6 day_of_week)
    × (frequency ≡ "monthly"
        → d.day ≡ at_most (days_in_month d.year d.month) (month_day day_of_month))

-- A run that is computed at a time of the calendar lies strictly after it, at the hour and the minute
-- of the schedule, on its day of the week where it is weekly, and where it is monthly on its day of
-- the month or on the last day of a month that has no such day.
pub compute_next_run-Fits :
    (frequency : String) (hour minute day_of_week day_of_month : ℕ) (after : DateTime)
    {run : DateTime}
    → IsDate after
    → compute_next_run frequency hour minute day_of_week day_of_month after ≡ some run
    → (instant after < instant run) × Fits frequency hour minute day_of_week day_of_month run
unfolding compute_next_run Fits at_time OnDay
compute_next_run-Fits frequency hour minute day_of_week day_of_month after {run} v e =
    let base = at_time hour minute after in
    let vb = at_time-IsDate hour minute after v in
    elim (Bool-cases (frequency == "weekly")) [
      | inl w ↦
          let r = next_weekly_later base after vb v refl day_of_week in
          subst
            (λ d.
              (instant after < instant d) × Fits frequency hour minute day_of_week day_of_month d)
            (some-injective _ _ (rw w at e)) (r.0, (r.1, (λ _. r.2), λ h. absurd (cc (rw h at w))))
      | inr w ↦ elim (Bool-cases (frequency == "monthly")) [
        | inl m ↦
            let r = next_monthly_later base after vb v refl day_of_month in
            subst
              (λ d.
                (instant after < instant d) × Fits frequency hour minute day_of_week day_of_month d)
              (some-injective _ _ (rw m at (rw w at e)))
              (r.0, (r.1, (λ h. absurd (cc (rw h at w))), λ _. r.2))
        | inr m ↦ elim (Bool-cases (frequency == "daily")) [
          | inr d ↦ absurd (cc (rw d at (rw m at (rw w at e))))
          | inl d ↦
              let r = next_daily_later base after vb v refl in
              subst
                (λ x.
                  (instant after < instant x)
                  × Fits frequency hour minute day_of_week day_of_month x)
                (some-injective _ _ (rw d at (rw m at (rw w at e))))
                (r.0, (r.1, (λ h. absurd (cc (rw h at w))), λ h. absurd (cc (rw h at m))))
        ]
      ]
    ]
