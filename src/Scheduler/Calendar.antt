-- ===== src/Scheduler/Calendar.antt =====
-- portal/scheduler.py: the calendar that the cadences move over, and instants in it.
use claude_pwa_portal.Base.{
  ℕ, zero, suc, ◌+◌, ◌-◌, ◌*◌, ◌/◌, ◌≤◌, ◌<◌, ◌≡◌, refl, false, arith, ltb, ◌==◌, ℕ-Eq,
  if◌then◌else◌, Bool-cases, inl, inr,
}
use claude_pwa_portal.Scheduler.{
  DateTime, is_leap, days_in_month, days_before_month, ordinal, day_micros, next_day, add_days,
}

-- A date of the calendar with a time of the day.
pub record IsDate (d : DateTime) : Type 0 where
  pub year_from : 1 ≤ d.year
  pub month_from : 1 ≤ d.month
  pub month_to : d.month ≤ 12
  pub day_from : 1 ≤ d.day
  pub day_to : d.day ≤ days_in_month d.year d.month
  pub in_day : d.micros < day_micros

days_before_month-suc :
    (year month : ℕ)
    → 1 ≤ month
    → days_before_month year (suc month) ≡ days_before_month year month + days_in_month year month
unfolding days_before_month
days_before_month-suc year zero h = absurd (omega arith)
days_before_month-suc year (suc month) h = refl

pub days_before_month-year :
    (year : ℕ) → days_before_month year 12 + 31 ≡ (if is_leap year then 366 else 365)
unfolding days_before_month days_in_month
days_before_month-year year = ground arith

-- The days before a year, and the next.
year-days :
    (past : ℕ)
    → (suc past) * 365 + (suc past) / 4 - (suc past) / 100 + (suc past) / 400
      ≡ past * 365 + past / 4 - past / 100 + past / 400 + (if is_leap (suc past) then 366 else 365)
unfolding is_leap
year-days past = ground arith

pub ordinal-new_month :
    (year month : ℕ)
    → 1 ≤ month
    → ordinal year (suc month) 1 ≡ ordinal year month (days_in_month year month) + 1
unfolding ordinal
ordinal-new_month year month h = omega (arith, days_before_month-suc year month h)

pub ordinal-new_year : (year : ℕ) → 1 ≤ year → ordinal (suc year) 1 1 ≡ ordinal year 12 31 + 1
unfolding ordinal
ordinal-new_year zero h = absurd (omega arith)
ordinal-new_year (suc past) h = omega (arith, days_before_month-year (suc past), year-days past)

abbrev pub day_number : DateTime → ℕ
day_number d = ordinal d.year d.month d.day

pub days_in_month_pos : (year month : ℕ) → 1 ≤ days_in_month year month
unfolding days_in_month
days_in_month_pos year month = ground arith

-- The last day of a month, and the first of the next.
last-ordinal :
    (d : DateTime)
    → IsDate d
    → d.day ≡ days_in_month d.year d.month
    → (d.month == 12) ≡ false
    → ordinal d.year (suc d.month) 1 ≡ day_number d + 1
last-ordinal d v last e = rw last (ordinal-new_month d.year d.month v.month_from)

december-ordinal :
    (d : DateTime)
    → IsDate d
    → d.day ≡ days_in_month d.year d.month
    → d.month ≡ 12
    → ordinal (suc d.year) 1 1 ≡ day_number d + 1
unfolding days_in_month
december-ordinal d v last e = rw (last, e) (ordinal-new_year d.year v.year_from)

pub next_day-ordinal : (d : DateTime) → IsDate d → day_number (next_day d) ≡ day_number d + 1
unfolding next_day
next_day-ordinal d v = elim (Bool-cases (ltb d.day (days_in_month d.year d.month))) [
  | inl t ↦ rw t (unfold ordinal in omega arith)
  | inr t ↦ elim (Bool-cases (d.month == 12)) [
    | inl e ↦ rw (t, e) (december-ordinal d v (ground (arith, t, v.day_to)) (ground (arith, e)))
    | inr e ↦ rw (t, e) (last-ordinal d v (ground (arith, t, v.day_to)) e)
  ]
]

pub next_day-IsDate : (d : DateTime) → IsDate d → IsDate (next_day d)
unfolding next_day
next_day-IsDate d v = elim (Bool-cases (ltb d.day (days_in_month d.year d.month))) [
  | inl t ↦ rw t (record {
    year_from = v.year_from;
    month_from = v.month_from;
    month_to = v.month_to;
    day_from = omega arith;
    day_to = ground (arith, t);
    in_day = v.in_day;
  })
  | inr t ↦ elim (Bool-cases (d.month == 12)) [
    | inl e ↦
        rw (t, e)
          (record {
            year_from = omega arith;
            month_from = omega arith;
            month_to = omega arith;
            day_from = omega arith;
            day_to = unfold days_in_month in omega arith;
            in_day = v.in_day;
          })
    | inr e ↦
        rw (t, e)
          (record {
            year_from = v.year_from;
            month_from = omega arith;
            month_to = ground (arith, e, v.month_to);
            day_from = omega arith;
            day_to = days_in_month_pos d.year (suc d.month);
            in_day = v.in_day;
          })
  ]
]

pub add_days-IsDate : (n : ℕ) (d : DateTime) → IsDate d → IsDate (add_days n d)
unfolding add_days
add_days-IsDate zero d v = v
add_days-IsDate (suc n) d v = add_days-IsDate n (next_day d) (next_day-IsDate d v)

pub add_days-ordinal :
    (n : ℕ) (d : DateTime) → IsDate d → day_number (add_days n d) ≡ day_number d + n
unfolding add_days
add_days-ordinal zero d v = omega arith
add_days-ordinal (suc n) d v =
    omega (arith, next_day-ordinal d v, add_days-ordinal n (next_day d) (next_day-IsDate d v))

pub add_days-micros : (n : ℕ) (d : DateTime) → (add_days n d).micros ≡ d.micros
unfolding add_days next_day
add_days-micros zero d = refl
add_days-micros (suc n) d = ground (arith, add_days-micros n (next_day d))
