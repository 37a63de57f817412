-- ===== src/Scheduler.antt =====
-- portal/scheduler.py: the recurring runs of an app's tools. A `datetime` in UTC is its date and the
-- microseconds since midnight; the calendar is that of Python's `datetime`.
pub mod Calendar
pub mod Cadence
pub mod Ticker
use claude_pwa_portal.Base.{
  ℕ, zero, suc, ◌+◌, ◌-◌, ◌*◌, ◌/◌, ◌%◌, String, Text, Text-Eq, Bool, true, false, not, ◌&&◌, ◌||◌,
  Option, none, some, List, [], ◌∷◌, ltb, leb, ◌==◌, String-Eq, ℕ-Eq, if◌then◌else◌,
}

pub record DateTime : Type 0 where
  pub year : ℕ
  pub month : ℕ
  pub day : ℕ
  pub micros : ℕ

unfoldable pub is_leap : ℕ → Bool
is_leap year = year % 4 == 0 && (not (year % 100 == 0) || year % 400 == 0)

-- `calendar.monthrange(year, month)[1]`
unfoldable pub days_in_month : ℕ → ℕ → ℕ
unfolding is_leap
days_in_month year month =
    if month == 2
    then (if is_leap year then 29 else 28)
    else if month == 4 || month == 6 || month == 9 || month == 11
    then 30
    else 31

-- The days of the year before the first of the month.
unfoldable pub days_before_month : ℕ → ℕ → ℕ
unfolding days_in_month
days_before_month year zero = 0
days_before_month year (suc zero) = 0
days_before_month year (suc (suc month)) =
    days_before_month year (suc month) + days_in_month year (suc month)

-- `date.toordinal()`
unfoldable pub ordinal : ℕ → ℕ → ℕ → ℕ
unfolding days_before_month
ordinal year month day =
    let past = year - 1 in
    past * 365 + past / 4 - past / 100 + past / 400 + days_before_month year month + day

abbrev pub day_micros : ℕ
day_micros = 86400000000

-- The order of `datetime`s is that of their distances from the beginning of the calendar.
unfoldable pub instant : DateTime → ℕ
unfolding ordinal
instant d = ordinal d.year d.month d.day * day_micros + d.micros

-- `date.weekday()`, 0 on a Monday
unfoldable pub weekday : DateTime → ℕ
unfolding ordinal
weekday d = (ordinal d.year d.month d.day + 6) % 7

unfoldable pub next_day : DateTime → DateTime
unfolding days_in_month
next_day d =
    if ltb d.day (days_in_month d.year d.month)
    then record d { day = suc d.day }
    else if d.month == 12
    then record d { year = suc d.year; month = 1; day = 1 }
    else record d { month = suc d.month; day = 1 }

-- `d + timedelta(days=n)`
unfoldable pub add_days : ℕ → DateTime → DateTime
unfolding next_day
add_days zero d = d
add_days (suc n) d = add_days n (next_day d)

-- `min` of two numbers; below 0 no number of the model is.
unfoldable pub at_most : ℕ → ℕ → ℕ
at_most hi n = if leb n hi then n else hi

-- `after.replace(hour=…, minute=…, second=0, microsecond=0)`
unfoldable pub at_time : ℕ → ℕ → DateTime → DateTime
unfolding at_most
at_time hour minute after = record after {
  micros = (at_most 23 hour * 3600 + at_most 59 minute * 60) * 1000000;
}

unfoldable pub next_daily : DateTime → DateTime → DateTime
unfolding instant add_days
next_daily base after = if leb (instant base) (instant after) then add_days 1 base else base

-- `(dow - base.weekday()) % 7`, which Python takes to be at least 0
unfoldable pub next_weekly : ℕ → DateTime → DateTime → DateTime
unfolding instant add_days weekday at_most
next_weekly day_of_week base after =
    let candidate = add_days ((at_most 6 day_of_week + 7 - weekday base) % 7) base in
    if leb (instant candidate) (instant after) then add_days 7 candidate else candidate

-- `max(1, min(31, day_of_month))`
unfoldable pub month_day : ℕ → ℕ
unfolding at_most
month_day day_of_month = if day_of_month == 0 then 1 else at_most 31 day_of_month

unfoldable pub in_month : ℕ → ℕ → ℕ → DateTime → DateTime
unfolding month_day at_most days_in_month
in_month day_of_month year month base = record base {
  year = year;
  month = month;
  day = at_most (days_in_month year month) (month_day day_of_month);
}

unfoldable pub next_monthly : ℕ → DateTime → DateTime → DateTime
unfolding instant in_month
next_monthly day_of_month base after =
    let candidate = in_month day_of_month base.year base.month base in
    let in_year = in_month day_of_month base.year (suc base.month) base in
    let new_year = in_month day_of_month (suc base.year) 1 base in
    if leb (instant candidate) (instant after)
    then (if base.month == 12 then new_year else in_year)
    else candidate

-- None where the code raises `ValueError`.
unfoldable pub compute_next_run : String → ℕ → ℕ → ℕ → ℕ → DateTime → Option DateTime
unfolding at_time next_daily next_weekly next_monthly
compute_next_run frequency hour minute day_of_week day_of_month after =
    let base = at_time hour minute after in
    if frequency == "weekly"
    then some (next_weekly day_of_week base after)
    else if frequency == "monthly"
    then some (next_monthly day_of_month base after)
    else if frequency == "daily"
    then some (next_daily base after)
    else none
