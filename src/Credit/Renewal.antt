-- ===== src/Credit/Renewal.antt =====
-- `calculate_renewal_date` (app/services/credit/utils.py), with the parts of Python's `calendar` and
-- `datetime` that it uses.
pub mod Bounds
use fastapi_auth_service.Prelude.{
  ℕ, zero, suc, ◌+◌, ◌-◌, ◌%◌, min, Bool, not, ◌&&◌, ◌||◌, Option, none, some, ltb, leb, ◌==◌,
  if◌then◌else◌,
}
use fastapi_auth_service.Db.Schema.{DateTime}

-- `calendar.isleap`
unfoldable pub is_leap : ℕ → Bool
is_leap y = y % 4 == 0 && (not (y % 100 == 0) || y % 400 == 0)

-- The second part of `calendar.monthrange`.
unfoldable pub days_in_month : ℕ → ℕ → ℕ
unfolding is_leap
days_in_month y m =
    if m == 2
    then (if is_leap y then 29 else 28)
    else if m == 4 || m == 6 || m == 9 || m == 11
    then 30
    else 31

abbrev pub max_year : ℕ
max_year = 9999

-- `current_date.replace(year, month, day)`, which raises out of the calendar's range.
unfoldable pub replace : DateTime → ℕ → ℕ → ℕ → Option DateTime
unfolding days_in_month
replace t y m d =
    if leb 1 y && leb y max_year && leb 1 m && leb m 12 && leb 1 d && leb d (days_in_month y m)
    then some (record t { year = y; month = m; day = d })
    else none

-- `t + timedelta(days)`, a month at a time. It raises past the last year, and when the rounds, which
-- are at least the months crossed, run out.
unfoldable pub plus_days : ℕ → DateTime → ℕ → Option DateTime
unfolding days_in_month
plus_days zero t n = none
plus_days (suc rounds) t n =
    let dim = days_in_month t.year t.month in
    let next_year =
      plus_days rounds (record t { year = t.year + 1; month = 1; day = 0 }) (t.day + n - dim) in
    let next_month =
      plus_days rounds (record t { month = t.month + 1; day = 0 }) (t.day + n - dim) in
    if ltb max_year t.year
    then none
    else if leb (t.day + n) dim
    then some (record t { day = t.day + n })
    else if t.month == 12
    then next_year
    else next_month

-- The same day of the next month, or the last one it has. `none` is an exception.
unfoldable pub calculate_renewal_date : DateTime → Option DateTime
unfolding replace plus_days days_in_month
calculate_renewal_date t =
    let next_month : ℕ = if t.month == 12 then 1 else t.month + 1 in
    let next_year : ℕ = if t.month == 12 then t.year + 1 else t.year in
    let next_day = min t.day (days_in_month next_year next_month) in
    elim (replace t next_year next_month next_day) [ some r ↦ some r | none ↦ plus_days 3 t 30 ]
