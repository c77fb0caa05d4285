-- ===== src/Credit/Renewal/Bounds.antt =====
-- The dates that `calculate_renewal_date` (app/services/credit/utils.py) gives.
use fastapi_auth_service.Prelude.{
  ℕ, ◌+◌, ◌≤◌, ◌<◌, min, ◌≡◌, refl, some, ◌==◌, if◌then◌else◌, arith,
}
use fastapi_auth_service.Db.Schema.{DateTime}
use fastapi_auth_service.Credit.Renewal.{days_in_month, replace, max_year, calculate_renewal_date}

-- A date of the calendar of Python's `datetime`.
pub record IsDate (t : DateTime) : Type 0 where
  pub year_min : 1 ≤ t.year
  pub year_max : t.year ≤ max_year
  pub month_min : 1 ≤ t.month
  pub month_max : t.month ≤ 12
  pub day_min : 1 ≤ t.day
  pub day_max : t.day ≤ days_in_month t.year t.month

days_in_month-positive : (y m : ℕ) → 1 ≤ days_in_month y m
unfolding days_in_month
days_in_month-positive y m = ground arith

-- The next month.
abbrev pub next_month : DateTime → ℕ
next_month t = if t.month == 12 then 1 else t.month + 1

-- Its year.
abbrev pub year_of_next : DateTime → ℕ
year_of_next t = if t.month == 12 then t.year + 1 else t.year

abbrev pub same_day : DateTime → ℕ
same_day t = min t.day (days_in_month (year_of_next t) (next_month t))

-- The renewal date: the same day, or the last day of the next month if it is shorter.
abbrev pub month_later : DateTime → DateTime
month_later t = record t { year = year_of_next t; month = next_month t; day = same_day t }

replace-valid :
    (t : DateTime) (y m d : ℕ)
    → IsDate (record t { year = y; month = m; day = d })
    → replace t y m d ≡ some (record t { year = y; month = m; day = d })
unfolding replace
replace-valid t y m d h =
    ground (arith, h.year_min, h.year_max, h.month_min, h.month_max, h.day_min, h.day_max)

month_later-IsDate : (t : DateTime) → IsDate t → t.year < max_year → IsDate (month_later t)
month_later-IsDate t h last = record {
  year_min = ground (arith, h.year_min);
  year_max = ground (arith, h.year_max, last);
  month_min = ground arith;
  month_max = ground (arith, h.month_max);
  day_min = ground (arith, h.day_min, days_in_month-positive (year_of_next t) (next_month t));
  day_max = ground arith;
}

-- The renewal date of a date before the last year of the calendar is the same day of the next
-- month, or that month's last day if it is shorter, and is a date of the calendar.
pub calculate_renewal_date-next :
    (t : DateTime)
    → IsDate t
    → t.year < max_year
    → (calculate_renewal_date t ≡ some (month_later t)) × IsDate (month_later t)
unfolding calculate_renewal_date
calculate_renewal_date-next t h last =
    let valid : IsDate (month_later t) = month_later-IsDate t h last in
    (
      rw
          (
            calculate_renewal_date,
            replace-valid t (year_of_next t) (next_month t) (same_day t) valid,
          )
          refl,
      valid,
    )
