-- ===== src/Clock/Civil/Readings.antt =====
-- The fields of the time value that `Date.UTC` makes are the fields that it was given.
use task_calendar.Base.{ℕ, ◌+◌, ◌-◌, ◌*◌, ◌/◌, ◌%◌, ◌<◌, ◌≤◌, ◌≡◌, ap, arith}
use task_calendar.Base.Int.{◌+ℤ◌, ◌-ℤ◌}
use task_calendar.Clock.Civil.{
  day_ms, first_year, days_in_month, day_of_month, since_start, fields_of, utc_ms,
}
use task_calendar.Clock.Civil.Days.{date_of_day-day_of_month}

-- A wall clock reading of the years 100 to 9999, to the second.
pub record IsReading (year month day hour minute second : ℕ) : Type 0 where
  pub year_in : (100 ≤ year) × (year ≤ 9999)
  pub month_in : (1 ≤ month) × (month ≤ 12)
  pub day_in : (1 ≤ day) × (day ≤ days_in_month (first_year + year) (month - 1))
  pub time_in : (hour < 24) × (minute < 60) × (second < 60)

since_start-utc_ms :
    (y mo d h mi s : ℕ)
    → IsReading y mo d h mi s
    → since_start (utc_ms y mo d h mi s)
      ≡ (day_of_month ((first_year + y) * 12 + (mo - 1)) + (d - 1)) * day_ms
        + (h * 3600000 + mi * 60000 + s * 1000)
unfolding utc_ms ◌+ℤ◌ ◌-ℤ◌
since_start-utc_ms y mo d h mi s v =
    let months : (first_year + y) * 12 + mo - 1 ≡ (first_year + y) * 12 + (mo - 1) = omega arith in
    ground (arith, ap day_of_month months)

-- The fields of a valid reading come back.
pub fields_of-utc_ms :
    (y mo d h mi s : ℕ)
    → IsReading y mo d h mi s
    → fields_of (utc_ms y mo d h mi s) ≡ record {
      year = first_year + y;
      month = mo;
      day = d;
      hour = h;
      minute = mi;
      second = s;
      milli = 0;
    }
unfolding fields_of
fields_of-utc_ms y mo d h mi s v =
    let days : ℕ = day_of_month ((first_year + y) * 12 + (mo - 1)) + (d - 1) in
    let rest : ℕ = h * 3600000 + mi * 60000 + s * 1000 in
    let block : (days * day_ms + rest) / day_ms ≡ days = omega arith in
    let inside : (days * day_ms + rest) % day_ms ≡ rest = omega arith in
    rw
      (
        since_start-utc_ms y mo d h mi s v,
        block,
        inside,
        date_of_day-day_of_month (first_year + y) (mo - 1) (d - 1) (omega arith),
      )
      (ground arith)
