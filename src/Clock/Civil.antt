-- ===== src/Clock/Civil.antt =====
-- The date algorithms of ECMAScript that the program calls: `Date.UTC`, the fields of a time value
-- and `toISOString`. Days and months are counted from the start of the year -400000, so that
-- every time value that JavaScript allows has a natural day number.
pub mod Days
pub mod Readings
pub mod Instants
pub mod Letters
use task_calendar.Base.{
  ℕ, zero, suc, ◌+◌, ◌-◌, ◌*◌, ◌/◌, ◌%◌, Bool, true, false, not, ◌&&◌, ◌||◌, Option, none, some,
  List, [], ◌∷◌, ◌++◌, ltb, leb, ◌==◌, if◌then◌else◌,
}
use task_calendar.Base.Int.{ℤ, pos, negsuc, pos_part, ◌+ℤ◌, ◌-ℤ◌, leb_ℤ}
use task_calendar.Base.Text.{Text, codes}
use task_calendar.Base.Text.Decimal.{show, pad2}

abbrev pub day_ms : ℕ
day_ms = 86400000

-- The year 0 of the count is -400000; the Gregorian calendar repeats after 400 years.
abbrev pub first_year : ℕ
first_year = 400000

unfoldable pub is_leap : ℕ → Bool
is_leap y = (y % 4 == 0) && (not (y % 100 == 0) || y % 400 == 0)

unfoldable pub days_in_year : ℕ → ℕ
unfolding is_leap
days_in_year y = if is_leap y then 366 else 365

-- Months are counted from 0.
unfoldable pub days_in_month : ℕ → ℕ → ℕ
unfolding is_leap
days_in_month y m =
    if m == 1
    then (if is_leap y then 29 else 28)
    else if (m == 3) || (m == 5) || (m == 8) || (m == 10)
    then 30
    else 31

unfoldable pub days_before_year : ℕ → ℕ
days_before_year y = 365 * y + (y + 3) / 4 + (y + 399) / 400 - (y + 99) / 100

unfoldable pub days_before_month : ℕ → ℕ → ℕ
unfolding days_in_month
days_before_month y zero = 0
days_before_month y (suc m) = days_before_month y m + days_in_month y m

-- The day number of the first of a month.
unfoldable pub day_of_month : ℕ → ℕ
unfolding days_before_year days_before_month
day_of_month months = days_before_year (months / 12) + days_before_month (months / 12) (months % 12)

abbrev pub epoch_day : ℕ
epoch_day = 146816528

-- Where in a row of blocks a day falls: the block's index and the day within it.
search : (ℕ → ℕ) → ℕ → ℕ → ℕ → ℕ × ℕ
search size zero k r = (k, r)
search size (suc fuel) k r = elim (ltb r (size k)) [
  | true ↦ (k, r)
  | false ↦ search size fuel (k + 1) (r - size k)
]

pub record Date : Type 0 where
  pub year : ℕ
  pub month : ℕ
  pub day : ℕ

-- 146097 days are 400 years. The month and the day count from 1.
unfoldable pub date_of_day : ℕ → Date
unfolding search days_in_year days_in_month
date_of_day n =
    let (k, r) = search days_in_year 400 0 (n % 146097) in
    let y = 400 * (n / 146097) + k in
    let (m, d) = search (days_in_month y) 12 0 r in record { year = y; month = m + 1; day = d + 1 }

-- `year` counts from the first year; `toISOString` and `Intl` read it through `year_text`.
pub record Fields : Type 0 where
  pub year : ℕ
  pub month : ℕ
  pub day : ℕ
  pub hour : ℕ
  pub minute : ℕ
  pub second : ℕ
  pub milli : ℕ

-- A time value from the start of the count.
abbrev pub since_start : ℤ → ℕ
since_start t = pos_part (t +ℤ pos (epoch_day * day_ms))

unfoldable pub fields_of : ℤ → Fields
unfolding ◌+ℤ◌
fields_of t =
    let n = since_start t in
    let date = date_of_day (n / day_ms) in
    let r = n % day_ms in
    record {
      year = date.year;
      month = date.month;
      day = date.day;
      hour = r / 3600000;
      minute = r / 60000 % 60;
      second = r / 1000 % 60;
      milli = r % 1000;
    }

-- `Date.UTC(year, month - 1, day, hour, minute, second)`; a year below 100 is one of 1900 to 1999.
unfoldable pub utc_ms : ℕ → ℕ → ℕ → ℕ → ℕ → ℕ → ℤ
unfolding day_of_month ◌-ℤ◌
utc_ms year month day hour minute second =
    let full_year = if ltb year 100 then 1900 + year else year in
    let months = (first_year + full_year) * 12 + month - 1 in
    pos ((day_of_month months + day) * day_ms + hour * 3600000 + minute * 60000 + second * 1000)
    -ℤ pos ((epoch_day + 1) * day_ms)

-- `new Date(t)`: a time value further than 100,000,000 days from 1970 is an invalid date.
unfoldable pub time_clip : ℤ → Option ℤ
time_clip t =
    if leb_ℤ (pos 0 -ℤ pos 8640000000000000) t && leb_ℤ t (pos 8640000000000000)
    then some t
    else none

pad3 : ℕ → Text
pad3 n = if ltb n 100 then b'0' ∷ pad2 n else show n

pad4 : ℕ → Text
unfolding pad3
pad4 n = if ltb n 1000 then b'0' ∷ pad3 n else show n

pad6 : ℕ → Text
unfolding pad4
pad6 n =
    if ltb n 10000 then b'0' ∷ b'0' ∷ pad4 n else if ltb n 100000 then b'0' ∷ show n else show n

-- The year of `toISOString`.
unfoldable pub iso_year : ℕ → Text
unfolding pad4 pad6
iso_year y =
    if ltb y first_year
    then b'-' ∷ pad6 (first_year - y)
    else if ltb y (first_year + 10000)
    then pad4 (y - first_year)
    else b'+' ∷ pad6 (y - first_year)

-- `year: "numeric"` of `Intl`: not padded, and counted down to 1 BC, which is the year 0.
unfoldable pub shown_year : Fields → ℕ
shown_year p = if ltb first_year p.year then p.year - first_year else first_year + 1 - p.year

unfoldable pub year_text : Fields → Text
unfolding shown_year
year_text p = show (shown_year p)

iso_date : Fields → Text
unfolding iso_year
iso_date p = iso_year p.year ++ b'-' ∷ pad2 p.month ++ b'-' ∷ pad2 p.day

-- `toISOString()`
unfoldable pub to_iso : ℤ → Text
unfolding iso_date fields_of date_of_day pad3
to_iso t =
    let p = fields_of t in
    iso_date p
    ++ b'T' ∷ pad2 p.hour
    ++ b':' ∷ pad2 p.minute
    ++ b':' ∷ pad2 p.second
    ++ b'.' ∷ pad3 p.milli
    ++ b'Z' ∷ []
