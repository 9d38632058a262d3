-- ===== src/Clock/Civil/Instants.antt =====
-- From the year 1600 on, `Date.UTC` of an instant's fields is the instant to the second.
use task_calendar.Base.{
  ℕ, zero, suc, ◌+◌, ◌-◌, ◌*◌, ◌/◌, ◌%◌, ◌<◌, ◌≤◌, ltb, if◌then◌else◌, ◌≡◌, refl, ap, arith,
  Bool-cases, inl, inr,
}
use native.Mathlib.Numerals.{add-one}
use task_calendar.Base.Int.{ℤ, pos, negsuc, pos_part, neg_part, ◌+ℤ◌, ◌-ℤ◌, ◌≤ℤ◌, int_laws}
use task_calendar.Clock.Civil.{
  day_ms, first_year, epoch_day, days_in_year, days_in_month, days_before_year, days_before_month,
  day_of_month, search, date_of_day, since_start, fields_of, shown_year, utc_ms,
}
use task_calendar.Clock.Civil.Days.{
  start_mono, days_before_year-suc, days_before_month-suc, twelve_months, four_centuries,
  four_hundred_years, days_in_year_period, day_of_month-eq,
}

module _ (size start : ℕ → ℕ) (step : (i : ℕ) → start (suc i) ≡ start i + size i) where
  -- The search keeps the day, and stops inside a block before the last one.
  search_keeps :
      (fuel k n r : ℕ)
      → n ≤ k + fuel
      → r + start k < start n
      → ((search size fuel k r).1 + start (search size fuel k r).0 ≡ r + start k)
        × ((search size fuel k r).0 < n)
        × ((search size fuel k r).1 < size (search size fuel k r).0)
  unfolding search
  search_keeps zero k n r h b = absurd (omega (arith, start_mono size start step n k))
  search_keeps (suc fuel) k n r h b = elim (Bool-cases (ltb r (size k))) [
    | inl inside ↦
        rw (inside, search) ((refl, ground (arith, start_mono size start step n k), ground arith))
    | inr beyond ↦
        let rest : (r - size k) + start (k + 1) ≡ r + start k =
          rw (add-one k) (ground (arith, step k)) in
        rw (beyond, search, ← rest)
          (search_keeps fuel (k + 1) n (r - size k) (omega arith) (omega arith))
  ]

days_before_zero : days_before_year 0 ≡ 0
unfolding days_before_year
days_before_zero = refl

-- The parts of `date_of_day`: the year in its block, then the month in the year.
year_part :
    (n : ℕ)
    → (k : ℕ) × (r : ℕ) × (search days_in_year 400 0 (n % 146097) ≡ (k, r))
      × (k < 400)
      × (r < days_in_year k)
      × (r + days_before_year k ≡ n % 146097)
year_part n =
    let (sum, below, inside) =
      search_keeps days_in_year days_before_year days_before_year-suc 400 0 400 (n % 146097)
        (omega arith) (omega (arith, days_before_zero, four_hundred_years)) in
    (
      (search days_in_year 400 0 (n % 146097)).0,
      (search days_in_year 400 0 (n % 146097)).1,
      refl,
      below,
      inside,
      omega (arith, days_before_zero),
    )

days_before_month_zero : (y : ℕ) → days_before_month y 0 ≡ 0
unfolding days_before_month
days_before_month_zero y = refl

month_part :
    (y r : ℕ)
    → r < days_in_year y
    → (m : ℕ) × (d : ℕ) × (search (days_in_month y) 12 0 r ≡ (m, d))
      × (m < 12)
      × (d < days_in_month y m)
      × (d + days_before_month y m ≡ r)
month_part y r h =
    let (sum, below, inside) =
      search_keeps (days_in_month y) (days_before_month y) (days_before_month-suc y) 12 0 12 r
        (omega arith) (omega (arith, twelve_months y, days_before_month_zero y)) in
    (
      (search (days_in_month y) 12 0 r).0,
      (search (days_in_month y) 12 0 r).1,
      refl,
      below,
      inside,
      omega (arith, days_before_month_zero y),
    )

-- The day number of the date of a day is that day, and the date is a valid one.
pub day_of_month-date_of_day :
    (n : ℕ)
    → (day_of_month ((date_of_day n).year * 12 + ((date_of_day n).month - 1))
          + ((date_of_day n).day - 1)
        ≡ n)
      × (1 ≤ (date_of_day n).month)
      × (1 ≤ (date_of_day n).day)
      × (400 * (n / 146097) ≤ (date_of_day n).year)
unfolding date_of_day
day_of_month-date_of_day n =
    let q : ℕ = n / 146097 in
    let (k, r, at, below, inside, sum) = year_part n in
    let (m, d, at_month, below_year, inside_month, sum_month) =
      month_part (400 * q + k) r (omega (arith, days_in_year_period q k)) in
    let month : m + 1 - 1 ≡ m = omega arith in
    rw (at, at_month, month)
      ((
        omega (arith, day_of_month-eq (400 * q + k) m below_year, four_centuries q k),
        omega arith,
        omega arith,
        omega arith,
      ))

-- An instant of the year 1600 or later.
abbrev pub earliest : ℤ
earliest = negsuc 11676095999999

abbrev pub IsModern : ℤ → Type 0
IsModern t = earliest ≤ℤ t

-- An instant, or a difference of instants, of whole seconds.
abbrev pub IsSeconds : ℤ → Type 0
IsSeconds t = (pos_part t % 1000 ≡ 0) × (neg_part t % 1000 ≡ 0)

utc_ms-eq :
    (y mo d h mi s : ℕ)
    → 100 ≤ y
    → 1 ≤ mo
    → 1 ≤ d
    → utc_ms y mo d h mi s
      ≡ pos (
          (day_of_month ((first_year + y) * 12 + (mo - 1)) + (d - 1)) * day_ms
          + (h * 3600000 + mi * 60000 + s * 1000))
        -ℤ pos (epoch_day * day_ms)
unfolding utc_ms ◌-ℤ◌
utc_ms-eq y mo d h mi s hy hm hd =
    let months : (first_year + y) * 12 + mo - 1 ≡ (first_year + y) * 12 + (mo - 1) = omega arith in
    ground (arith, ap day_of_month months)

since_start-parts :
    (t : ℤ)
    → IsModern t
    → IsSeconds t
    → (since_start t + neg_part t ≡ pos_part t + epoch_day * day_ms) × (since_start t % 1000 ≡ 0)
unfolding ◌+ℤ◌
since_start-parts (pos n) late whole = (ground arith, ground arith)
since_start-parts (negsuc n) late whole = (ground arith, ground arith)

clock_sum :
    (r : ℕ)
    → r < day_ms
    → r % 1000 ≡ 0
    → r / 3600000 * 3600000 + r / 60000 % 60 * 60000 + r / 1000 % 60 * 1000 ≡ r
clock_sum r h e = omega arith

shown_recent :
    (y : ℕ)
    → first_year + 1600 ≤ y
    → (if ltb first_year y then y - first_year else first_year + 1 - y) ≡ y - first_year
shown_recent y h = ground arith

-- An instant of a whole minute.
abbrev pub IsMinute : ℤ → Type 0
IsMinute t = (pos_part t % 60000 ≡ 0) × (neg_part t % 60000 ≡ 0)

pub IsMinute-IsSeconds : (t : ℤ) → IsMinute t → IsSeconds t
IsMinute-IsSeconds t (h, k) = (omega arith, omega arith)

whole_minutes : (t : ℤ) → IsModern t → IsMinute t → since_start t % 60000 ≡ 0
unfolding ◌+ℤ◌
whole_minutes (pos n) late whole = ground arith
whole_minutes (negsuc n) late whole = ground arith

-- The fields of a whole minute of 1600 or later.
pub minute_fields :
    (t : ℤ)
    → IsModern t
    → IsMinute t
    → (first_year + 1600 ≤ (fields_of t).year)
      × ((fields_of t).second ≡ 0)
      × (shown_year (fields_of t) ≡ (fields_of t).year - first_year)
unfolding fields_of shown_year
minute_fields t late whole =
    let n : ℕ = since_start t / day_ms in
    let (number, month, day, year) = day_of_month-date_of_day n in
    let (start, aligned) = since_start-parts t late (IsMinute-IsSeconds t whole) in
    let recent : first_year + 1600 ≤ (date_of_day n).year = omega arith in
    (recent, omega (arith, whole_minutes t late whole), shown_recent (date_of_day n).year recent)

-- The time value of the fields of an instant is that instant.
pub utc_ms-fields_of :
    (t : ℤ)
    → IsModern t
    → IsSeconds t
    → (let p = fields_of t in utc_ms (shown_year p) p.month p.day p.hour p.minute p.second) ≡ t
unfolding fields_of shown_year
utc_ms-fields_of t late whole =
    let n : ℕ = since_start t / day_ms in
    let r : ℕ = since_start t % day_ms in
    let (number, month, day, year) = day_of_month-date_of_day n in
    let (start, aligned) = since_start-parts t late whole in
    let recent : first_year + 1600 ≤ (date_of_day n).year = omega arith in
    let years : first_year + ((date_of_day n).year - first_year) ≡ (date_of_day n).year =
      omega arith in
    rw (shown_recent (date_of_day n).year recent) (
      rw
        (
          utc_ms-eq ((date_of_day n).year - first_year) (date_of_day n).month (date_of_day n).day
              (r / 3600000) (r / 60000 % 60) (r / 1000 % 60) (omega arith) month day,
          years,
          number,
          clock_sum r (omega arith) (omega arith),
        )
        (omega int_laws))
