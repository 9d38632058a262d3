-- ===== src/Clock/Civil/Days.antt =====
-- The calendar's arithmetic: the date of a day number is the date that the number was made from.
use task_calendar.Base.{
  ℕ, zero, suc, ◌+◌, ◌-◌, ◌*◌, ◌/◌, ◌%◌, ◌<◌, ◌≤◌, Bool-cases, inl, inr, ltb, ◌≡◌, refl, sym, arith,
}
use mathlib.Core.Path.{subst}
use task_calendar.Clock.Civil.{
  days_in_year, days_in_month, days_before_year, days_before_month, day_of_month, search,
  date_of_day,
}
use native.Mathlib.Nat.{le_refl}
use native.Mathlib.Numerals.{add-one}
use native.Mathlib.Decide.{le_ind}

module _ (size start : ℕ → ℕ) (step : (i : ℕ) → start (suc i) ≡ start i + size i) where
  pub start_mono : (i j : ℕ) → i ≤ j → start i ≤ start j
  start_mono i j = le_ind (λ m. start i ≤ start m) (le_refl _) (λ m le ih. omega (arith, step m)) j

  -- The search stops at the block that the day falls in.
  search_lem :
      (fuel k i d r : ℕ)
      → k ≤ i
      → i < k + fuel
      → d < size i
      → r + start k ≡ start i + d
      → search size fuel k r ≡ (i, d)
  unfolding search
  search_lem zero k i d r h f b e = absurd (omega arith)
  search_lem (suc fuel) k i d r h f b e = elim (Bool-cases (ltb r (size k))) [
    | inl inside ↦
        let here : k ≡ i = ground (arith, step k, start_mono (suc k) i) in
        rw (inside, search) (ground (arith, here))
    | inr beyond ↦
        rw (beyond, search)
          (search_lem fuel (k + 1) i d (r - size k) (ground arith) (omega arith) b
            (rw (add-one k) (ground (arith, step k))))
  ]

pub days_before_year-suc : (y : ℕ) → days_before_year (suc y) ≡ days_before_year y + days_in_year y
unfolding days_before_year days_in_year
days_before_year-suc y = ground arith

pub days_before_month-suc :
    (y m : ℕ) → days_before_month y (suc m) ≡ days_before_month y m + days_in_month y m
unfolding days_before_month
days_before_month-suc y m = refl

pub twelve_months : (y : ℕ) → days_before_month y 12 ≡ days_in_year y
unfolding days_before_month days_in_year
twelve_months y = ground arith

pub days_before_month-le :
    (y m : ℕ) → m < 12 → days_before_month y m + days_in_month y m ≤ days_in_year y
unfolding days_before_month
days_before_month-le y m h = ground (
  arith,
  start_mono (days_in_month y) (days_before_month y) (days_before_month-suc y) (suc m) 12,
  twelve_months y,
)

pub four_centuries : (q k : ℕ) → days_before_year (400 * q + k) ≡ 146097 * q + days_before_year k
unfolding days_before_year
four_centuries q k = omega arith

-- A valid date: month and day counted from 0 here.
abbrev pub IsDay : ℕ → ℕ → ℕ → Type 0
IsDay y m d = (m < 12) × (d < days_in_month y m)

pub days_in_year_period : (q k : ℕ) → days_in_year (400 * q + k) ≡ days_in_year k
unfolding days_in_year
days_in_year_period q k = ground arith

pub four_hundred_years : days_before_year 400 ≡ 146097
unfolding days_before_year
four_hundred_years = refl

within_years :
    (q k m d : ℕ)
    → k < 400
    → IsDay (400 * q + k) m d
    → days_before_year k + (days_before_month (400 * q + k) m + d) < 146097
within_years q k m d h v = omega (
  arith,
  days_before_month-le (400 * q + k) m v.0,
  days_in_year_period q k,
  days_before_year-suc k,
  start_mono days_in_year days_before_year days_before_year-suc (suc k) 400 h,
  four_hundred_years,
)

pub day_of_month-eq :
    (y m : ℕ) → m < 12 → day_of_month (y * 12 + m) ≡ days_before_year y + days_before_month y m
unfolding day_of_month
day_of_month-eq y m h =
    let years : (y * 12 + m) / 12 ≡ y = omega arith in
    let months : (y * 12 + m) % 12 ≡ m = omega arith in rw (years, months)

search_year :
    (q k m d : ℕ)
    → k < 400
    → IsDay (400 * q + k) m d
    → search days_in_year 400 0 (days_before_year k + (days_before_month (400 * q + k) m + d))
      ≡ (k, days_before_month (400 * q + k) m + d)
search_year q k m d h v =
    search_lem days_in_year days_before_year days_before_year-suc 400 0 k
      (days_before_month (400 * q + k) m + d)
      (days_before_year k + (days_before_month (400 * q + k) m + d)) (omega arith) (omega arith)
      (omega (arith, days_before_month-le (400 * q + k) m v.0, days_in_year_period q k))
      (unfold days_before_year in omega arith)

search_month :
    (y m d : ℕ) → IsDay y m d → search (days_in_month y) 12 0 (days_before_month y m + d) ≡ (m, d)
search_month y m d v =
    search_lem (days_in_month y) (days_before_month y) (days_before_month-suc y) 12 0 m d
      (days_before_month y m + d) (omega arith) (omega arith) v.1
      (unfold days_before_month in omega arith)

date_of_block :
    (q k m d : ℕ)
    → k < 400
    → IsDay (400 * q + k) m d
    → date_of_day (day_of_month ((400 * q + k) * 12 + m) + d)
      ≡ record { year = 400 * q + k; month = m + 1; day = d + 1 }
unfolding date_of_day
date_of_block q k m d h v =
    let rest : ℕ = days_before_year k + (days_before_month (400 * q + k) m + d) in
    let whole : day_of_month ((400 * q + k) * 12 + m) + d ≡ 146097 * q + rest =
      omega (arith, day_of_month-eq (400 * q + k) m v.0, four_centuries q k) in
    let block : (146097 * q + rest) / 146097 ≡ q = omega (arith, within_years q k m d h v) in
    let inside : (146097 * q + rest) % 146097 ≡ rest = omega (arith, within_years q k m d h v) in
    rw (whole, block, inside, search_year q k m d h v, search_month (400 * q + k) m d v)

-- What `date_of_day` answers for the day number of a date.
abbrev Answers : ℕ → ℕ → ℕ → Type 0
Answers m d y =
    IsDay y m d
    → date_of_day (day_of_month (y * 12 + m) + d) ≡ record { year = y; month = m + 1; day = d + 1 }

-- The date of the day number of a valid date is that date.
pub date_of_day-day_of_month :
    (y m d : ℕ)
    → IsDay y m d
    → date_of_day (day_of_month (y * 12 + m) + d) ≡ record { year = y; month = m + 1; day = d + 1 }
date_of_day-day_of_month y m d =
    let block : y ≡ 400 * (y / 400) + y % 400 = omega arith in
    subst (Answers m d) (sym block) (date_of_block (y / 400) (y % 400) m d (omega arith))
