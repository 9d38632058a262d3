-- ===== src/Platform.antt =====
-- What the program takes from the browser and does not implement itself: the reading of dates, the
-- time zone data of `Intl`, the order of `localeCompare`, and formatted dates.
use task_calendar.Base.{Option}
use task_calendar.Base.Int.{ℤ}
use task_calendar.Base.Text.{Text}

pub record Platform : Type 0 where
  -- The time value of `new Date(text)`; `none` is an invalid date.
  pub parse_date : Text → Option ℤ
  -- Wall clock minus UTC, in milliseconds, of a time zone at an instant.
  pub offset : Text → ℤ → ℤ
  -- `new Intl.DateTimeFormat(undefined, …).format(date)` with the options of `formatDate`,
  -- `formatDateTime` and `formatTimeOnly`, and a time zone.
  pub format_date : ℤ → Text → Text
  pub format_date_time : ℤ → Text → Text
  pub format_time_only : ℤ → Text → Text
  -- The sign of `left.localeCompare(right)`.
  pub locale_compare : Text → Text → ℤ
