-- ===== src/Tests/Drops.antt =====
-- A task that is dropped into the calendar at a concrete time.
use task_calendar.Base.{false, some, none, ◌≡◌, refl, arith}
use task_calendar.Base.Int.{ℤ, pos, ◌+ℤ◌, ◌-ℤ◌}
use task_calendar.Base.Text.{Text, codes, split, split_from}
use task_calendar.Base.Text.Decimal.{scan_digits, is_digit, pad2, show}
use task_calendar.Calendar.{
  get_calendar_drop_schedule_update, get_task_drag_duration_minutes, schedule_of,
}
use task_calendar.Calendar.Events.{event_start}
use task_calendar.Calendar.Placed.{drop-shown}
use task_calendar.Clock.{
  get_timezone_offset_milliseconds, refine, round, to_number, wall_clock_ms, zoned_date_time_to_iso,
  zoned_ms,
}
use task_calendar.Clock.Civil.{
  date_of_day, day_of_month, days_before_month, days_before_year, days_in_month, days_in_year,
  fields_of, is_leap, iso_year, shown_year, time_clip, to_iso, utc_ms,
}
use task_calendar.Clock.Keys.{calendar_date_to_date_time_local_value}
use task_calendar.Clock.Shown.{IsPlace}
use task_calendar.Task.{UpdateScheduledTaskInput}
use task_calendar.Tests.Data.{berlin, browser, milk, read_date, spring}
use task_calendar.Tests.Dates.{berlin-IsRegular}
use task_calendar.Undo.Restore.{patch}

-- Nine o'clock on 2026-04-01, as the calendar holds it.
abbrev nine : ℤ
nine = pos 1775034000000

abbrev nine_update : UpdateScheduledTaskInput
nine_update =
    schedule_of (some (codes "2026-04-01T07:00:00.000Z")) (some (codes "2026-04-01T08:00:00.000Z"))
      false none

nine_dropped :
    get_calendar_drop_schedule_update browser milk nine false (codes "Europe/Berlin")
    ≡ some nine_update
unfolding get_calendar_drop_schedule_update get_task_drag_duration_minutes read_date split
    split_from zoned_date_time_to_iso time_clip ◌-ℤ◌ ◌+ℤ◌ utc_ms scan_digits shown_year fields_of
    date_of_day to_iso is_digit pad2 show day_of_month days_before_month days_before_year
    days_in_month days_in_year is_leap iso_year get_timezone_offset_milliseconds refine round
    to_number wall_clock_ms zoned_ms calendar_date_to_date_time_local_value
nine_dropped = refl

nine_read :
    browser.parse_date (to_iso (zoned_ms berlin nine (codes "Europe/Berlin")))
    ≡ some (zoned_ms berlin nine (codes "Europe/Berlin"))
unfolding read_date split split_from ◌-ℤ◌ ◌+ℤ◌ utc_ms scan_digits shown_year fields_of date_of_day
    to_iso is_digit pad2 show day_of_month days_before_month days_before_year days_in_month
    days_in_year is_leap iso_year get_timezone_offset_milliseconds refine to_number wall_clock_ms
    zoned_ms
nine_read = refl

nine-IsPlace : IsPlace nine
unfolding fields_of date_of_day ◌+ℤ◌ days_in_month days_in_year is_leap
nine-IsPlace = record { modern = omega arith; whole = (refl, refl); short = omega arith }

drop-shown_example :
    (v : Text) × (event_start browser (patch nine_update milk) (codes "Europe/Berlin")
      ≡ some (some v))
    × (wall_clock_ms v ≡ some nine)
unfolding ◌-ℤ◌ ◌+ℤ◌
drop-shown_example =
    drop-shown browser milk (codes "Europe/Berlin") nine spring (pos 3600000) (pos 7200000)
      (pos 1775026800000) nine-IsPlace (berlin-IsRegular nine (refl, refl) (omega arith))
      (omega arith) (omega arith) refl nine_read nine_dropped
