-- ===== src/Tests/Dates.antt =====
-- Wall clocks and recurrence rules at concrete dates.
use task_calendar.Base.{some, ◌≡◌, refl, arith}
use task_calendar.Base.Int.{ℤ, pos, ◌-ℤ◌, ◌+ℤ◌, ◌≤ℤ◌, ◌<ℤ◌, int_laws}
use task_calendar.Base.Text.{codes, split, join, is_prefix, replace_first, split_from}
use task_calendar.Base.Text.Decimal.{scan_digits, parse_int, is_digit, pad2, show}
use task_calendar.Clock.Keys.{end_of_local_date_to_iso}
use task_calendar.Clock.{
  wall, zoned_ms, zoned_date_time_to_iso, get_timezone_offset_milliseconds, refine, round,
  to_number, wall_clock_ms,
}
use task_calendar.Clock.Civil.{
  fields_of, utc_ms, shown_year, date_of_day, to_iso, day_of_month, days_before_month,
  days_before_year, days_in_month, days_in_year, is_leap, iso_year, time_clip,
}
use task_calendar.Clock.Civil.Instants.{IsSeconds}
use task_calendar.Clock.Zoned.{IsRegular, wall-zoned_ms, wall-zoned_ms_gap}
use task_calendar.Recurrence.{RecurrenceState, build_recurrence_rule, parse_recurrence_rule}
use task_calendar.Recurrence.RoundTrip.{parse-build, read_back}
use task_calendar.Input.{parse_positive_integer_or_zero}
use task_calendar.Task.{RecurrenceFrequency}
use task_calendar.Tests.Data.{browser, read_date, berlin, spring}

-- 2026-03-29 at 02:30, which Central Europe skips, and at 04:30.
abbrev skipped : ℤ
skipped = pos 1774751400000

abbrev early : ℤ
early = pos 1774758600000

pub berlin-IsRegular :
    (w : ℤ)
    → IsSeconds w
    → pos 1774000000000 ≤ℤ w
    → IsRegular berlin (codes "Europe/Berlin") w spring (pos 3600000) (pos 7200000)
berlin-IsRegular w s late = record {
  changes_once = record {
    before = λ t lo hi. ground arith;
    after = λ t lo hi. ground arith;
    old_small = omega arith;
    new_small = omega arith;
  };
  offset_seconds = λ t. ground arith;
  seconds = s;
  modern = omega (int_laws, late);
}

wall-zoned_ms_example :
    wall berlin (codes "Europe/Berlin") (zoned_ms berlin early (codes "Europe/Berlin")) ≡ early
unfolding ◌-ℤ◌ ◌+ℤ◌
wall-zoned_ms_example =
    wall-zoned_ms berlin (codes "Europe/Berlin") early spring (pos 3600000) (pos 7200000)
      (berlin-IsRegular early (refl, refl) (omega arith)) (pos 1774751400000) (omega arith)
      (omega arith) refl

wall-zoned_ms_gap_example :
    (spring ≤ℤ skipped
      → wall berlin (codes "Europe/Berlin") (zoned_ms berlin skipped (codes "Europe/Berlin"))
        ≡ skipped +ℤ (pos 7200000 -ℤ pos 3600000))
    × (skipped <ℤ spring
        → wall berlin (codes "Europe/Berlin") (zoned_ms berlin skipped (codes "Europe/Berlin"))
          ≡ skipped -ℤ (pos 7200000 -ℤ pos 3600000))
unfolding ◌-ℤ◌ ◌+ℤ◌
wall-zoned_ms_gap_example =
    wall-zoned_ms_gap berlin (codes "Europe/Berlin") skipped spring (pos 3600000) (pos 7200000)
      (berlin-IsRegular skipped (refl, refl) (omega arith)) (omega arith) (omega arith)

abbrev weekly : RecurrenceState
weekly = record {
  recurrence_frequency = RecurrenceFrequency.weekly;
  recurrence_interval = codes "2";
  recurrence_until = codes "2026-06-30";
}

weekly_rule :
    build_recurrence_rule browser weekly (codes "Europe/Berlin")
    ≡ some (some (codes "FREQ=WEEKLY;INTERVAL=2;UNTIL=2026-06-30T21:59:59.999Z"))
unfolding build_recurrence_rule read_date split zoned_date_time_to_iso time_clip ◌-ℤ◌ utc_ms
    scan_digits shown_year fields_of date_of_day parse_positive_integer_or_zero parse_int
    end_of_local_date_to_iso to_iso join ◌+ℤ◌ is_digit pad2 show is_prefix replace_first split_from
    day_of_month days_before_month days_before_year days_in_month days_in_year is_leap iso_year
    get_timezone_offset_milliseconds refine round to_number wall_clock_ms zoned_ms
weekly_rule = refl

parse-build_example :
    parse_recurrence_rule browser
      (some (codes "FREQ=WEEKLY;INTERVAL=2;UNTIL=2026-06-30T21:59:59.999Z"))
      (codes "Europe/Berlin")
    ≡ read_back browser RecurrenceFrequency.weekly
        (parse_positive_integer_or_zero (codes "2"))
        (codes "2026-06-30")
        (codes "Europe/Berlin")
parse-build_example = parse-build browser weekly (codes "Europe/Berlin") weekly_rule
